-- ===== src/Base/Lists.antt =====
-- Lists measured and indexed by native numbers, under the library's names.
use Prim.Native.Nat.{ℕ, zero, suc, ◌+◌, ◌-◌, ◌≤◌, ◌<◌, min}
use mathlib.Core.Path.{◌≡◌, refl, sym, ap, subst, ◌∙◌}
use mathlib.Core.Logic.{◌≢◌}
use mathlib.Core.Bool.{Bool, true, false, ◌&&◌, ◌||◌}
use mathlib.Core.List.{List, [], ◌∷◌, ◌++◌, append_assoc, reverse, reverse-cons}
use mathlib.Core.Option.{Option, none, some}
use native.Mathlib.Omega.{arith}

module _ {ℓ} {A : Type ℓ} where
  abbrev pub length : List A → ℕ
  length [] = 0
  length (x ∷ xs) = suc (length xs)

  abbrev pub get_elem? : List A → ℕ → Option A
  get_elem? [] i = none
  get_elem? (x ∷ xs) zero = some x
  get_elem? (x ∷ xs) (suc i) = get_elem? xs i

  abbrev pub get_or : List A → ℕ → A → A
  get_or [] i d = d
  get_or (x ∷ xs) zero d = x
  get_or (x ∷ xs) (suc i) d = get_or xs i d

  abbrev pub set : List A → ℕ → A → List A
  set [] i v = []
  set (x ∷ xs) zero v = v ∷ xs
  set (x ∷ xs) (suc i) v = x ∷ set xs i v

  abbrev pub update : (A → A) → ℕ → List A → List A
  update f i [] = []
  update f zero (x ∷ xs) = f x ∷ xs
  update f (suc i) (x ∷ xs) = x ∷ update f i xs

  abbrev pub take : ℕ → List A → List A
  take zero xs = []
  take (suc n) [] = []
  take (suc n) (x ∷ xs) = x ∷ take n xs

  abbrev pub drop : ℕ → List A → List A
  drop zero xs = xs
  drop (suc n) [] = []
  drop (suc n) (x ∷ xs) = drop n xs

  abbrev pub replicate : ℕ → A → List A
  replicate zero a = []
  replicate (suc n) a = a ∷ replicate n a

  abbrev pub any : (A → Bool) → List A → Bool
  any p [] = false
  any p (x ∷ xs) = p x || any p xs

  abbrev pub all : (A → Bool) → List A → Bool
  all p [] = true
  all p (x ∷ xs) = p x && all p xs

  abbrev pub All {κ} : (A → Type κ) → List A → Type κ
  All P [] = Unit
  All P (x ∷ xs) = P x × All P xs

module _ {ℓ} {A : Type ℓ} where
  pub length-append : (xs ys : List A) → length (xs ++ ys) ≡ length xs + length ys
  length-append [] ys = omega arith
  length-append (x ∷ xs) ys = omega (arith, length-append xs ys)

  pub take-append-drop : (n : ℕ) (xs : List A) → take n xs ++ drop n xs ≡ xs
  take-append-drop zero xs = refl
  take-append-drop (suc n) [] = refl
  take-append-drop (suc n) (x ∷ xs) = ap (◌∷◌ x) (take-append-drop n xs)

  pub length-take : (n : ℕ) (xs : List A) → length (take n xs) ≡ min n (length xs)
  length-take zero xs = omega arith
  length-take (suc n) [] = omega arith
  length-take (suc n) (x ∷ xs) = omega (arith, length-take n xs)

  pub length-drop : (n : ℕ) (xs : List A) → length (drop n xs) ≡ length xs - n
  length-drop zero xs = omega arith
  length-drop (suc n) [] = omega arith
  length-drop (suc n) (x ∷ xs) = omega (arith, length-drop n xs)

  pub length-replicate : (n : ℕ) (a : A) → length (replicate n a) ≡ n
  length-replicate zero a = refl
  length-replicate (suc n) a = ap suc (length-replicate n a)

  pub length-set : (xs : List A) (i : ℕ) (v : A) → length (set xs i v) ≡ length xs
  length-set [] i v = refl
  length-set (x ∷ xs) zero v = refl
  length-set (x ∷ xs) (suc i) v = ap suc (length-set xs i v)

  -- The first `n` elements of a list that begins with exactly `n`.
  pub take-append : (xs ys : List A) → take (length xs) (xs ++ ys) ≡ xs
  take-append [] ys = refl
  take-append (x ∷ xs) ys = ap (◌∷◌ x) (take-append xs ys)

  pub drop-append : (xs ys : List A) → drop (length xs) (xs ++ ys) ≡ ys
  drop-append [] ys = refl
  drop-append (x ∷ xs) ys = drop-append xs ys

  pub drop_all : (n : ℕ) (xs : List A) → length xs ≤ n → drop n xs ≡ []
  drop_all zero [] h = refl
  drop_all zero (x ∷ xs) h = absurd (omega arith)
  drop_all (suc n) [] h = refl
  drop_all (suc n) (x ∷ xs) h = drop_all n xs (omega arith)

  drop-nil : (n : ℕ) → drop {A = A} n [] ≡ []
  drop-nil zero = refl
  drop-nil (suc n) = refl

  pub drop-drop : (m n k : ℕ) (xs : List A) → m + n ≡ k → drop n (drop m xs) ≡ drop k xs
  drop-drop zero n k xs e = let e' : n ≡ k = omega (arith, e) in ap (λ i. drop i xs) e'
  drop-drop (suc m) n zero xs e = absurd (omega arith)
  drop-drop (suc m) n (suc k) [] e = drop-nil n
  drop-drop (suc m) n (suc k) (x ∷ xs) e = drop-drop m n k xs (omega arith)

  -- A list is cut after `n` more elements.
  pub take-drop-step :
      (offset n k : ℕ) (xs : List A)
      → offset + n ≡ k
      → take n (drop offset xs) ++ drop k xs ≡ drop offset xs
  take-drop-step offset n k xs e =
      ap (◌++◌ (take n (drop offset xs))) (sym (drop-drop offset n k xs e))
      ∙ take-append-drop n (drop offset xs)

  pub take_all : (n : ℕ) (xs : List A) → length xs ≤ n → take n xs ≡ xs
  take_all zero [] h = refl
  take_all zero (x ∷ xs) h = absurd (omega arith)
  take_all (suc n) [] h = refl
  take_all (suc n) (x ∷ xs) h = ap (◌∷◌ x) (take_all n xs (omega arith))

  pub length-update : (f : A → A) (i : ℕ) (xs : List A) → length (update f i xs) ≡ length xs
  length-update f i [] = refl
  length-update f zero (x ∷ xs) = refl
  length-update f (suc i) (x ∷ xs) = ap suc (length-update f i xs)

  pub get_elem?-update :
      (f : A → A) (i : ℕ) (xs : List A) {a : A}
      → get_elem? xs i ≡ some a
      → get_elem? (update f i xs) i ≡ some (f a)
  get_elem?-update f i [] h = cc
  get_elem?-update f zero (x ∷ xs) h = cc
  get_elem?-update f (suc i) (x ∷ xs) h = get_elem?-update f i xs h

  pub get_elem?-update_ne :
      (f : A → A) (i j : ℕ) (xs : List A) → j ≢ i → get_elem? (update f i xs) j ≡ get_elem? xs j
  get_elem?-update_ne f i j [] h = refl
  get_elem?-update_ne f zero zero (x ∷ xs) h = absurd (h refl)
  get_elem?-update_ne f zero (suc j) (x ∷ xs) h = refl
  get_elem?-update_ne f (suc i) zero (x ∷ xs) h = refl
  get_elem?-update_ne f (suc i) (suc j) (x ∷ xs) h =
      get_elem?-update_ne f i j xs (λ e. h (ap suc e))

  -- What is added at the end leaves the places before it.
  pub get_elem?-append :
      (xs ys : List A) (i : ℕ) → i < length xs → get_elem? (xs ++ ys) i ≡ get_elem? xs i
  get_elem?-append [] ys i h = absurd (omega arith)
  get_elem?-append (x ∷ xs) ys zero h = refl
  get_elem?-append (x ∷ xs) ys (suc i) h = get_elem?-append xs ys i (omega arith)

  pub get_elem?-append_last : (xs : List A) (a : A) → get_elem? (xs ++ a ∷ []) (length xs) ≡ some a
  get_elem?-append_last [] a = refl
  get_elem?-append_last (x ∷ xs) a = get_elem?-append_last xs a

module _ {ℓ κ} {A : Type ℓ} (P : A → Type κ) where
  pub All-update :
      (f : A → A) (i : ℕ) (xs : List A)
      → ((x : A) → P x → P (f x))
      → All P xs
      → All P (update f i xs)
  All-update f i [] h a = tt
  All-update f zero (x ∷ xs) h a = (h x a.0, a.1)
  All-update f (suc i) (x ∷ xs) h a = (a.0, All-update f i xs h a.1)

  pub All-append : (xs ys : List A) → All P xs → All P ys → All P (xs ++ ys)
  All-append [] ys h k = k
  All-append (x ∷ xs) ys h k = (h.0, All-append xs ys h.1 k)

  pub All-reverse : (xs : List A) → All P xs → All P (reverse xs)
  All-reverse [] h = tt
  All-reverse (x ∷ xs) h =
      rw (reverse-cons x xs) (All-append (reverse xs) (x ∷ []) (All-reverse xs h.1) (h.0, tt))

  pub All-map {μ} : {Q : A → Type μ} → ((x : A) → P x → Q x) → (xs : List A) → All P xs → All Q xs
  All-map f [] h = tt
  All-map f (x ∷ xs) h = (f x h.0, All-map f xs h.1)

pub length-map {ℓ κ} :
    {A : Type ℓ} {B : Type κ} (f : A → B) (xs : List A)
    → length (mathlib.Core.List.map f xs) ≡ length xs
length-map f [] = refl
length-map f (x ∷ xs) = ap suc (length-map f xs)

-- `xs[i..i + ys.len()].copy_from_slice(ys)`, which panics where `i + ys.len()` is out of range.
abbrev pub copy_into {ℓ} : {A : Type ℓ} → List A → ℕ → List A → List A
copy_into xs i ys = take i xs ++ (ys ++ drop (i + length ys) xs)

pub length-copy_into {ℓ} :
    {A : Type ℓ} (xs : List A) (i : ℕ) (ys : List A)
    → i + length ys ≤ length xs
    → length (copy_into xs i ys) ≡ length xs
length-copy_into xs i ys h = omega (
  arith,
  length-append (take i xs) (ys ++ drop (i + length ys) xs),
  length-append ys (drop (i + length ys) xs),
  length-take i xs,
  length-drop (i + length ys) xs,
)

-- What the first `i` elements and the copied ones are, read back.
pub take-copy_into {ℓ} :
    {A : Type ℓ} (xs : List A) (i : ℕ) (ys : List A)
    → i + length ys ≤ length xs
    → take (i + length ys) (copy_into xs i ys) ≡ take i xs ++ ys
take-copy_into xs i ys h =
    subst (λ n. take n (copy_into xs i ys) ≡ take i xs ++ ys) size
      (rw (← append_assoc (take i xs) ys (drop (i + length ys) xs))
        (take-append (take i xs ++ ys) (drop (i + length ys) xs)))
  where
    size : length (take i xs ++ ys) ≡ i + length ys
    size = omega (arith, length-append (take i xs) ys, length-take i xs)

pub All-of-map {ℓ κ μ} :
    {A : Type ℓ} {B : Type κ} (P : B → Type μ) (f : A → B) (xs : List A)
    → All P (mathlib.Core.List.map f xs)
    → All (λ x. P (f x)) xs
All-of-map P f [] h = tt
All-of-map P f (x ∷ xs) h = (h.0, All-of-map P f xs h.1)
