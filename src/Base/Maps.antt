-- ===== src/Base/Maps.antt =====
-- `HashMap` and `BTreeMap` as association lists that hold a key once. The order of the entries, which
-- no operation here shows, is that of insertion.
use Prim.Native.Nat.{◌≤◌}
use mathlib.Core.Path.{◌≡◌, refl}
use mathlib.Core.Logic.{◌≢◌}
use mathlib.Core.Bool.{Bool}
use mathlib.Core.Option.{Option, none, some}
use mathlib.Core.List.{List, [], ◌∷◌}
use native.Mathlib.Omega.{arith}
use connectors.Base.Tests.{is_some}
use connectors.Base.Lists.{length}

abbrev pub Table {ℓ κ} : Type ℓ → Type κ → Type (ℓ ⊔ κ)
Table K V = List (K × V)

module _ {ℓ κ} {K : Type ℓ} {V : Type κ} (dec : Discrete K) where
  unfoldable pub get : Table K V → K → Option V
  get [] k = none
  get ((q, v) ∷ m) k = elim (dec k q) [ yes p ↦ some v | no p ↦ get m k ]

  unfoldable pub remove : Table K V → K → Table K V
  remove [] k = []
  remove ((q, v) ∷ m) k =
      let rest = remove m k in elim (dec k q) [ yes p ↦ rest | no p ↦ (q, v) ∷ rest ]

  abbrev pub insert : Table K V → K → V → Table K V
  insert m k v = (k, v) ∷ remove m k

  abbrev pub contains_key : Table K V → K → Bool
  contains_key m k = is_some (get m k)

  pub get-insert : (m : Table K V) (k : K) (v : V) → get (insert m k v) k ≡ some v
  unfolding get
  get-insert m k v = ground arith

  pub get-remove : (m : Table K V) (k : K) → get (remove m k) k ≡ none
  unfolding get remove
  get-remove [] k = refl
  get-remove ((q, v) ∷ m) k = ground (arith, get-remove m k)

  pub get-remove_ne : (m : Table K V) (k q : K) → q ≢ k → get (remove m k) q ≡ get m q
  unfolding get remove
  get-remove_ne [] k q h = refl
  get-remove_ne ((p, v) ∷ m) k q h = ground (arith, get-remove_ne m k q h)

  pub get-insert_ne : (m : Table K V) (k q : K) (v : V) → q ≢ k → get (insert m k v) q ≡ get m q
  unfolding get
  get-insert_ne m k q v h = ground (arith, get-remove_ne m k q h)

  pub length-remove_absent :
      (m : Table K V) (k : K) → get m k ≡ none → length (remove m k) ≡ length m
  unfolding get remove
  length-remove_absent [] k h = refl
  length-remove_absent ((q, v) ∷ m) k h = ground (arith, length-remove_absent m k)

  pub length-remove-le : (m : Table K V) (k : K) → length (remove m k) ≤ length m
  unfolding remove
  length-remove-le [] k = omega arith
  length-remove-le ((q, v) ∷ m) k = ground (arith, length-remove-le m k)
