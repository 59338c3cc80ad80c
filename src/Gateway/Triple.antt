-- ===== src/Gateway/Triple.antt =====
-- Reasoning about blocks of the gateway's monad: what holds before one, after its value, and after any
-- other end of it (an error, a panic, no more fuel).
use connectors.Base.{
  ◌≡◌, refl, ℕ, suc, Bool, true, false, Option, none, some, get_elem?, Result, ok, err,
}
use connectors.Gateway.Failures.{IngressError}
use connectors.Gateway.Ingress.{
  Group, Run, Outcome, value, failed, panicked, out_of_fuel, continue, ActiveIngress, ◌>>=◌, return,
  throw, modify, get, ask, attempt, caught, throw_if, found, stream_at,
}

module _ {Secret : Type 0} where
  abbrev pub Holds :
      {A : Type 0}
      → (A → Group Secret → Type 0)
      → (Group Secret → Type 0)
      → Group Secret × Outcome A
      → Type 0
  Holds Q R (g, value a) = Q a g
  Holds Q R (g, failed e) = R g
  Holds Q R (g, panicked) = R g
  Holds Q R (g, out_of_fuel) = R g

  pub record Triple {A : Type 0} (P : Group Secret → Type 0) (m : Run Secret A)
      (Q : A → Group Secret → Type 0) (R : Group Secret → Type 0) : Type 0 where
    pub at : (g : Group Secret) → P g → Holds Q R (m g)

  abbrev pub Keeps : {A : Type 0} → (Group Secret → Type 0) → Run Secret A → Type 0
  Keeps P m = Triple P m (λ a. P) P

  continue-Holds :
      {A B : Type 0} (Q : A → Group Secret → Type 0) (S : B → Group Secret → Type 0)
      (R : Group Secret → Type 0) (f : A → Run Secret B)
      → ((a : A) → Triple (Q a) (f a) S R)
      → (r : Group Secret × Outcome A) → Holds Q R r
      → Holds S R (continue f r)
  continue-Holds Q S R f h (g, value a) q = (h a).at g q
  continue-Holds Q S R f h (g, failed e) q = q
  continue-Holds Q S R f h (g, panicked) q = q
  continue-Holds Q S R f h (g, out_of_fuel) q = q

  pub chained :
      {A B : Type 0} {P R : Group Secret → Type 0} {Q : A → Group Secret → Type 0}
      {S : B → Group Secret → Type 0} {m : Run Secret A} {f : A → Run Secret B}
      → Triple P m Q R
      → ((a : A) → Triple (Q a) (f a) S R)
      → Triple P (m >>= f) S R
  unfolding ◌>>=◌
  chained {R = R} {Q = Q} {S = S} {m = m} {f = f} h k = record {
    at = λ g p. continue-Holds Q S R f k (m g) (h.at g p);
  }

  caught-Holds :
      {A : Type 0} (Q : A → Group Secret → Type 0) (R : Group Secret → Type 0)
      (S : Result IngressError A → Group Secret → Type 0)
      → ((a : A) (g : Group Secret) → Q a g → S (ok a) g)
      → ((e : IngressError) (g : Group Secret) → R g → S (err e) g)
      → (r : Group Secret × Outcome A) → Holds Q R r
      → Holds S R (caught r)
  caught-Holds Q R S h k (g, value a) q = h a g q
  caught-Holds Q R S h k (g, failed e) q = k e g q
  caught-Holds Q R S h k (g, panicked) q = q
  caught-Holds Q R S h k (g, out_of_fuel) q = q

  pub attempted_block :
      {A : Type 0} {P R : Group Secret → Type 0} {Q : A → Group Secret → Type 0}
      (S : Result IngressError A → Group Secret → Type 0) {m : Run Secret A}
      → ((a : A) (g : Group Secret) → Q a g → S (ok a) g)
      → ((e : IngressError) (g : Group Secret) → R g → S (err e) g)
      → Triple P m Q R
      → Triple P (attempt m) S R
  unfolding attempt
  attempted_block {R = R} {Q = Q} S {m} h k t = record {
    at = λ g p. caught-Holds Q R S h k (m g) (t.at g p);
  }

  -- A predicate that does not ask for the moment.
  abbrev pub Timeless : (Group Secret → Type 0) → Type 0
  Timeless P = (g : Group Secret) (moment : ℕ) → P g → P (record g { moment = moment })

  pub checked :
      {P : Group Secret → Type 0} (condition : Bool) (e : IngressError)
      → Keeps P (throw_if condition e)
  unfolding return throw
  checked true e = record { at = λ g p. p }
  checked false e = record { at = λ g p. p }

  pub found_at : {A : Type 0} {P : Group Secret → Type 0} (o : Option A) → Keeps P (found o)
  unfolding return
  found_at none = record { at = λ g p. p }
  found_at (some a) = record { at = λ g p. p }

  pub streamed : {P : Group Secret → Type 0} (index : ℕ) → Keeps P (stream_at index)
  unfolding stream_at
  streamed {P} index = record { at = λ g p. (found_at {P = P} (get_elem? g.active index)).at g p }

  -- The stream found is the one that the group has at the index.
  pub streamed_at :
      {P : Group Secret → Type 0} (index : ℕ)
      → Triple P (stream_at index) (λ s g. P g × (get_elem? g.active index ≡ some s)) P
  unfolding stream_at return
  streamed_at {P} index = record { at = λ g p. known g p (get_elem? g.active index) refl }
    where
      known :
          (g : Group Secret)
          → P g
          → (o : Option ActiveIngress) → get_elem? g.active index ≡ o
          → Holds (λ s h. P h × (get_elem? h.active index ≡ some s)) P (found o g)
      known g p none e = p
      known g p (some a) e = (p, e)

  -- What a check that passes shows.
  pub checked_false :
      {P : Group Secret → Type 0} (condition : Bool) (e : IngressError)
      → Triple P (throw_if condition e) (λ u g. P g × (condition ≡ false)) P
  unfolding return throw
  checked_false true e = record { at = λ g p. p }
  checked_false false e = record { at = λ g p. (p, refl) }

  -- A fact that is known before a block.
  pub assuming :
      {A Fact : Type 0} {P R : Group Secret → Type 0} {Q : A → Group Secret → Type 0}
      {m : Run Secret A}
      → (Fact → Triple P m Q R)
      → Triple (λ g. P g × Fact) m Q R
  assuming h = record { at = λ g (p, fact). (h fact).at g p }

  pub on_result :
      {A B E : Type 0} {P R : Group Secret → Type 0} {Q : B → Group Secret → Type 0}
      {f : A → Run Secret B} {h : E → Run Secret B} (r : Result E A)
      → ((a : A) → Triple P (f a) Q R)
      → ((e : E) → Triple P (h e) Q R)
      → Triple P (elim r [ ok a ↦ f a | err e ↦ h e ]) Q R
  on_result (ok a) k l = k a
  on_result (err e) k l = l e

  pub on_option :
      {A B : Type 0} {P R : Group Secret → Type 0} {Q : B → Group Secret → Type 0}
      {n : Run Secret B} {f : A → Run Secret B} (o : Option A)
      → Triple P n Q R
      → ((a : A) → Triple P (f a) Q R)
      → Triple P (elim o [ none ↦ n | some a ↦ f a ]) Q R
  on_option none k l = k
  on_option (some a) k l = l a

  pub modified :
      {P Q R : Group Secret → Type 0} (f : Group Secret → Group Secret)
      → ((g : Group Secret) → P g → Q (f g))
      → Triple P (modify f) (λ u. Q) R
  unfolding modify
  modified f h = record { at = h }

  pub gotten :
      {A : Type 0} {P R : Group Secret → Type 0} (f : Group Secret → A)
      → Triple P (get f) (λ a. P) R
  unfolding get
  gotten f = record { at = λ g p. p }

  pub asked_then :
      {A : Type 0} {P R : Group Secret → Type 0} (f : ℕ → A)
      → Timeless P
      → Triple P (ask f) (λ a. P) R
  unfolding ask
  asked_then f h = record { at = λ g p. h g (suc g.moment) p }
