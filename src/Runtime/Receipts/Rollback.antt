-- ===== src/Runtime/Receipts/Rollback.antt =====
-- A preparation that fails after its receipts were reserved removes them again (runtime.rs), and what
-- becomes of a result.
use connectors.Base.{
  Bool, get, get-remove, Option-cases, on_if, on_option, ℕ, get_elem?, ◌≡◌, ◌<◌, refl, sym, ap, ◌∙◌,
  ◌⊎◌, inl, inr, arith, false, Option, none, some, List, [], ◌∷◌, map, subst, All, ok, u64_max,
  if◌then◌else◌,
}
use connectors.Runtime.Receipts.{
  result_of, RelayPublishReceiptKey, RelayPublishResult, Store, Route, take_result, taken,
  result_at, key_dec, allocate_all, remove_receipts, reserve_receipts, remove_all,
}
use connectors.Runtime.Receipts.Refinement.{reserved, remove_all-view, Call-Entered}
use connectors.Runtime.Receipts.Ledger.{
  entry, Call, Ledger, begin, forget, forget_all, Entered, begun, declined, finished, counted,
  forgotten, retained, handed_out, withheld, denied, view, IsSound, Operation, reserve, refuse,
  publish, count_drop, cancel, hand_out,
}

abbrev keys : List Route → List RelayPublishReceiptKey
keys routes = map (λ route. route.0) routes

abbrev pub Listed : RelayPublishReceiptKey → List RelayPublishReceiptKey → Type 0
Listed key [] = ⊥
Listed key (k ∷ ks) = (key ≡ k) ⊎ Listed key ks

module _ {Edge : Type 0} where
  forget-other :
      (l : Ledger Edge) (key k : RelayPublishReceiptKey) → ¬ (k ≡ key) → forget key l k ≡ l k
  forget-other l key k h = ground arith

  forget-same : (l : Ledger Edge) (key k : RelayPublishReceiptKey) → k ≡ key → forget key l k ≡ none
  forget-same l key k h = ground arith

  forget_all-agrees :
      (ks : List RelayPublishReceiptKey) (l m : Ledger Edge) (k : RelayPublishReceiptKey)
      → l k ≡ m k
      → forget_all ks l k ≡ forget_all ks m k
  forget_all-agrees [] l m k h = h
  forget_all-agrees (key ∷ ks) l m k h =
      forget_all-agrees ks (forget key l) (forget key m) k
        (ap (λ o. elim (key_dec k key) [ yes p ↦ none | no p ↦ o ]) h)

  forget_all-none :
      (ks : List RelayPublishReceiptKey) (l : Ledger Edge) (k : RelayPublishReceiptKey)
      → l k ≡ none
      → forget_all ks l k ≡ none
  forget_all-none [] l k h = h
  forget_all-none (key ∷ ks) l k h = forget_all-none ks (forget key l) k (ground (arith, h))

  begin-agrees :
      (routes : List Route) (l m : Ledger Edge) (k : RelayPublishReceiptKey)
      → l k ≡ m k
      → begin routes l k ≡ begin routes m k
  begin-agrees [] l m k h = h
  begin-agrees ((key, ticket) ∷ routes) l m k h =
      begin-agrees routes (begin ((key, ticket) ∷ []) l) (begin ((key, ticket) ∷ []) m) k
        (ap (λ o. elim (key_dec k key) [ yes p ↦ some (ticket, none) | no p ↦ o ]) h)

  forget_all-begin :
      (routes : List Route) (l : Ledger Edge) (k : RelayPublishReceiptKey)
      → All (λ route. l route.0 ≡ none) routes
      → forget_all (keys routes) (begin routes l) k ≡ l k
  forget_all-begin [] l k h = refl
  forget_all-begin ((key, ticket) ∷ routes) l k h =
      let first = begin ((key, ticket) ∷ []) l in
      elim (key_dec k key) [
        | yes p ↦
            let absent : l k ≡ none = ap l p ∙ h.0 in
            forget_all-none (keys routes) (forget key (begin routes first)) k
              (forget-same (begin routes first) key k p)
            ∙ sym absent
        | no p ↦
            let skipped : first k ≡ l k = ground (arith, p) in
            forget_all-agrees (keys routes) (forget key (begin routes first)) (begin routes l) k
              (forget-other (begin routes first) key k p ∙ begin-agrees routes first l k skipped)
            ∙ forget_all-begin routes l k h.1
      ]

  removed_view :
      (ks : List RelayPublishReceiptKey) (s : Store Edge)
      → s.poisoned ≡ false
      → view (remove_receipts ks s) ≡ forget_all ks (view s)
  unfolding remove_receipts
  removed_view ks s h =
      subst
        (λ b.
          view (if b then s else record s { receipts = remove_all ks s.receipts })
          ≡ forget_all ks (view s))
        (sym h) (remove_all-view ks s)

  -- To remove the receipts that a reservation granted leaves the ledger as it was before.
  pub remove_receipts-reserve_receipts :
      (max_bytes capacity : ℕ) (ks granted : List RelayPublishReceiptKey) (s after : Store Edge)
      → capacity < u64_max
      → IsSound capacity s
      → reserve_receipts max_bytes capacity (allocate_all ks s).1 (allocate_all ks s).0
        ≡ ok (after, granted)
      → view (remove_receipts granted after) ≡ view s
  remove_receipts-reserve_receipts max_bytes capacity ks granted s after small sound e =
      let known = reserved max_bytes capacity ks granted s after small e sound.0 in
      removed_view granted after known.2
      ∙ ap (λ gs. forget_all gs (view after)) known.3
      ∙ ap (forget_all (keys (allocate_all ks s).1)) known.0
      ∙ (λ i k. forget_all-begin (allocate_all ks s).1 (view s) k known.1 i)

  forget_all-cases :
      (ks : List RelayPublishReceiptKey) (l : Ledger Edge) (k : RelayPublishReceiptKey)
      {o : Option (ℕ × Option (RelayPublishResult Edge))}
      → l k ≡ o
      → (forget_all ks l k ≡ o) ⊎ (Listed k ks × (forget_all ks l k ≡ none))
  forget_all-cases [] l k h = inl h
  forget_all-cases (key ∷ ks) l k h = elim (key_dec k key) [
    | yes p ↦ inr (inl p, forget_all-none ks (forget key l) k (forget-same l key k p))
    | no p ↦ elim (forget_all-cases ks (forget key l) k (forget-other l key k p ∙ h)) [
      | inl stays ↦ inl stays
      | inr gone ↦ inr (inr gone.0, gone.1)
    ]
  ]

  begin-known :
      (routes : List Route) (l : Ledger Edge) (k : RelayPublishReceiptKey)
      {o : ℕ × Option (RelayPublishResult Edge)}
      → All (λ route. l route.0 ≡ none) routes
      → l k ≡ some o
      → begin routes l k ≡ some o
  begin-known [] l k absent h = h
  begin-known ((key, ticket) ∷ routes) l k {o = o} absent h =
      let other : ¬ (k ≡ key) = λ p. let gone : l k ≡ none = ap l p ∙ absent.0 in cc in
      let skipped : begin ((key, ticket) ∷ []) l k ≡ l k = ground (arith, other) in
      begin-agrees routes (begin ((key, ticket) ∷ []) l) l k skipped
      ∙ begin-known routes l k absent.1 h

  -- An operation that removes a key whose result is `r`: a cancellation that lists the key, or the
  -- handing out of `r` under it.
  abbrev pub Removes : RelayPublishReceiptKey → RelayPublishResult Edge → Operation Edge → Type 0
  Removes key r (reserve routes) = ⊥
  Removes key r refuse = ⊥
  Removes key r (publish ticket q) = ⊥
  Removes key r (count_drop ticket) = ⊥
  Removes key r (cancel ks) = Listed key ks
  Removes key r (hand_out k answer) = (key ≡ k) × (answer ≡ some r)

  same_result :
      (l : Ledger Edge) {k key : RelayPublishReceiptKey} {t ticket : ℕ}
      {q r : RelayPublishResult Edge}
      → key ≡ k
      → l k ≡ some (t, some q)
      → l key ≡ some (ticket, some r)
      → some q ≡ some r
  same_result l p e h = let both = sym (ap l p ∙ e) ∙ h in ground (arith, both)

  Entered-keeps :
      {available : Bool} {op : Operation Edge} {n n' : ℕ} {l m : Ledger Edge}
      (key : RelayPublishReceiptKey) (ticket : ℕ) (r : RelayPublishResult Edge)
      → Entered available op n l n' m
      → l key ≡ some (ticket, some r)
      → (m key ≡ some (ticket, some r)) ⊎ (Removes key r op × (m key ≡ none))
  Entered-keeps key ticket r (begun routes order absent) h = inl (begin-known routes _ key absent h)
  Entered-keeps key ticket r (declined more) h = inl h
  Entered-keeps key ticket r (finished t q) h = inl (ground (arith, h))
  Entered-keeps key ticket r (counted t) h = inl h
  Entered-keeps key ticket r (forgotten ks) h = forget_all-cases ks _ key h
  Entered-keeps key ticket r (retained ks) h = inl h
  Entered-keeps {l = l} key ticket r (handed_out k t q e) h = elim (key_dec key k) [
    | yes p ↦ inr ((p, same_result l p e h), forget-same l k key p)
    | no p ↦ inl (forget-other l k key p ∙ h)
  ]
  Entered-keeps key ticket r (withheld k nothing) h = inl h
  Entered-keeps key ticket r (denied k) h = inl h

  -- Whatever call of the factory or of a worker comes next, a result that stands under a key stays there
  -- unaltered, but for two calls: a cancellation that lists the key, and the call that hands out this
  -- very result under this key. The store is a sound one, and the capacity less than the largest
  -- `usize`.
  pub Call-keeps :
      {max_bytes capacity : ℕ} {op : Operation Edge} {s after : Store Edge}
      (key : RelayPublishReceiptKey) (place : ℕ) (r : RelayPublishResult Edge)
      → capacity < u64_max
      → Call max_bytes capacity op s after
      → IsSound capacity s
      → view s key ≡ some (place, some r)
      → (view after key ≡ some (place, some r)) ⊎ (Removes key r op × (view after key ≡ none))
  Call-keeps {capacity = capacity} key place r small call sound h =
      Entered-keeps key place r (Call-Entered capacity small call sound).0 h

  known_not_none :
      {o : Option (ℕ × Option (RelayPublishResult Edge))} {e : ℕ × Option (RelayPublishResult Edge)}
      → o ≡ some e
      → ¬ (o ≡ none)
  known_not_none h k = cc

  -- What handing out a result shows of the ledger.
  abbrev Hands :
      RelayPublishReceiptKey
      → Store Edge
      → RelayPublishResult Edge
      → Store Edge × Option (RelayPublishResult Edge)
      → Type 0
  Hands key s r t = ((place : ℕ) × (view s key ≡ some (place, some r))) × (view t.0 key ≡ none)

  taken-Hands :
      (key : RelayPublishReceiptKey) (s : Store Edge) (r : RelayPublishResult Edge) (place : ℕ)
      (o : Option (RelayPublishResult Edge))
      → view s key ≡ some (place, o)
      → (taken key s o).1 ≡ some r
      → Hands key s r (taken key s o)
  taken-Hands key s r place none h e = cc
  taken-Hands key s r place (some q) h e = (
    (place, h ∙ ap (λ o. some (place, o)) e),
    ap (entry s.states) (get-remove key_dec s.receipts key),
  )

  take_result-Hands :
      (key : RelayPublishReceiptKey) (s : Store Edge) (r : RelayPublishResult Edge)
      → (take_result key s).1 ≡ some r
      → Hands key s r (take_result key s)
  unfolding take_result result_at
  take_result-Hands key s r =
      on_if (λ (t : Store Edge × Option (RelayPublishResult Edge)). t.1 ≡ some r → Hands key s r t)
        s.poisoned (λ e. cc)
        (on_option
          (λ (t : Store Edge × Option (RelayPublishResult Edge)). t.1 ≡ some r → Hands key s r t)
          (get key_dec s.receipts key) (λ absent e. cc)
          (λ place found.
            taken-Hands key s r place (result_of (get_elem? s.states place))
              (ap (entry s.states) found)))

  -- A result is handed out only if it stands under the key, and nothing stands there afterwards, so
  -- that the next call hands out none.
  pub take_result_once :
      (key : RelayPublishReceiptKey) (s : Store Edge) (r : RelayPublishResult Edge)
      → (take_result key s).1 ≡ some r
      → ((place : ℕ) × (view s key ≡ some (place, some r)))
        × (view (take_result key s).0 key ≡ none)
        × ((take_result key (take_result key s).0).1 ≡ none)
  take_result_once key s r e =
      let first = take_result-Hands key s r e in
      let after = (take_result key s).0 in
      (
        first.0,
        first.1,
        elim (Option-cases (take_result key after).1) [
          | inl nothing ↦ nothing
          | inr more ↦
              let again = (take_result-Hands key after more.0 more.1).0.1 in
              let gone = first.1 in absurd (known_not_none again gone)
        ],
      )
