-- ===== src/Runtime/Receipts/Refinement.antt =====
-- The registry of receipts implements the ledger (runtime.rs).
use connectors.Base.{
  on_test, ok_inj, Bool, not, ◌≢◌, fail_if-eq-ok, ℕ, zero, suc, ◌+◌, ◌≡◌, ◌<◌, ◌≤◌, refl, sym, ap,
  subst, ◌∙◌, inl, inr, arith, false, Option, none, some, List, [], ◌∷◌, ◌++◌, map, append-nil,
  append_assoc, length, any, All, All-map, get_elem?, update, get, remove, insert, ok, Option-cases,
  get-remove, get-remove_ne, get-insert, get-insert_ne, length-remove-le, length-append,
  length-update, get_elem?-append, get_elem?-append_last, get_elem?-update_ne, ltb, saturating_add,
  wrapping_add, contains_key, u64_max,
}
use native.Mathlib.Decide.{ℕ_discrete}
use connectors.Runtime.Receipts.{
  RelayPublishReceiptKey, RelayPublishReceiptState, RelayPublishResult, Store, Route, Registry,
  key_dec, new_state, allocate, allocate_all, result_of, result_at, set_once, set_result,
  count_queue_drop, take_result, insert_all, remove_all, remove_receipts, reserve_receipts,
}
use connectors.Runtime.Receipts.Ledger.{
  Ledger, begin, keep_first, completed, complete, forget, forget_all, Entered, begun, declined,
  finished, counted, forgotten, retained, handed_out, withheld, denied, Ordered, Operation, reserve,
  refuse, cancel, hand_out, entry, view, IsSound, Call, Calls, none_left, call_then, Entries,
  no_entry, entry_then, reserving, refused, publishing, counting, cancelling, taking,
}

All-remove :
    (P : RelayPublishReceiptKey × ℕ → Type 0) (m : Registry) (k : RelayPublishReceiptKey)
    → All P m
    → All P (remove key_dec m k)
unfolding remove
All-remove P [] k h = tt
All-remove P ((q, v) ∷ m) k h =
    elim (key_dec k q)
      as (λ d. All P (elim d [ yes p ↦ remove key_dec m k | no p ↦ (q, v) ∷ remove key_dec m k ])) [
        | yes p ↦ All-remove P m k h.1
        | no p ↦ (h.0, All-remove P m k h.1)
      ]

All-insert_all :
    (P : RelayPublishReceiptKey × ℕ → Type 0) (routes : List Route) (m : Registry)
    → All P routes
    → All P m
    → All P (insert_all routes m)
All-insert_all P [] m h k = k
All-insert_all P (route ∷ routes) m h k =
    All-insert_all P routes (insert key_dec m route.0 route.1) h.1 (h.0, All-remove P m route.0 k)

length-insert_all-le :
    (routes : List Route) (m : Registry) → length (insert_all routes m) ≤ length m + length routes
length-insert_all-le [] m = omega arith
length-insert_all-le (route ∷ routes) m = omega (
  arith,
  length-insert_all-le routes (insert key_dec m route.0 route.1),
  length-remove-le key_dec m route.0,
)

All-remove_all :
    (P : RelayPublishReceiptKey × ℕ → Type 0) (keys : List RelayPublishReceiptKey) (m : Registry)
    → All P m
    → All P (remove_all keys m) × (length (remove_all keys m) ≤ length m)
All-remove_all P [] m h = (h, omega arith)
All-remove_all P (key ∷ keys) m h =
    let rest = All-remove_all P keys (remove key_dec m key) (All-remove P m key h) in
    (rest.0, omega (arith, rest.1, length-remove-le key_dec m key))

get-All :
    (P : RelayPublishReceiptKey × ℕ → Type 0) (m : Registry) (k : RelayPublishReceiptKey) {p : ℕ}
    → All P m
    → get key_dec m k ≡ some p
    → (q : RelayPublishReceiptKey) × P (q, p)
unfolding get
get-All P [] k h e = cc
get-All P ((q, v) ∷ m) k {p = p} h e =
    elim (key_dec k q)
        as (λ d.
          elim d [ yes same ↦ some v | no other ↦ get key_dec m k ] ≡ some p
          → (x : RelayPublishReceiptKey) × P (x, p)) [
            | yes same ↦ λ f.
                let same_place : v ≡ p = ground (arith, f) in
                (q, subst (λ w. P (q, w)) same_place h.0)
            | no other ↦ get-All P m k h.1
          ]
      e

raised :
    {m n : ℕ} (receipts : Registry)
    → m ≤ n
    → All (λ e. e.1 < m) receipts
    → All (λ e. e.1 < n) receipts
raised receipts le h = All-map _ (λ e small. omega (arith, le, small)) receipts h

always : {P : Route → Type 0} → ((e : Route) → P e) → (receipts : Registry) → All P receipts
always f [] = tt
always f (e ∷ receipts) = (f e, always f receipts)

absent_result :
    {Edge : Type 0} {o : Option (ℕ × Option (RelayPublishResult Edge))} {t : ℕ}
    {r : RelayPublishResult Edge}
    → o ≡ none
    → o ≢ some (t, some r)
absent_result h e = cc

pending_result :
    {Edge : Type 0} {o : Option (ℕ × Option (RelayPublishResult Edge))} {p t : ℕ}
    {r : RelayPublishResult Edge}
    → o ≡ some (p, none)
    → o ≢ some (t, some r)
pending_result h e = ground (arith, h, e)

module _ {Edge : Type 0} where
  forget-view :
      (s : Store Edge) (key : RelayPublishReceiptKey)
      → view (record s { receipts = remove key_dec s.receipts key }) ≡ forget key (view s)
  forget-view s key i k = at k i
    where
      at :
          (k : RelayPublishReceiptKey)
          → view (record s { receipts = remove key_dec s.receipts key }) k ≡ forget key (view s) k
      at k =
          elim (key_dec k key)
            as (λ d.
              entry s.states (get key_dec (remove key_dec s.receipts key) k)
              ≡ elim d [ yes p ↦ none | no p ↦ view s k ]) [
                | yes p ↦ rw p (ap (entry s.states) (get-remove key_dec s.receipts key))
                | no p ↦ ap (entry s.states) (get-remove_ne key_dec s.receipts key k p)
              ]

  begin-view :
      (s : Store Edge) (key : RelayPublishReceiptKey) (place : ℕ)
      → result_of (get_elem? s.states place) ≡ none
      → view (record s { receipts = insert key_dec s.receipts key place })
        ≡ begin ((key, place) ∷ []) (view s)
  begin-view s key place fresh i k = at k i
    where
      at :
          (k : RelayPublishReceiptKey)
          → view (record s { receipts = insert key_dec s.receipts key place }) k
            ≡ begin ((key, place) ∷ []) (view s) k
      at k =
          elim (key_dec k key)
            as (λ d.
              entry s.states (get key_dec (insert key_dec s.receipts key place) k)
              ≡ elim d [ yes p ↦ some (place, none) | no p ↦ view s k ]) [
                | yes p ↦ rw p (
                    ap (entry s.states) (get-insert key_dec s.receipts key place)
                    ∙ ap (λ r. some (place, r)) fresh)
                | no p ↦ ap (entry s.states) (get-insert_ne key_dec s.receipts key k place p)
              ]

  IsFresh : List (RelayPublishReceiptState Edge) → Route → Type 0
  IsFresh states route = (result_of (get_elem? states route.1) ≡ none) × (route.1 < length states)

  insert_all-view :
      (routes : List Route) (s : Store Edge)
      → All (IsFresh s.states) routes
      → view (record s { receipts = insert_all routes s.receipts }) ≡ begin routes (view s)
  unfolding IsFresh
  insert_all-view [] s h = refl
  insert_all-view ((key, place) ∷ routes) s h =
      insert_all-view routes (record s { receipts = insert key_dec s.receipts key place }) h.1
      ∙ ap (begin routes) (begin-view s key place h.0.0)

  pub remove_all-view :
      (keys : List RelayPublishReceiptKey) (s : Store Edge)
      → view (record s { receipts = remove_all keys s.receipts }) ≡ forget_all keys (view s)
  remove_all-view [] s = refl
  remove_all-view (key ∷ keys) s =
      remove_all-view keys (record s { receipts = remove key_dec s.receipts key })
      ∙ ap (forget_all keys) (forget-view s key)

  -- Another heap in which each place registered shows the same result.
  reread-view :
      (s : Store Edge) (states : List (RelayPublishReceiptState Edge))
      → All (λ e. result_of (get_elem? states e.1) ≡ result_of (get_elem? s.states e.1)) s.receipts
      → view (record s { states = states }) ≡ view s
  reread-view s states h i k =
      elim (Option-cases (get key_dec s.receipts k))
          as (λ c.
            entry states (get key_dec s.receipts k) ≡ entry s.states (get key_dec s.receipts k)) [
              | inl absent ↦ rw absent refl
              | inr found ↦
                  rw found.1 (ap (λ r. some (found.0, r)) (get-All _ s.receipts k h found.1).1)
            ]
        i

  -- New states are added at the end of the heap and nothing else happens; each route has its own.
  IsAllocated : Store Edge → Store Edge × List Route → Type 0
  IsAllocated s r =
      ((extra : List (RelayPublishReceiptState Edge)) × (r.0
          ≡ record s { states = s.states ++ extra }))
      × All (IsFresh r.0.states) r.1

  allocate_all-IsAllocated :
      (keys : List RelayPublishReceiptKey) (s : Store Edge) → IsAllocated s (allocate_all keys s)
  unfolding IsAllocated IsFresh
  allocate_all-IsAllocated [] s =
      (([], ap (λ l. record s { states = l }) (sym (append-nil s.states))), tt)
  allocate_all-IsAllocated (key ∷ keys) s =
      let rest = allocate_all-IsAllocated keys (allocate s).0 in
      let extra = rest.0.0 in
      let states = (allocate_all keys (allocate s).0).0.states in
      let grown : states ≡ (s.states ++ new_state ∷ []) ++ extra = ap (λ t. t.states) rest.0.1 in
      let size : length (s.states ++ new_state {Edge = Edge} ∷ []) ≡ suc (length s.states) =
        omega (arith, length-append s.states (new_state {Edge = Edge} ∷ [])) in
      let first : get_elem? states (length s.states) ≡ some new_state = rw grown (
        get_elem?-append (s.states ++ new_state ∷ []) extra (length s.states) (omega (arith, size))
        ∙ get_elem?-append_last s.states new_state) in
      let long : length states ≡ suc (length s.states) + length extra =
        rw grown (omega (arith, size, length-append (s.states ++ new_state ∷ []) extra)) in
      (
        (
          new_state ∷ extra,
          rest.0.1
              ∙ ap (λ l. record s { states = l }) (append_assoc s.states (new_state ∷ []) extra),
        ),
        ((ap result_of first, omega (arith, long)), rest.1),
      )

  -- The first result stays.
  pub publish-result :
      (r : RelayPublishResult Edge) (i : ℕ) (states : List (RelayPublishReceiptState Edge))
      → i < length states
      → result_of (get_elem? (update (set_once r) i states) i)
        ≡ keep_first r (result_of (get_elem? states i))
  publish-result r i [] h = absurd (omega arith)
  publish-result r zero (state ∷ states) h = elim (Option-cases state.result) [
    | inl absent ↦ rw absent refl
    | inr present ↦ rw present.1 refl
  ]
  publish-result r (suc i) (state ∷ states) h = publish-result r i states (omega arith)

  publish-view :
      (s : Store Edge) (place : ℕ) (r : RelayPublishResult Edge)
      → All (λ e. e.1 < length s.states) s.receipts
      → view (set_result place r s) ≡ complete place r (view s)
  unfolding set_result
  publish-view s place r h i k =
      elim (Option-cases (get key_dec s.receipts k))
          as (λ c.
            entry (update (set_once r) place s.states) (get key_dec s.receipts k)
            ≡ completed place r (entry s.states (get key_dec s.receipts k))) [
              | inl absent ↦ rw absent refl
              | inr found ↦ rw found.1 (
                  ap (λ o. some (found.0, o))
                    (elim (ℕ_discrete found.0 place)
                      as (λ d.
                        result_of (get_elem? (update (set_once r) place s.states) found.0)
                        ≡ elim d [
                          | yes p ↦ keep_first r (result_of (get_elem? s.states found.0))
                          | no p ↦ result_of (get_elem? s.states found.0)
                        ]) [
                          | yes p ↦ rw p (
                              publish-result r place s.states (
                                subst (λ q. q < length s.states) p
                                  (get-All (λ e. e.1 < length s.states) s.receipts k h found.1).1))
                          | no p ↦
                              ap result_of
                                (get_elem?-update_ne (set_once r) place found.0 s.states p)
                        ]))
            ]
        i

  drop-result :
      (place i : ℕ) (states : List (RelayPublishReceiptState Edge)) (f : ℕ → ℕ)
      → result_of (
          get_elem?
            (update
              (λ state. record state {
                ingress_queue_drops_total = f state.ingress_queue_drops_total;
              })
              place
              states)
            i)
        ≡ result_of (get_elem? states i)
  drop-result place i [] f = refl
  drop-result zero zero (state ∷ states) f = refl
  drop-result zero (suc i) (state ∷ states) f = refl
  drop-result (suc place) zero (state ∷ states) f = refl
  drop-result (suc place) (suc i) (state ∷ states) f = drop-result place i states f

  -- What a reservation that succeeds has found and done.
  reserve_receipts-eq-ok :
      (max_bytes capacity : ℕ) (routes : List Route) (s after : Store Edge)
      (granted : List RelayPublishReceiptKey)
      → capacity < u64_max
      → reserve_receipts max_bytes capacity routes s ≡ ok (after, granted)
      → (length s.receipts + length routes ≤ capacity)
        × (any (contains_key key_dec s.receipts) (map (λ route. route.0) routes) ≡ false)
        × (after ≡ record s { receipts = insert_all routes s.receipts })
        × (s.poisoned ≡ false)
        × (granted ≡ map (λ route. route.0) routes)
  unfolding reserve_receipts
  reserve_receipts-eq-ok max_bytes capacity routes s after granted small e =
      let unlocked = fail_if-eq-ok s.poisoned _ _ e in
      let fits =
        fail_if-eq-ok (ltb capacity (saturating_add (length s.receipts) (length routes))) _ _
          unlocked.1 in
      let new =
        fail_if-eq-ok (any (contains_key key_dec s.receipts) (map (λ route. route.0) routes)) _ _
          fits.1 in
      (
        ground (arith, fits.0, small),
        new.0,
        sym (ap (λ q. q.0) (ok_inj new.1)),
        unlocked.0,
        sym (ap (λ q. q.1) (ok_inj new.1)),
      )

  absent_all :
      (s : Store Edge) (routes : List Route)
      → any (contains_key key_dec s.receipts) (map (λ route. route.0) routes) ≡ false
      → All (λ route. view s route.0 ≡ none) routes
  absent_all s [] h = tt
  absent_all s (route ∷ routes) h = elim (Option-cases (get key_dec s.receipts route.0)) [
    | inl absent ↦ (ap (entry s.states) absent, absent_all s routes (ground (arith, absent, h)))
    | inr found ↦ absurd (ground (arith, found.1, h))
  ]

  pub allocated_view :
      (keys : List RelayPublishReceiptKey) (s : Store Edge)
      → All (λ e. e.1 < length s.states) s.receipts
      → (view (allocate_all keys s).0 ≡ view s)
        × ((allocate_all keys s).0.receipts ≡ s.receipts)
        × (length s.states ≤ length (allocate_all keys s).0.states)
  unfolding IsAllocated
  allocated_view keys s h =
      let made = allocate_all-IsAllocated keys s in
      let extra = made.0.0 in
      rw made.0.1 (
        reread-view s (s.states ++ extra) (
            All-map _ (λ e small. ap result_of (get_elem?-append s.states extra e.1 small))
              s.receipts h),
        refl,
        omega (arith, length-append s.states extra),
      )

  -- What a reservation that succeeds does to the ledger.
  pub reserved :
      (max_bytes capacity : ℕ) (keys granted : List RelayPublishReceiptKey) (s after : Store Edge)
      → capacity < u64_max
      → reserve_receipts max_bytes capacity (allocate_all keys s).1 (allocate_all keys s).0
        ≡ ok (after, granted)
      → All (λ e. e.1 < length s.states) s.receipts
      → (view after ≡ begin (allocate_all keys s).1 (view s))
        × All (λ route. view s route.0 ≡ none) (allocate_all keys s).1
        × (after.poisoned ≡ false)
        × (granted ≡ map (λ route. route.0) (allocate_all keys s).1)
  unfolding IsAllocated
  reserved max_bytes capacity keys granted s after small e sound =
      let a = allocate_all keys s in
      let made = allocated_view keys s sound in
      let fresh = (allocate_all-IsAllocated keys s).1 in
      let found = reserve_receipts-eq-ok max_bytes capacity a.1 a.0 after granted small e in
      (
        ap view found.2 ∙ insert_all-view a.1 a.0 fresh ∙ ap (begin a.1) made.0,
        subst (λ l. All (λ route. l route.0 ≡ none) a.1) made.0 (absent_all a.0 a.1 found.1),
        ap (λ t. t.poisoned) found.2 ∙ found.3,
        found.4,
      )

  -- The tickets of the new states.
  allocate_all-Ordered :
      (keys : List RelayPublishReceiptKey) (s : Store Edge)
      → Ordered (length s.states) (allocate_all keys s).1 (length (allocate_all keys s).0.states)
  allocate_all-Ordered [] s = omega arith
  allocate_all-Ordered (key ∷ keys) s =
      let size : length (s.states ++ new_state {Edge = Edge} ∷ []) ≡ suc (length s.states) =
        omega (arith, length-append s.states (new_state {Edge = Edge} ∷ [])) in
      (
        omega arith,
        subst
            (λ n.
              Ordered n (allocate_all keys (allocate s).0).1
                (length (allocate_all keys (allocate s).0).0.states))
            size (allocate_all-Ordered keys (allocate s).0),
      )

  module _ (capacity : ℕ) where
    -- The call does to the ledger what its operation says, and leaves a sound store.
    abbrev pub IsEntered : Operation Edge → Store Edge → Store Edge → Type 0
    IsEntered op s after =
        Entered (not s.poisoned) op (length s.states) (view s) (length after.states) (view after)
        × IsSound capacity after
        × (after.poisoned ≡ s.poisoned)

    entered :
        {op : Operation Edge} (s after : Store Edge) {b : Bool} {m : ℕ} {l : Ledger Edge}
        → Entered (not b) op (length s.states) (view s) m l
        → s.poisoned ≡ b
        → length after.states ≡ m
        → view after ≡ l
        → IsSound capacity after
        → after.poisoned ≡ s.poisoned
        → IsEntered op s after
    entered {op} s after {b} {m} {l} e lock size same sound kept = (
      subst (λ c. Entered (not c) op (length s.states) (view s) (length after.states) (view after))
          (sym lock)
          (subst (λ k. Entered (not b) op (length s.states) (view s) k (view after)) (sym size)
            (subst (Entered (not b) op (length s.states) (view s) m) (sym same) e)),
      sound,
      kept,
    )

    pub reserve-IsEntered :
        (max_bytes : ℕ) (keys granted : List RelayPublishReceiptKey) (s after : Store Edge)
        → capacity < u64_max
        → reserve_receipts max_bytes capacity (allocate_all keys s).1 (allocate_all keys s).0
          ≡ ok (after, granted)
        → IsSound capacity s
        → IsEntered (reserve (allocate_all keys s).1) s after
    unfolding IsFresh IsAllocated
    reserve-IsEntered max_bytes keys granted s after small e sound =
        let a = allocate_all keys s in
        let made = allocated_view keys s sound.0 in
        let allocated = allocate_all-IsAllocated keys s in
        let fresh = allocated.1 in
        let found = reserve_receipts-eq-ok max_bytes capacity a.1 a.0 after granted small e in
        let known = reserved max_bytes capacity keys granted s after small e sound.0 in
        let lock : s.poisoned ≡ false = sym (ap (λ t. t.poisoned) allocated.0.1) ∙ found.3 in
        let old : All (λ e. e.1 < length a.0.states) a.0.receipts =
          rw made.1 (raised s.receipts made.2 sound.0) in
        entered s after (begun a.1 (allocate_all-Ordered keys s) known.1) lock
          (ap (λ t. length t.states) found.2) known.0
          (rw found.2 (
            All-insert_all _ a.1 a.0.receipts (All-map _ (λ e f. f.1) a.1 fresh) old,
            omega (arith, found.0, length-insert_all-le a.1 a.0.receipts),
          ))
          (known.2 ∙ sym lock)

    pub refuse-IsEntered :
        (keys : List RelayPublishReceiptKey) (s : Store Edge)
        → IsSound capacity s
        → IsEntered refuse s (allocate_all keys s).0
    unfolding IsAllocated
    refuse-IsEntered keys s sound =
        let made = allocated_view keys s sound.0 in
        entered s (allocate_all keys s).0 (declined made.2) refl refl made.0
          (rw made.1 (raised s.receipts made.2 sound.0, sound.1))
          (ap (λ t. t.poisoned) (allocate_all-IsAllocated keys s).0.1)

    pub remove-IsEntered :
        (keys : List RelayPublishReceiptKey) (s : Store Edge)
        → IsSound capacity s
        → IsEntered (cancel keys) s (remove_receipts keys s)
    unfolding remove_receipts
    remove-IsEntered keys s sound =
        let left = All-remove_all _ keys s.receipts sound.0 in
        on_test (IsEntered (cancel keys) s) s.poisoned
          (λ lock. entered s s (retained keys) lock refl refl sound refl)
          (λ lock.
            entered s (record s { receipts = remove_all keys s.receipts }) (forgotten keys) lock
              refl (remove_all-view keys s) (left.0, omega (arith, left.1, sound.1)) refl)

    abbrev TakesAs :
        RelayPublishReceiptKey → Store Edge → Store Edge × Option (RelayPublishResult Edge) → Type 0
    TakesAs key s r = IsEntered (hand_out key r.1) s r.0

    take-IsEntered :
        (key : RelayPublishReceiptKey) (s : Store Edge)
        → IsSound capacity s
        → TakesAs key s (take_result key s)
    unfolding take_result result_at
    take-IsEntered key s sound =
        on_test (TakesAs key s) s.poisoned
          (λ lock. entered s s (denied key) lock refl refl sound refl)
          (λ lock. elim (Option-cases (get key_dec s.receipts key)) [
            | inl absent ↦
                let shown : view s key ≡ none = ap (entry s.states) absent in
                rw absent (
                  entered s s (withheld key (λ t r known. absent_result shown known)) lock refl refl
                    sound refl)
            | inr found ↦ rw found.1 (elim (Option-cases (result_at found.0 s)) [
              | inl pending ↦
                  let shown : view s key ≡ some (found.0, none) =
                    ap (entry s.states) found.1 ∙ ap (λ o. some (found.0, o)) pending in
                  rw pending (
                    entered s s (withheld key (λ t r known. pending_result shown known)) lock refl
                      refl sound refl)
              | inr done ↦
                  let shown : view s key ≡ some (found.0, some done.0) =
                    ap (entry s.states) found.1 ∙ ap (λ o. some (found.0, o)) done.1 in
                  rw done.1 (
                    entered s (record s { receipts = remove key_dec s.receipts key })
                      (handed_out key found.0 done.0 shown) lock refl (forget-view s key)
                      (
                        All-remove _ s.receipts key sound.0,
                        omega (arith, length-remove-le key_dec s.receipts key, sound.1),
                      )
                      refl)
            ])
          ])

    -- Every call on the store does to the ledger what its operation says, and leaves a sound store.
    pub Call-Entered :
        {max_bytes : ℕ} {op : Operation Edge} {s after : Store Edge}
        → capacity < u64_max
        → Call max_bytes capacity op s after
        → IsSound capacity s
        → IsEntered op s after
    unfolding set_result count_queue_drop
    Call-Entered {max_bytes = max_bytes} {s = s} {after = after} small (reserving keys granted e)
          sound =
        reserve-IsEntered max_bytes keys granted s after small e sound
    Call-Entered {s = s} small (refused keys e h) sound = refuse-IsEntered keys s sound
    Call-Entered {s = s} small (publishing place r) sound =
        entered s (set_result place r s) (finished place r) refl
          (length-update (set_once r) place s.states) (publish-view s place r sound.0)
          (rw (length-update (set_once r) place s.states) sound.0, sound.1) refl
    Call-Entered {s = s} small (counting place) sound =
        let size =
          length-update
            (λ state. record state {
              ingress_queue_drops_total = wrapping_add state.ingress_queue_drops_total 1;
            })
            place s.states in
        entered s (count_queue_drop place s) (counted place) refl size
          (reread-view s _
            (always (λ e. drop-result place e.1 s.states (λ n. wrapping_add n 1)) s.receipts))
          (rw size sound) refl
    Call-Entered {s = s} small (cancelling keys) sound = remove-IsEntered keys s sound
    Call-Entered {s = s} small (taking key) sound = take-IsEntered key s sound

    -- Start from a sound store, with a capacity less than the largest `usize`. Any number of calls of the
    -- factory and of its workers does to the ledger of receipts, call by call, what each call's operation
    -- says. A reservation begins all its routes, none of which was known, with tickets never used
    -- before, or refuses and changes nothing. A published result goes to the key of its ticket, unless
    -- one stands there. A cancellation forgets its keys alone. A result is handed out exactly if its key
    -- has one, and the key is forgotten with it; a poisoned registry forgets and hands out nothing. The
    -- registry keeps its capacity throughout.
    pub Calls-Entries :
        {max_bytes : ℕ} {ops : List (Operation Edge)} {s after : Store Edge}
        → capacity < u64_max
        → Calls max_bytes capacity ops s after
        → IsSound capacity s
        → Entries (not s.poisoned) ops (length s.states) (view s) (length after.states) (view after)
          × IsSound capacity after
    Calls-Entries small none_left sound = (no_entry, sound)
    Calls-Entries {ops = op ∷ ops} {s = s} {after = after} small
          (call_then {middle = middle} call calls) sound =
        let first = Call-Entered small call sound in
        let rest = Calls-Entries small calls first.1 in
        (
          entry_then first.0 (
              subst
                (λ b.
                  Entries (not b) ops (length middle.states) (view middle) (length after.states)
                    (view after))
                first.2 rest.0),
          rest.1,
        )
