-- ===== src/Runtime/Receipts/Ledger.antt =====
-- What the registry of receipts promises (runtime.rs): a ledger that maps a key to the ticket of its
-- preparation and to the result, once there is one. It forgets the heap, the order of the entries and
-- whatever no key leads to.
use connectors.Base.{
  ℕ, suc, Bool, true, false, ◌≢◌, ◌≡◌, ◌<◌, ◌≤◌, Option, none, some, List, [], ◌∷◌, length, All,
  get_elem?, get, ok, err,
}
use native.Mathlib.Decide.{ℕ_discrete}
use connectors.Runtime.Errors.{ConnectorError}
use connectors.Runtime.Receipts.{
  RelayPublishReceiptKey, RelayPublishReceiptState, RelayPublishResult, Store, Route, key_dec,
  allocate_all, result_of, set_result, count_queue_drop, take_result, remove_receipts,
  reserve_receipts,
}

-- A key's ticket, and its result.
abbrev pub Ledger : Type 0 → Type 0
Ledger Edge = RelayPublishReceiptKey → Option (ℕ × Option (RelayPublishResult Edge))

-- The calls, each with what decides its effect: the routes that were granted, the ticket and result
-- that were published, the keys, and the answer to the one who asked for a result.
pub data Operation (Edge : Type 0) : Type 0 where
  reserve : List Route → Operation Edge
  refuse : Operation Edge
  publish : ℕ → RelayPublishResult Edge → Operation Edge
  count_drop : ℕ → Operation Edge
  cancel : List RelayPublishReceiptKey → Operation Edge
  hand_out : RelayPublishReceiptKey → Option (RelayPublishResult Edge) → Operation Edge

-- Tickets from `n` on in growing order, all of them less than `m`.
abbrev pub Ordered : ℕ → List Route → ℕ → Type 0
Ordered n [] m = n ≤ m
Ordered n (route ∷ routes) m = (n ≤ route.1) × Ordered (suc route.1) routes m

module _ {Edge : Type 0} where
  abbrev pub begin : List Route → Ledger Edge → Ledger Edge
  begin [] l = l
  begin ((key, ticket) ∷ routes) l =
      begin routes (λ k. elim (key_dec k key) [ yes p ↦ some (ticket, none) | no p ↦ l k ])

  abbrev pub keep_first :
      RelayPublishResult Edge → Option (RelayPublishResult Edge) → Option (RelayPublishResult Edge)
  keep_first r none = some r
  keep_first r (some old) = some old

  abbrev pub completed :
      ℕ
      → RelayPublishResult Edge
      → Option (ℕ × Option (RelayPublishResult Edge))
      → Option (ℕ × Option (RelayPublishResult Edge))
  completed ticket r none = none
  completed ticket r (some (t, o)) =
      some (t, elim (ℕ_discrete t ticket) [ yes p ↦ keep_first r o | no p ↦ o ])

  abbrev pub complete : ℕ → RelayPublishResult Edge → Ledger Edge → Ledger Edge
  complete ticket r l k = completed ticket r (l k)

  abbrev pub forget : RelayPublishReceiptKey → Ledger Edge → Ledger Edge
  forget key l k = elim (key_dec k key) [ yes p ↦ none | no p ↦ l k ]

  abbrev pub forget_all : List RelayPublishReceiptKey → Ledger Edge → Ledger Edge
  forget_all [] l = l
  forget_all (key ∷ keys) l = forget_all keys (forget key l)

  -- What a call does to a ledger whose tickets so far are those less than `n`: afterwards the ledger is
  -- the second one, and the tickets are those less than `m`. The first index says whether the registry
  -- is available.
  pub data Entered : Bool → Operation Edge → ℕ → Ledger Edge → ℕ → Ledger Edge → Type 0 where
    -- A group of routes begins, none of which was known, with tickets that were never used.
    begun :
        {l : Ledger Edge} {n m : ℕ} (routes : List Route)
        → Ordered n routes m
        → All (λ route. l route.0 ≡ none) routes
        → Entered true (reserve routes) n l m (begin routes l)
    declined :
        {available : Bool} {l : Ledger Edge} {n m : ℕ} → n ≤ m → Entered available refuse n l m l
    -- The key of the ticket gets the result, if it has none.
    finished :
        {available : Bool} {l : Ledger Edge} {n : ℕ} (ticket : ℕ) (r : RelayPublishResult Edge)
        → Entered available (publish ticket r) n l n (complete ticket r l)
    counted :
        {available : Bool} {l : Ledger Edge} {n : ℕ} (ticket : ℕ)
        → Entered available (count_drop ticket) n l n l
    forgotten :
        {l : Ledger Edge} {n : ℕ} (keys : List RelayPublishReceiptKey)
        → Entered true (cancel keys) n l n (forget_all keys l)
    retained :
        {l : Ledger Edge} {n : ℕ} (keys : List RelayPublishReceiptKey)
        → Entered false (cancel keys) n l n l
    -- A result is handed out, and with it the key is forgotten.
    handed_out :
        {l : Ledger Edge} {n : ℕ} (key : RelayPublishReceiptKey) (ticket : ℕ)
        (r : RelayPublishResult Edge)
        → l key ≡ some (ticket, some r)
        → Entered true (hand_out key (some r)) n l n (forget key l)
    -- None is handed out, since the key has none.
    withheld :
        {l : Ledger Edge} {n : ℕ} (key : RelayPublishReceiptKey)
        → ((ticket : ℕ) (r : RelayPublishResult Edge) → l key ≢ some (ticket, some r))
        → Entered true (hand_out key none) n l n l
    denied :
        {l : Ledger Edge} {n : ℕ} (key : RelayPublishReceiptKey)
        → Entered false (hand_out key none) n l n l

  abbrev pub entry :
      List (RelayPublishReceiptState Edge)
      → Option ℕ
      → Option (ℕ × Option (RelayPublishResult Edge))
  entry states none = none
  entry states (some place) = some (place, result_of (get_elem? states place))

  -- The ledger that a store implements.
  abbrev pub view : Store Edge → Ledger Edge
  view s k = entry s.states (get key_dec s.receipts k)

  -- Every registered place is one of the heap, and the registry keeps its capacity.
  abbrev pub IsSound : ℕ → Store Edge → Type 0
  IsSound capacity s = All (λ e. e.1 < length s.states) s.receipts × (length s.receipts ≤ capacity)

  -- The calls of the factory and of the workers on the store, in any order.
  pub data Call (max_bytes capacity : ℕ) : Operation Edge → Store Edge → Store Edge → Type 0 where
    reserving :
        {s after : Store Edge} (keys granted : List RelayPublishReceiptKey)
        → (let allocated = allocate_all keys s in
            reserve_receipts max_bytes capacity allocated.1 allocated.0)
          ≡ ok (after, granted)
        → Call max_bytes capacity (reserve (allocate_all keys s).1) s after
    refused :
        {s : Store Edge} (keys : List RelayPublishReceiptKey) (e : ConnectorError)
        → (let allocated = allocate_all keys s in
            reserve_receipts max_bytes capacity allocated.1 allocated.0)
          ≡ err e
        → Call max_bytes capacity refuse s (allocate_all keys s).0
    publishing :
        {s : Store Edge} (place : ℕ) (r : RelayPublishResult Edge)
        → Call max_bytes capacity (publish place r) s (set_result place r s)
    counting :
        {s : Store Edge} (place : ℕ)
        → Call max_bytes capacity (count_drop place) s (count_queue_drop place s)
    cancelling :
        {s : Store Edge} (keys : List RelayPublishReceiptKey)
        → Call max_bytes capacity (cancel keys) s (remove_receipts keys s)
    taking :
        {s : Store Edge} (key : RelayPublishReceiptKey)
        → Call max_bytes capacity (hand_out key (take_result key s).1) s (take_result key s).0

  pub data Calls (max_bytes capacity : ℕ)
      : List (Operation Edge) → Store Edge → Store Edge → Type 0 where
    none_left : {s : Store Edge} → Calls max_bytes capacity [] s s
    call_then :
        {op : Operation Edge} {ops : List (Operation Edge)} {s middle after : Store Edge}
        → Call max_bytes capacity op s middle
        → Calls max_bytes capacity ops middle after
        → Calls max_bytes capacity (op ∷ ops) s after

  pub data Entries (available : Bool)
      : List (Operation Edge) → ℕ → Ledger Edge → ℕ → Ledger Edge → Type 0 where
    no_entry : {n : ℕ} {l : Ledger Edge} → Entries available [] n l n l
    entry_then :
        {op : Operation Edge} {ops : List (Operation Edge)} {n k m : ℕ}
        {l middle after : Ledger Edge}
        → Entered available op n l k middle
        → Entries available ops k middle m after
        → Entries available (op ∷ ops) n l m after
