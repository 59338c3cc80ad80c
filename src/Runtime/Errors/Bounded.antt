-- ===== src/Runtime/Errors/Bounded.antt =====
-- What is left of an error's message (`relay_error` of runtime.rs).
use connectors.Base.{
  ℕ, zero, suc, ◌+◌, ◌-◌, ◌≤◌, ◌<◌, ◌≡◌, refl, sym, ap, ◌∙◌, ◌⊎◌, inl, inr, arith, true, false, [],
  ◌∷◌, ◌++◌, append-nil, leb, ltb, Bool-cases, Text, byte_len, utf8_width, is_char_boundary,
  prefix_within, truncate, ◌≢◌, some, is_empty,
}
use connectors.Runtime.Errors.{
  ConnectorErrorStage, ConnectorRetryability, RelayErrorCode, last_boundary, bounded, relay_error,
}

utf8_width-le : (c : ℕ) → (0 < utf8_width c) × (utf8_width c ≤ 4)
unfolding utf8_width
utf8_width-le c = ground arith

is_char_boundary-zero : (t : Text) → is_char_boundary t 0 ≡ true
unfolding is_char_boundary
is_char_boundary-zero [] = refl
is_char_boundary-zero (c ∷ t) = refl

last_boundary-is_char_boundary :
    (t : Text) (i : ℕ) → (is_char_boundary t (last_boundary t i) ≡ true) × (last_boundary t i ≤ i)
unfolding last_boundary
last_boundary-is_char_boundary t zero = (is_char_boundary-zero t, omega arith)
last_boundary-is_char_boundary t (suc i) =
    let before = last_boundary-is_char_boundary t i in
    elim (Bool-cases (is_char_boundary t (suc i))) [
      | inl h ↦ rw h (h, omega arith)
      | inr h ↦ rw h (before.0, omega (arith, before.1))
    ]

-- A cut that does not fall on a boundary cuts where the byte before does.
prefix_within-step :
    (t : Text) (i : ℕ)
    → is_char_boundary t (suc i) ≡ false
    → prefix_within t (suc i) ≡ prefix_within t i
unfolding prefix_within is_char_boundary
prefix_within-step [] i h = refl
prefix_within-step (c ∷ t) i h = elim (Bool-cases (leb (utf8_width c) i)) [
  | inl fits ↦
      let after : suc i - utf8_width c ≡ suc (i - utf8_width c) = ground (arith, fits) in
      let fits' : leb (utf8_width c) (suc i) ≡ true = ground (arith, fits) in
      let inside : is_char_boundary t (suc (i - utf8_width c)) ≡ false =
        ground (arith, fits, fits', after, h) in
      rw fits (rw fits' (rw after (ap (◌∷◌ c) (prefix_within-step t (i - utf8_width c) inside))))
  | inr beyond ↦ ground (arith, is_char_boundary-zero t)
]

prefix_within-last_boundary :
    (t : Text) (i : ℕ) → prefix_within t (last_boundary t i) ≡ prefix_within t i
unfolding last_boundary
prefix_within-last_boundary t zero = refl
prefix_within-last_boundary t (suc i) = elim (Bool-cases (is_char_boundary t (suc i))) [
  | inl h ↦ rw h refl
  | inr h ↦ rw h (prefix_within-last_boundary t i ∙ sym (prefix_within-step t i h))
]

-- What a cut leaves: a prefix, of at most the bytes asked for, and less than a character below them.
abbrev pub IsCut : ℕ → Text → Text → Type 0
IsCut i t cut =
    (byte_len cut ≤ i) × ((rest : Text) × (t ≡ cut ++ rest)) × ((cut ≡ t) ⊎ (i < byte_len cut + 4))

prefix_within-IsCut : (t : Text) (i : ℕ) → IsCut i t (prefix_within t i)
unfolding prefix_within byte_len
prefix_within-IsCut [] i = (omega arith, ([], refl), inl refl)
prefix_within-IsCut (c ∷ t) i = elim (Bool-cases (leb (utf8_width c) i)) [
  | inl fits ↦
      let rest = prefix_within-IsCut t (i - utf8_width c) in
      let cut = rest.1 in
      let split : c ∷ t ≡ (c ∷ prefix_within t (i - utf8_width c)) ++ cut.0 = ap (◌∷◌ c) cut.1 in
      rw fits (ground (arith, fits, rest), (cut.0, split), ground (arith, fits, rest))
  | inr beyond ↦ rw beyond (omega arith, (c ∷ t, refl), ground (arith, beyond, utf8_width-le c))
]

-- A cut of a text that is not empty, to four bytes or more, is not empty either.
IsCut-nonempty : (i : ℕ) (t cut : Text) → 4 ≤ i → t ≢ [] → IsCut i t cut → is_empty cut ≡ false
unfolding byte_len
IsCut-nonempty i t [] wide h (_, _, inl same) = absurd (h (sym same))
IsCut-nonempty i t [] wide h (_, _, inr close) = absurd (omega (arith, close, wide))
IsCut-nonempty i t (c ∷ cut) wide h cuts = refl

bounded-IsCut :
    (max_bytes : ℕ) (text : Text)
    → (message : Text) × (bounded max_bytes text ≡ some message) × IsCut max_bytes text message
unfolding bounded truncate
bounded-IsCut max_bytes text = elim (Bool-cases (ltb max_bytes (byte_len text))) [
  | inl long ↦
      let last = last_boundary-is_char_boundary text max_bytes in
      let inside : ltb (byte_len text) (last_boundary text max_bytes) ≡ false =
        ground (arith, long, last.1) in
      rw long (
        rw inside (
          rw last.0 (
            prefix_within text (last_boundary text max_bytes),
            refl,
            rw (prefix_within-last_boundary text max_bytes) (prefix_within-IsCut text max_bytes),
          )))
  | inr short ↦
      rw short (text, refl, (ground (arith, short), ([], sym (append-nil text)), inl refl))
]

relay_error-bounded :
    (max_bytes : ℕ) (code : RelayErrorCode) (stage : ConnectorErrorStage)
    (retryability : ConnectorRetryability) (text message : Text)
    → bounded max_bytes text ≡ some message
    → is_empty message ≡ false
    → ltb max_bytes (byte_len message) ≡ false
    → relay_error max_bytes code stage retryability text
      ≡ some (record { code = code; stage = stage; retryability = retryability; message = message })
unfolding relay_error
relay_error-bounded max_bytes code stage retryability text message same full fits =
    rw (relay_error, same, full, fits) refl

-- From a text that is not empty and with a limit of at least four bytes, `relay_error` does not panic.
-- Its error has the code, stage and retryability given, and its message is a prefix of the text, has at
-- most `max_bytes` bytes, and is the whole text or ends less than one character (four bytes) below
-- the limit.
pub relay_error-IsCut :
    (max_bytes : ℕ) (code : RelayErrorCode) (stage : ConnectorErrorStage)
    (retryability : ConnectorRetryability) (text : Text)
    → 4 ≤ max_bytes
    → text ≢ []
    → (message : Text) × (relay_error max_bytes code stage retryability text
        ≡ some
            (record { code = code; stage = stage; retryability = retryability; message = message }))
      × IsCut max_bytes text message
relay_error-IsCut max_bytes code stage retryability text wide h =
    let (message, same, cut) = bounded-IsCut max_bytes text in
    let full = IsCut-nonempty max_bytes text message wide h cut in
    let fits : ltb max_bytes (byte_len message) ≡ false = ground (arith, cut.0) in
    (
      message,
      relay_error-bounded max_bytes code stage retryability text message same full fits,
      cut,
    )
