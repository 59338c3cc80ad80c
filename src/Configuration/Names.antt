-- ===== src/Configuration/Names.antt =====
-- Which STUN URLs and which bus names are accepted (`stun_authority` of configuration.rs,
-- `validate_bus` of frame_publisher.rs), independently of the code's tests.
use connectors.Base.{
  ℕ, ◌≤◌, ◌<◌, ◌≡◌, ◌≢◌, refl, sym, ap, ◌∙◌, ◌↔◌, ◌⊎◌, inl, inr, true, false, List, [], ◌∷◌, ◌++◌,
  arith, Text, text_eq_iff, codes, byte_len, trim, is_empty, is_some, strip_prefix,
  strip_prefix-append, any, all, All, Option-cases, ltb,
}
use connectors.Configuration.IceServers.{
  is_forbidden, check_authority, strip_slashes, stun_authority,
}
use connectors.Configuration.Validation.{is_bus_character, is_valid_bus}

-- Letters, digits, points, lines and dashes.
abbrev pub IsBusCharacter : ℕ → Type 0
IsBusCharacter c =
    ((b'0' ≤ c) × (c ≤ b'9'))
    ⊎ (((b'A' ≤ c) × (c ≤ b'Z'))
        ⊎ (((b'a' ≤ c) × (c ≤ b'z')) ⊎ ((c ≡ b'.') ⊎ ((c ≡ b'_') ⊎ (c ≡ b'-')))))

is_bus_character_iff : (c : ℕ) → (is_bus_character c ≡ true) ↔ IsBusCharacter c
is_bus_character_iff c = ground arith

all_bus_iff : (t : Text) → (all is_bus_character t ≡ true) ↔ All IsBusCharacter t
all_bus_iff [] = (λ h. tt, λ h. refl)
all_bus_iff (c ∷ t) =
    let first = is_bus_character_iff c in
    let rest = all_bus_iff t in
    (
      λ h. (first.0 (ground (arith, h)), rest.0 (ground (arith, h))),
      λ h. let a = first.1 h.0 in let b = rest.1 h.1 in rw a (rw b refl),
    )

byte_len_pos : (t : Text) → (is_empty t ≡ false) ↔ (0 < byte_len t)
unfolding byte_len
byte_len_pos [] = (λ h. cc, λ h. absurd (omega arith))
byte_len_pos (c ∷ t) = ground arith

-- A bus name: 1 to 64 bytes, all of them bus characters.
abbrev pub IsBus : Text → Type 0
IsBus bus = (0 < byte_len bus) × (byte_len bus ≤ 64) × All IsBusCharacter bus

pub is_valid_bus_iff : (bus : Text) → (is_valid_bus bus ≡ true) ↔ IsBus bus
unfolding is_valid_bus
is_valid_bus_iff bus = (
  λ h. (
    (byte_len_pos bus).0 (ground (arith, h)),
    ground (arith, h),
    (all_bus_iff bus).0 (ground (arith, h)),
  ),
  λ h.
      let a = (byte_len_pos bus).1 h.0 in
      let b : ltb 64 (byte_len bus) ≡ false = ground (arith, h.1) in
      let c = (all_bus_iff bus).1 h.2 in rw a (rw b (rw c refl)),
)

-- No `/`, `?`, `#` or `@`.
abbrev pub IsAllowed : ℕ → Type 0
IsAllowed c = (c ≢ b'/') × (c ≢ b'?') × (c ≢ b'#') × (c ≢ b'@')

is_forbidden_iff : (c : ℕ) → (is_forbidden c ≡ false) ↔ IsAllowed c
is_forbidden_iff c = ground arith

any_forbidden_iff : (t : Text) → (any is_forbidden t ≡ false) ↔ All IsAllowed t
any_forbidden_iff [] = (λ h. tt, λ h. refl)
any_forbidden_iff (c ∷ t) =
    let first = is_forbidden_iff c in
    let rest = any_forbidden_iff t in
    (
      λ h. (first.0 (ground (arith, h)), rest.0 (ground (arith, h))),
      λ h. let a = first.1 h.0 in let b = rest.1 h.1 in rw a (rw b refl),
    )

-- An authority: not empty, of allowed characters, without white space at either end.
abbrev pub IsAuthority : Text → Type 0
IsAuthority authority = (authority ≢ []) × All IsAllowed authority × (trim authority ≡ authority)

nonempty_iff {ℓ} : {A : Type ℓ} (xs : List A) → (is_empty xs ≡ false) ↔ (xs ≢ [])
nonempty_iff [] = (λ h. cc, λ h. absurd (h refl))
nonempty_iff (x ∷ xs) = (λ h e. cc, λ h. refl)

check_authority_iff :
    (authority : Text) → (is_some (check_authority authority) ≡ true) ↔ IsAuthority authority
unfolding check_authority
check_authority_iff authority = (
  λ h. (
    (nonempty_iff authority).0 (ground (arith, h)),
    (any_forbidden_iff authority).0 (ground (arith, h)),
    (text_eq_iff (trim authority) authority).0 (ground (arith, h)),
  ),
  λ h.
      let a = (nonempty_iff authority).1 h.0 in
      let b = (any_forbidden_iff authority).1 h.1 in
      let c = (text_eq_iff (trim authority) authority).1 h.2 in rw a (rw b (rw c refl)),
)

-- `stun:` or `stun://`, then an authority.
abbrev pub IsStunUrl : Text → Type 0
IsStunUrl raw =
    (authority : Text) × ((raw ≡ codes "stun:" ++ authority) ⊎ (raw ≡ codes "stun://" ++ authority))
    × IsAuthority authority

strip_slashes-authority :
    (authority : Text) → IsAuthority authority → strip_slashes authority ≡ authority
unfolding strip_slashes strip_prefix
strip_slashes-authority [] h = refl
strip_slashes-authority (c ∷ t) h = ground (arith, h.1.0.0)

strip_slashes-cases :
    (rest : Text) → (strip_slashes rest ≡ rest) ⊎ (rest ≡ codes "//" ++ strip_slashes rest)
unfolding strip_slashes strip_prefix
strip_slashes-cases rest = elim (Option-cases (strip_prefix (codes "//") rest)) [
  | inl e ↦ inl (rw e refl)
  | inr (r, e) ↦ inr (rw e (strip_prefix-append (codes "//") rest r e))
]

stun_authority-IsStunUrl : (raw : Text) → is_some (stun_authority raw) ≡ true → IsStunUrl raw
unfolding stun_authority
stun_authority-IsStunUrl raw h = elim (Option-cases (strip_prefix (codes "stun:") raw)) [
  | inl e ↦ absurd (ground (arith, h, e))
  | inr (rest, e) ↦
      let made = strip_prefix-append (codes "stun:") raw rest e in
      let good : is_some (check_authority (strip_slashes rest)) ≡ true = ground (arith, h, e) in
      (
        strip_slashes rest,
        elim (strip_slashes-cases rest) [
          | inl same ↦ inl (made ∙ ap (λ t. codes "stun:" ++ t) (sym same))
          | inr cut ↦ inr (made ∙ ap (λ t. codes "stun:" ++ t) cut)
        ],
        (check_authority_iff (strip_slashes rest)).0 good,
      )
]

IsStunUrl-stun_authority : (raw : Text) → IsStunUrl raw → is_some (stun_authority raw) ≡ true
unfolding stun_authority strip_prefix strip_slashes
IsStunUrl-stun_authority raw (authority, inl e, good) =
    rw e (rw (strip_slashes-authority authority good) ((check_authority_iff authority).1 good))
IsStunUrl-stun_authority raw (authority, inr e, good) =
    rw e ((check_authority_iff authority).1 good)

pub stun_authority_iff : (raw : Text) → (is_some (stun_authority raw) ≡ true) ↔ IsStunUrl raw
stun_authority_iff raw = (stun_authority-IsStunUrl raw, IsStunUrl-stun_authority raw)
