-- ===== src/Source/Reservations/Declared.antt =====
-- What a declaration leaves in the reservations (source.rs).
use connectors.Base.{
  [], ◌∷◌, ◌==◌, not, ok_inj, map_err, check_iff, ◌>>◌, insert, ℕ, ◌≡◌, refl, sym, ap, ◌∙◌, ◌⊎◌,
  inl, inr, false, Option, none, some, ◌++◌, length, Text, Result, ok, err, on_cases, subst,
  on_test, on_false, get, remove, get-insert, get-insert_ne, get-remove, get-remove_ne, is_some,
  fail_if,
}
use native.Mathlib.Decide.{ℕ_discrete}
use connectors.Source.Configuration.{
  RelayAudioBusSourceConfig, Sourced, reservation_conflict, validate, session, wrong_session,
}
use connectors.Source.Reservations.{
  new_observations, PendingSource, Sources, SourceHandle, bind, cancel, finish_declare, declare,
}

abbrev pub reserved_at : ℕ → Sources → Option PendingSource
reserved_at k s = get ℕ_discrete s.pending k

remove-insert :
    (s : Sources) (id k : ℕ) (p : PendingSource)
    → reserved_at id s ≡ none
    → get ℕ_discrete (remove ℕ_discrete (insert ℕ_discrete s.pending id p) id) k ≡ reserved_at k s
remove-insert s id k p h = elim (ℕ_discrete k id) [
  | yes q ↦ rw q (get-remove ℕ_discrete (insert ℕ_discrete s.pending id p) id ∙ sym h)
  | no q ↦
      get-remove_ne ℕ_discrete (insert ℕ_discrete s.pending id p) id k q
      ∙ get-insert_ne ℕ_discrete s.pending id k p q
]

-- What a declaration does to the reservations: nothing on an error; otherwise the source's own is new.
pub Declares : Sources → RelayAudioBusSourceConfig → Sources × Sourced SourceHandle → Type 0
Declares s config (after, err e) = (k : ℕ) → reserved_at k after ≡ reserved_at k s
Declares s config (after, ok handle) =
    (validate config ≡ ok tt)
    × (reserved_at handle.source s ≡ none)
    × (reserved_at handle.source after
        ≡ some (record { config = config; observations = handle.observations }))
    × ((k : ℕ) → (k ≡ handle.source) ⊎ (reserved_at k after ≡ reserved_at k s))

map_err-eq-ok :
    {A : Type 0} (answer : Result Text A) {a : A} → map_err answer session ≡ ok a → answer ≡ ok a
map_err-eq-ok (ok b) e = ap ok (ok_inj e)
map_err-eq-ok (err t) e = cc

bound-Declares :
    (s0 s : Sources) (config : RelayAudioBusSourceConfig) (id place : ℕ)
    (output : Result Text (Unit {0}))
    → s.pending ≡ s0.pending
    → reserved_at id s0 ≡ none
    → validate config ≡ ok tt
    → s.poisoned ≡ false
    → reserved_at id s ≡ none
    → Declares s0 config (
        finish_declare id place output (
          record s {
            pending =
                insert ℕ_discrete s.pending id (record { config = config; observations = place });
          },
          ok tt,
        ))
unfolding Declares finish_declare cancel
bound-Declares s0 s config id place (err message) same fresh valid free absent = λ k.
    let new : PendingSource = record { config = config; observations = place } in
    let bound : Sources = record s { pending = insert ℕ_discrete s.pending id new } in
    on_false (λ t. reserved_at k t ≡ reserved_at k s0) s.poisoned bound free
      (remove-insert s id k new absent ∙ ap (λ m. get ℕ_discrete m k) same)
bound-Declares s0 s config id place (ok port) same fresh valid free absent =
    let new : PendingSource = record { config = config; observations = place } in
    (
      valid,
      fresh,
      get-insert ℕ_discrete s.pending id new,
      λ k. elim (ℕ_discrete k id) [
        | yes p ↦ inl p
        | no p ↦
            inr (get-insert_ne ℕ_discrete s.pending id k new p ∙ ap (λ m. get ℕ_discrete m k) same)
      ],
    )

finish_declare-Declares :
    (s0 s : Sources) (config : RelayAudioBusSourceConfig) (id place : ℕ)
    (output : Result Text (Unit {0}))
    → s.pending ≡ s0.pending
    → reserved_at id s0 ≡ none
    → validate config ≡ ok tt
    → Declares s0 config (
        finish_declare id place output
          (bind id (record { config = config; observations = place }) s))
unfolding Declares finish_declare bind cancel
finish_declare-Declares s0 s config id place output same fresh valid =
    let new : PendingSource = record { config = config; observations = place } in
    let absent : get ℕ_discrete s.pending id ≡ none = ap (λ m. get ℕ_discrete m id) same ∙ fresh in
    on_test (λ b. Declares s0 config (finish_declare id place output b)) s.poisoned
      (λ locked k. ap (λ m. get ℕ_discrete m k) same)
      (λ free.
        subst
          (λ o. Declares s0 config (
            finish_declare id place output (
              record s { pending = insert ℕ_discrete s.pending id new },
              fail_if (is_some o) reservation_conflict,
            )))
          (sym absent) (bound-Declares s0 s config id place output same fresh valid free absent))

-- A declaration that fails, wherever it fails, leaves every reservation as it was. One that succeeds had
-- a valid configuration and adds exactly one reservation, of that configuration, under the source id
-- that Core has given; provided that Core gives an id that is not reserved.
pub declare-Declares :
    (session_id : ℕ) (config : RelayAudioBusSourceConfig) (source : Result Text ℕ)
    (output : Result Text (Unit {0})) (s : Sources)
    → ((id : ℕ) → source ≡ ok id → reserved_at id s ≡ none)
    → Declares s config (declare session_id config source output s)
unfolding Declares declare
declare-Declares session_id config source output s fresh =
    on_cases (Declares s config)
      (do
        fail_if (not (session_id == s.core_session_id)) wrong_session
        validate config
        map_err source session)
      (λ id e.
        let checked =
          (check_iff (fail_if (not (session_id == s.core_session_id)) wrong_session)
              (validate config >> map_err source session)).0
            e in
        let valid = (check_iff (validate config) (map_err source session)).0 checked.1 in
        finish_declare-Declares s
          (record s { observed = s.observed ++ new_observations config.source_generation ∷ [] })
          config id (length s.observed) output refl (fresh id (map_err-eq-ok source valid.1))
          valid.0)
      (λ e refused k. refl)
