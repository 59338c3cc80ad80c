-- ===== src/Gateway/Publishing/Fenced.antt =====
-- The publishing loop keeps its streams fenced and accounted for, and publication is paused unless
-- every stream was reattached.
use connectors.Base.{
  map, get_or, drop, subst, ◌<◌, All-update, ℕ, zero, suc, ◌+◌, ◌≡◌, refl, inl, inr, Bool, true,
  false, not, Option, none, some, List, [], ◌∷◌, length, all, ◌==◌, Result, ok, err, All, arith,
  if◌then◌else◌,
}
use connectors.Control.Handle.{PublisherCredential}
use connectors.Gateway.Failures.{IngressError}
use connectors.Gateway.Ingress.{
  World, Group, Run, Outcome, ActiveIngress, IngressConnection, return, attempt, ◌>>◌, value,
  failed, panicked, out_of_fuel, ◌>>=◌, get, throw, diverge,
}
use connectors.Gateway.Triple.{
  Triple, Keeps, Holds, chained, attempted_block, checked, found_at, on_result, on_option, modified,
  asked_then,
}
use connectors.Gateway.Sending.Keeps.{
  IsLocal, asked, returned, thrown, looked, branching, poll_stream-Keeps,
}
use connectors.Gateway.Recovery.{
  Reattachment, renewal, attached, attach_all, install, give_up, wait, detached, close_active,
  attempted,
}
use connectors.Gateway.Recovery.Keeps.{
  IsSound, IsSound-count, IsDetached, IsClosed, IsAdmitting, IsClosed-IsLocal, Above, Paired,
  weakened, forgotten, on_bool, cancel_until-Keeps, admit_group-Triple, close_active-Triple,
}
use connectors.Gateway.Publishing.{
  take_snapshot, conclude, attempt_once, attempt_all, reattach, check_recovery, Round, polled,
  reattached, stopped, recover, poll_all, publish_group, IngressStream, started, all_started,
  with_input_drops, initial, settle, run_with_recovery,
}

module _ {Secret Generation : Type 0} (world : World Secret Generation) where
  attached-IsSound :
      (renewed : Bool) (revision : ℕ) (cutoff : Option ℕ) (c : IngressConnection)
      (s : ActiveIngress)
      → IsSound s
      → c.source_generation ≡ s.highest_generation
      → IsSound (attached world renewed revision cutoff c s)
  unfolding attached
  attached-IsSound renewed revision cutoff c s v same =
      let x = v.accounted in
      let y = v.discontinuous in
      record {
        fenced = inr (c, refl, same, same);
        accounted = ground arith;
        discontinuous = ground arith;
      }

  attach_all-IsSound :
      (renewed : Bool) (revision t index : ℕ) (floors : List ℕ) (cs : List IngressConnection)
      (streams : List ActiveIngress)
      → All IsDetached streams
      → Paired floors cs streams
      → All IsSound (attach_all world renewed revision t index cs streams)
  unfolding attach_all
  attach_all-IsSound renewed revision t index floors cs [] h p = tt
  attach_all-IsSound renewed revision t index floors [] (s ∷ streams) h p =
      (h.0.0, only_sound streams h.1)
    where
      only_sound : (streams : List ActiveIngress) → All IsDetached streams → All IsSound streams
      only_sound [] h = tt
      only_sound (s ∷ streams) h = (h.0.0, only_sound streams h.1)
  attach_all-IsSound renewed revision t index floors (c ∷ cs) (s ∷ streams) h p = (
    attached-IsSound renewed revision _ c s h.0.0 p.0,
    attach_all-IsSound renewed revision t (suc index) (drop 1 floors) cs streams h.1 p.2,
  )

  -- Each of the first `n` streams has a connection, of a generation beyond the stream's floor; the
  -- others have seen one of at least their floor.
  abbrev pub Renewed : ℕ → List ℕ → List ActiveIngress → Type 0
  Renewed zero floors streams = Above floors streams
  Renewed (suc n) floors [] = Unit
  Renewed (suc n) floors (s ∷ streams) =
      ((c : IngressConnection) × (s.connection ≡ some c)
        × (c.source_generation ≡ s.highest_generation)
        × (get_or floors 0 0 < c.source_generation))
      × Renewed n (drop 1 floors) streams

  attach_all-Renewed :
      (renewed : Bool) (revision t index : ℕ) (floors : List ℕ) (cs : List IngressConnection)
      (streams : List ActiveIngress)
      → Above floors streams
      → Paired floors cs streams
      → Renewed (length cs) floors (attach_all world renewed revision t index cs streams)
  unfolding attach_all attached
  attach_all-Renewed renewed revision t index floors [] [] h p = tt
  attach_all-Renewed renewed revision t index floors (c ∷ cs) [] h p = tt
  attach_all-Renewed renewed revision t index floors [] (s ∷ streams) h p = h
  attach_all-Renewed renewed revision t index floors (c ∷ cs) (s ∷ streams) h p = (
    (c, refl, p.0, p.1),
    attach_all-Renewed renewed revision t (suc index) (drop 1 floors) cs streams h.1 p.2,
  )

  -- The streams are sound, and publication is paused or not.
  abbrev pub IsLive : Bool → Group Secret → Type 0
  IsLive paused g = All IsSound g.active × (g.paused ≡ paused)

  abbrev pub IsSoundGroup : Group Secret → Type 0
  IsSoundGroup g = All IsSound g.active

  module _ (floors : List ℕ) where
    -- Paused, and no stream below its floor.
    abbrev pub IsHalted : Group Secret → Type 0
    IsHalted g = IsLive true g × Above floors g.active

    -- Live again, and each stream of a configuration beyond its floor.
    abbrev pub IsRenewed : Group Secret → Type 0
    IsRenewed g = IsLive false g × Renewed (length world.configurations) floors g.active

    abbrev pub Answered : Bool → Group Secret → Type 0
    Answered true g = IsRenewed g
    Answered false g = IsHalted g

    sound_closed : (g : Group Secret) → (IsClosed floors) g → IsHalted g
    sound_closed g p = ((sounds g.active p.0.0, p.0.1), p.1)
      where
        sounds : (streams : List ActiveIngress) → All IsDetached streams → All IsSound streams
        sounds [] h = tt
        sounds (s ∷ streams) h = (h.0.0, sounds streams h.1)

    -- How an attempt ends.
    abbrev Attempted : Option Bool → Group Secret → Type 0
    Attempted none g = (IsClosed floors) g
    Attempted (some false) g = (IsClosed floors) g
    Attempted (some true) g = IsRenewed g

    here : IsLocal {Secret = Secret} (IsClosed floors)
    here = (IsClosed-IsLocal floors)

    install-Triple :
        (k : PublisherCredential Secret) (renewed : Bool)
        → Triple
            (IsAdmitting floors (length world.configurations))
            (install world k renewed)
            (λ u. IsRenewed)
            (IsClosed floors)
    unfolding install
    install-Triple k renewed =
        chained {Q = λ t. IsAdmitting floors (length world.configurations)}
          (asked_then (λ t. t) (λ g t p. p))
          (λ t. modified _ (λ g p. (
            (
              attach_all-IsSound renewed k.revision t 0 floors g.connections g.active p.0.0.0 p.1,
              refl,
            ),
            subst
                (λ n.
                  Renewed n floors (attach_all world renewed k.revision t 0 g.connections g.active))
                p.2
                (attach_all-Renewed renewed k.revision t 0 floors g.connections g.active p.0.1 p.1),
          )))

    give_up-Triple :
        (k : PublisherCredential Secret) (error : IngressError) (recovery_deadline fuel : ℕ)
        → Keeps (IsClosed floors) (give_up world k error recovery_deadline fuel)
    unfolding give_up
    give_up-Triple k error recovery_deadline fuel = chained (looked world here _) (λ connections.
        chained (modified _ (λ g p. p)) (λ u. chained (asked world here world.now) (λ now.
          chained (cancel_until-Keeps world here fuel connections _) (λ v.
            chained (asked world here _) (λ stopping.
              branching world here _ (returned world here _) (
                chained (asked world here _) (λ gone. chained (checked _ _) (λ w.
                  chained (checked _ _) (λ x. chained (asked world here _) (λ revision.
                    branching world here _ (returned world here _)
                      (chained (checked _ _) (λ y. returned world here _))))))))))))

    conclude-Triple :
        (fuel recovery_deadline : ℕ) (k old : PublisherCredential Secret) (reason : Reattachment)
        (r : Result IngressError (Unit {0}))
        → Triple
            (elim r [
              | ok u ↦ IsAdmitting floors (length world.configurations)
              | err e ↦ (IsClosed floors)
            ])
            (conclude world fuel recovery_deadline k old reason r)
            Attempted
            (IsClosed floors)
    unfolding conclude return
    conclude-Triple fuel recovery_deadline k old reason (ok u) =
        chained (install-Triple k _) (λ v. record { at = λ g p. p })
    conclude-Triple fuel recovery_deadline k old reason (err e) =
        chained (give_up-Triple k e recovery_deadline fuel) (λ stop. ended stop)
      where
        ended :
            (stop : Bool)
            → Triple
                (IsClosed floors)
                (return {Secret = Secret} (if stop then some false else none))
                Attempted
                (IsClosed floors)
        ended true = record { at = λ g p. p }
        ended false = record { at = λ g p. p }

    wait-Keeps : (fuel until : ℕ) → Keeps (IsClosed floors) (wait world fuel until)
    unfolding wait diverge
    wait-Keeps zero until = record { at = λ g p. p }
    wait-Keeps (suc fuel) until = chained (asked world here world.now) (λ now.
        branching world here _ (returned world here _) (
          chained (asked world here _) (λ stopping. branching world here _ (returned world here _) (
            chained (asked world here _)
              (λ gone. chained (checked _ _) (λ u. wait-Keeps fuel until))))))

    attempt_once-Triple :
        (fuel recovery_deadline : ℕ) (old : PublisherCredential Secret) (reason : Reattachment)
        → Triple
            (IsClosed floors)
            (attempt_once world fuel recovery_deadline old reason)
            Attempted
            (IsClosed floors)
    unfolding attempt_once return
    attempt_once-Triple fuel recovery_deadline old reason =
        chained (asked world here _) (λ stopping.
          either stopping (record { at = λ g p. p })
            (chained snapshots (λ k. chained (found_at _) (λ first.
              chained (asked world here _) (λ now. chained (asked world here _) (λ later.
                chained (asked world here _) (λ latest. chained (checked _ _) (λ u.
                  chained
                    (modified {Q = IsAdmitting floors 0} _ (λ g p. (
                      ((trying g.active p.0.0, p.0.1), trying_above floors g.active p.1),
                      tt,
                      refl,
                    )))
                    (λ v.
                      chained
                        (attempted_block
                          (λ r. elim r [
                            | ok a ↦ IsAdmitting floors (length world.configurations)
                            | err e ↦ (IsClosed floors)
                          ])
                          (λ a g p. p) (λ e g p. p)
                          (admitted
                            (admit_group-Triple world floors fuel k _ 0 world.configurations)))
                        (λ admission.
                          conclude-Triple fuel recovery_deadline k old reason admission))))))))))
      where
        either :
            {A : Type 0} {Q : A → Group Secret → Type 0} {m k : Run Secret A} (b : Bool)
            → Triple (IsClosed floors) m Q (IsClosed floors)
            → Triple (IsClosed floors) k Q (IsClosed floors)
            → Triple (IsClosed floors) (if b then m else k) Q (IsClosed floors)
        either true h k = h
        either false h k = k

        snapshots : Keeps (IsClosed floors) (take_snapshot world)
        snapshots =
            chained (asked world here _)
              (λ answer. on_result answer (λ k. returned world here k) (λ e. thrown world here _))

        admitted :
            {m : Run Secret (Unit {0})}
            → Triple
                (IsAdmitting floors 0)
                m
                (λ u. IsAdmitting floors (0 + length world.configurations))
                (IsClosed floors)
            → Triple
                (IsAdmitting floors 0)
                m
                (λ u. IsAdmitting floors (length world.configurations))
                (IsClosed floors)
        admitted t = forgotten (λ u g p. (p.0, p.1, omega (arith, p.2))) t

        trying_above :
            (ns : List ℕ) (streams : List ActiveIngress)
            → Above ns streams
            → Above ns (attempted world streams)
        trying_above ns [] p = tt
        trying_above ns (s ∷ streams) p = (p.0, trying_above (drop 1 ns) streams p.1)

        trying :
            (streams : List ActiveIngress)
            → All IsDetached streams
            → All IsDetached (attempted world streams)
        trying [] h = tt
        trying (s ∷ streams) h = (
          (
            record {
              fenced = h.0.0.fenced;
              accounted = h.0.0.accounted;
              discontinuous = h.0.0.discontinuous;
            },
            h.0.1,
          ),
          trying streams h.1,
        )

    attempt_all-Triple :
        (fuel left number recovery_deadline : ℕ) (old : PublisherCredential Secret)
        (reason : Reattachment)
        → Triple
            (IsClosed floors)
            (attempt_all world fuel left number recovery_deadline old reason)
            Answered
            IsHalted
    unfolding attempt_all return throw
    attempt_all-Triple fuel zero number recovery_deadline old reason = record {
      at = λ g p. sound_closed g p;
    }
    attempt_all-Triple fuel (suc left) number recovery_deadline old reason =
        chained (weakened sound_closed (asked world here _)) (λ now.
          chained (weakened sound_closed (wait-Keeps fuel _)) (λ waited.
            either (not waited) (record { at = λ g p. sound_closed g p })
              (chained
                (weakened sound_closed (attempt_once-Triple fuel recovery_deadline old reason))
                (λ ended.
                  next ended
                    (attempt_all-Triple fuel left (suc number) recovery_deadline old reason)))))
      where
        either :
            {A : Type 0} {Q : A → Group Secret → Type 0} {m k : Run Secret A} (b : Bool)
            → Triple (IsClosed floors) m Q IsHalted
            → Triple (IsClosed floors) k Q IsHalted
            → Triple (IsClosed floors) (if b then m else k) Q IsHalted
        either true h k = h
        either false h k = k

        next :
            (ended : Option Bool)
            → Triple
                (IsClosed floors)
                (attempt_all world fuel left (suc number) recovery_deadline old reason)
                Answered
                IsHalted
            → Triple
                (Attempted ended)
                (elim ended [
                  | some result ↦ return {Secret = Secret} result
                  | none ↦ attempt_all world fuel left (suc number) recovery_deadline old reason
                ])
                Answered
                IsHalted
        next none again = again
        next (some true) again = record { at = λ g p. p }
        next (some false) again = record { at = λ g p. sound_closed g p }

    -- Start from sound streams, each of which has seen a generation of at least its floor. `reattach` pauses
    -- publication. Only with the answer `true` is it no longer paused, and then the stream of every
    -- configuration has a connection of a generation greater than its floor, so that a generation seen
    -- before is never taken again. At any other end, an error included, publication is paused and no
    -- stream has gone below its floor. At every end the streams are sound: each has no connection, or one
    -- with the highest generation that it has seen, and its attachments are one more than its renewals
    -- and reconnections, and than its discontinuities, unless the total has saturated.
    pub reattach-Triple :
        (fuel : ℕ) (old : PublisherCredential Secret) (reason : Reattachment)
        → Triple
            (λ g. IsSoundGroup g × Above floors g.active)
            (reattach world fuel old reason)
            Answered
            IsHalted
    unfolding reattach
    reattach-Triple fuel old reason = chained (asked_then _ (λ g t p. p)) (λ now.
        chained {Q = λ u. IsHalted} (modified _ (λ g p. ((p.0, refl), p.1))) (λ u.
          chained (weakened sound_closed (close_active-Triple world floors fuel))
            (λ v. attempt_all-Triple fuel 3 0 _ old reason)))

  local : IsLocal {Secret = Secret} IsSoundGroup
  local = record {
    moment = λ g t p. p;
    written = λ g w p. p;
    counted = λ g i f h p. All-update IsSound f i g.active (λ s v. IsSound-count s (f s) (h s) v) p;
  }

  reattach-Keeps :
      (fuel : ℕ) (old : PublisherCredential Secret) (reason : Reattachment)
      → Keeps IsSoundGroup (reattach world fuel old reason)
  reattach-Keeps fuel old reason = record {
    at = λ g p.
        (weakened {S = IsSoundGroup} (λ h q. q.0.0)
            (forgotten (answered _) (reattach-Triple (map (λ s. 0) g.active) fuel old reason))).at
          g (p, low g.active);
  }
    where
      answered :
          (floors : List ℕ) (again : Bool) (h : Group Secret)
          → Answered floors again h
          → IsSoundGroup h
      answered floors true h p = p.0.0
      answered floors false h p = p.0.0

      low : (streams : List ActiveIngress) → Above (map (λ s. 0) streams) streams
      low [] = tt
      low (s ∷ streams) = (omega arith, low streams)

  check_recovery-Keeps : (fuel : ℕ) → Keeps IsSoundGroup (check_recovery world fuel)
  unfolding check_recovery
  check_recovery-Keeps fuel = chained (looked world local _) (λ recovery.
      on_option recovery (returned world local _) (λ k. chained (asked world local _) (λ gone.
        chained (checked _ _) (λ u. chained (asked world local _) (λ revision.
          chained
            (on_bool (revision == k.revision) (returned world local true)
              (reattach-Keeps fuel k renewal))
            (λ renewed. branching world local _ (returned world local _) (
              chained (looked world local _) (λ current.
                chained (asked world local world.now)
                  (λ now. chained (checked _ _) (λ v. returned world local _))))))))))

  recover-Keeps : (fuel : ℕ) (error : IngressError) → Keeps IsSoundGroup (recover world fuel error)
  unfolding recover
  recover-Keeps fuel error = chained (looked world local _) (λ recovery.
      on_option recovery (thrown world local _) (λ k. chained (asked world local _) (λ revision.
        chained (checked _ _)
          (λ u. chained (reattach-Keeps fuel k _) (λ again. returned world local _)))))

  poll_all-Keeps :
      (fuel left index : ℕ) (progress : Bool)
      → Keeps IsSoundGroup (poll_all world fuel left index progress)
  unfolding poll_all
  poll_all-Keeps fuel zero index progress = returned world local _
  poll_all-Keeps fuel (suc left) index progress =
      chained
        (attempted_block (λ r. IsSoundGroup) (λ a g p. p) (λ e g p. p)
          (poll_stream-Keeps world local fuel index))
        (λ result.
          on_result result (λ step. poll_all-Keeps fuel left (suc index) _)
            (λ e. recover-Keeps fuel e))

  -- However the publishing loop ends, or wherever it has come to, each stream has no connection, or
  -- one with the highest generation that it has seen, and its attachments are one more than its
  -- renewals and reconnections, and than its discontinuities, unless the total has saturated.
  pub publish_group-Keeps : (fuel rounds : ℕ) → Keeps IsSoundGroup (publish_group world fuel rounds)
  unfolding publish_group diverge
  publish_group-Keeps fuel zero = record { at = λ g p. p }
  publish_group-Keeps fuel (suc rounds) = chained (asked world local _) (λ aborted.
      branching world local _ (returned world local _) (
        chained (check_recovery-Keeps fuel) (λ goes_on.
          branching world local _ (returned world local _) (
            chained (looked world local _) (λ active.
              chained (poll_all-Keeps fuel _ 0 false)
                (λ round. on_round round (publish_group-Keeps fuel rounds)))))))
    where
      on_round :
          (round : Round)
          → Keeps IsSoundGroup (publish_group world fuel rounds)
          → Keeps IsSoundGroup (elim round [
            | stopped ↦ return {Secret = Secret} tt
            | reattached ↦ publish_group world fuel rounds
            | polled progress ↦ get {Secret = Secret} (λ g. g.active) >>= (λ after.
                if all (λ s. s.disconnected) after
                then return tt
                else publish_group world fuel rounds)
          ])
      on_round stopped h = returned world local tt
      on_round reattached h = h
      on_round (polled progress) h =
          chained (looked world local _)
            (λ after. branching world local _ (returned world local tt) h)

  started-IsSound :
      (revision : ℕ) (streams : List IngressStream) → All IsSound (all_started revision streams)
  unfolding started
  started-IsSound revision [] = tt
  started-IsSound revision (stream ∷ rest) = (
    record {
      fenced = inr (stream.connection, refl, refl, refl);
      accounted = inl (omega arith);
      discontinuous = inl (omega arith);
    },
    started-IsSound revision rest,
  )

  settle-Keeps :
      (fuel : ℕ) → Triple IsSoundGroup (settle world fuel) (λ u. IsSoundGroup) IsSoundGroup
  unfolding settle close_active
  settle-Keeps fuel = chained (looked world local _) (λ recovery.
      chained (asked world local _) (λ t. chained (modified _ (λ g p. settled recovery g t p)) (λ u.
        chained (looked world local _) (λ connections.
          chained (modified _ (λ g p. cut g.active p)) (λ v.
            chained (asked world local world.now)
              (λ now. cancel_until-Keeps world local fuel connections _))))))
    where
      drops :
          (t index : ℕ) (streams : List ActiveIngress)
          → All IsSound streams
          → All IsSound (with_input_drops world t index streams)
      drops t index [] h = tt
      drops t index (s ∷ rest) h = (
        record {
          fenced = h.0.fenced;
          accounted = h.0.accounted;
          discontinuous = h.0.discontinuous;
        },
        drops t (suc index) rest h.1,
      )

      settled :
          (recovery : Option (PublisherCredential Secret)) (g : Group Secret) (t : ℕ)
          → IsSoundGroup g
          → IsSoundGroup (elim recovery [
            | none ↦ g
            | some k ↦ record g { paused = true; active = with_input_drops world t 0 g.active }
          ])
      settled none g t p = p
      settled (some k) g t p = drops t 0 g.active p

      cut :
          (streams : List ActiveIngress)
          → All IsSound streams
          → All IsSound (detached world streams)
      cut [] h = tt
      cut (s ∷ rest) h = (
        record { fenced = inl refl; accounted = h.0.accounted; discontinuous = h.0.discontinuous },
        cut rest h.1,
      )

  -- Whatever the network, the credentials and the other threads do: in the group that
  -- `run_with_recovery` leaves, at whatever point it ends, the attachments of each stream are one more
  -- than its renewals and reconnections, and than its discontinuities, unless the total has saturated.
  pub run_with_recovery-IsSound :
      (fuel rounds : ℕ) (streams : List IngressStream)
      (recovery : Option (PublisherCredential Secret)) (moment : ℕ)
      → All IsSound (run_with_recovery world fuel rounds streams recovery moment).0.active
  unfolding run_with_recovery
  run_with_recovery-IsSound fuel rounds streams recovery moment =
      last (run_with_recovery world fuel rounds streams recovery moment)
        (whole.at (initial world streams recovery moment) (started-IsSound _ streams))
    where
      whole : Keeps IsSoundGroup (
          attempt (publish_group world fuel rounds) >>= λ result.
          settle world fuel >> return result)
      whole =
          chained
            (attempted_block (λ r. IsSoundGroup) (λ a g p. p) (λ e g p. p)
              (publish_group-Keeps fuel rounds))
            (λ result. chained (settle-Keeps fuel) (λ u. returned world local result))

      last :
          {A : Type 0} (r : Group Secret × Outcome A)
          → Holds (λ a. IsSoundGroup) IsSoundGroup r
          → All IsSound r.0.active
      last (g, value a) h = h
      last (g, failed e) h = h
      last (g, panicked) h = h
      last (g, out_of_fuel) h = h
