-- ===== src/Gateway/Recovery/Keeps.antt =====
-- What an admission of the whole group leaves behind: on success a connection for each configuration,
-- in their order, each with the generation that its stream has seen last.
use connectors.Base.{
  get_elem?, get_or, drop, leb, ◌<◌, update, All-update, ℕ, zero, suc, ◌+◌, ◌≤◌, ◌≡◌, refl, ◌⊎◌,
  inl, inr, Bool, true, false, none, some, List, [], ◌∷◌, ◌++◌, length, Result, ok, err, All, arith,
  u64_max, length-append, subst, ◌∙◌, sym,
}
use connectors.Configuration.Types.{RelayRouteConfiguration}
use connectors.Control.Handle.{PublisherCredential}
use connectors.Gateway.Failures.{IngressError}
use connectors.Gateway.Ingress.{
  World, Group, Run, value, failed, panicked, out_of_fuel, ActiveIngress, IngressConnection, Read,
  return, get, modify, modify_stream, lift, diverge, closed, ping_or_pong, other_message, text,
  failed_read,
}
use connectors.Gateway.Triple.{
  Triple, Keeps, Holds, chained, attempted_block, checked, checked_false, assuming, streamed_at,
  on_option, modified, gotten,
}
use connectors.Gateway.Sending.Keeps.{IsLocal, IsCount, asked, returned, thrown, send_until-Keeps}
use connectors.Gateway.Recovery.{
  await_ready, prepare, cancel_until, close_active, taken, detached, admit_one, admit_group,
}

-- A stream is fenced and accounted for: its connection has the highest generation that it has seen, and
-- its attachments are the first one, the renewals and the reconnections, until the total saturates.
pub record IsSound (s : ActiveIngress) : Type 0 where
  pub fenced :
      (s.connection ≡ none)
      ⊎ ((c : IngressConnection) × (s.connection ≡ some c)
          × (c.source_generation ≡ s.highest_generation)
          × (s.statistics.ingress_source_generation ≡ s.highest_generation))
  pub accounted :
      (s.statistics.ingress_attachments
        ≡ 1 + s.statistics.ingress_renewals + s.statistics.ingress_reconnects)
      ⊎ (u64_max ≤ s.statistics.ingress_attachments)
  pub discontinuous :
      (s.statistics.ingress_attachments ≡ 1 + s.statistics.ingress_discontinuities)
      ⊎ (u64_max ≤ s.statistics.ingress_attachments)

pub IsSound-count : (s t : ActiveIngress) → IsCount s t → IsSound s → IsSound t
IsSound-count s t same v =
    let a = same.connection in
    let b = same.highest in
    let c = same.attachments in
    let d = same.renewals in
    let e = same.reconnects in
    let f = same.discontinuities in
    let g = same.source_generation in
    let x = v.fenced in
    let y = v.accounted in
    let z = v.discontinuous in
    record {
      fenced = elim x [ inl gone ↦ inl cc | inr (k, is, seen, said) ↦ inr (k, cc, cc, cc) ];
      accounted = elim y [ inl h ↦ inl (omega arith) | inr h ↦ inr (omega arith) ];
      discontinuous = elim z [ inl h ↦ inl (omega arith) | inr h ↦ inr (omega arith) ];
    }

-- Each stream has seen a generation of at least its floor (0 beyond the list).
abbrev pub Above : List ℕ → List ActiveIngress → Type 0
Above floors [] = Unit
Above floors (s ∷ streams) =
    (get_or floors 0 0 ≤ s.highest_generation) × Above (drop 1 floors) streams

get_or-drop : (floors : List ℕ) (i : ℕ) → get_or (drop 1 floors) i 0 ≡ get_or floors (suc i) 0
get_or-drop [] i = refl
get_or-drop (n ∷ floors) i = refl

Above-update :
    (floors : List ℕ) (streams : List ActiveIngress) (i : ℕ) (f : ActiveIngress → ActiveIngress)
    → ((s : ActiveIngress)
        → get_or floors i 0 ≤ s.highest_generation
        → get_or floors i 0 ≤ (f s).highest_generation)
    → Above floors streams
    → Above floors (update f i streams)
Above-update floors [] i f h p = tt
Above-update floors (s ∷ streams) zero f h p = (h s p.0, p.1)
Above-update floors (s ∷ streams) (suc i) f h p = (
  p.0,
  Above-update (drop 1 floors) streams i f
      (λ t.
        subst (λ n. n ≤ t.highest_generation → n ≤ (f t).highest_generation)
          (sym (get_or-drop floors i)) (h t))
      p.1,
)

Above-at :
    (floors : List ℕ) (streams : List ActiveIngress) (i : ℕ) (s : ActiveIngress)
    → Above floors streams
    → get_elem? streams i ≡ some s
    → get_or floors i 0 ≤ s.highest_generation
Above-at floors [] i s p e = cc
Above-at floors (t ∷ streams) zero s p e = ground (arith, p, e)
Above-at floors (t ∷ streams) (suc i) s p e =
    subst (λ n. n ≤ s.highest_generation) (get_or-drop floors i)
      (Above-at (drop 1 floors) streams i s p.1 e)

-- The connections under admission belong to the first streams, each with a generation beyond the
-- stream's floor.
abbrev pub Paired : List ℕ → List IngressConnection → List ActiveIngress → Type 0
Paired floors [] streams = Unit
Paired floors (c ∷ cs) [] = Unit
Paired floors (c ∷ cs) (s ∷ streams) =
    (c.source_generation ≡ s.highest_generation)
    × (get_or floors 0 0 < c.source_generation)
    × Paired (drop 1 floors) cs streams

Paired-count :
    (floors : List ℕ) (cs : List IngressConnection) (streams : List ActiveIngress) (i : ℕ)
    (f : ActiveIngress → ActiveIngress)
    → ((s : ActiveIngress) → IsCount s (f s))
    → Paired floors cs streams
    → Paired floors cs (update f i streams)
Paired-count floors [] streams i f h p = tt
Paired-count floors (c ∷ cs) [] i f h p = p
Paired-count floors (c ∷ cs) (s ∷ streams) zero f h p = (p.0 ∙ sym (h s).highest, p.1, p.2)
Paired-count floors (c ∷ cs) (s ∷ streams) (suc i) f h p =
    (p.0, p.1, Paired-count (drop 1 floors) cs streams i f h p.2)

-- The stream of the newest connection has seen its generation.
Paired-snoc :
    (floors : List ℕ) (cs : List IngressConnection) (c : IngressConnection)
    (streams : List ActiveIngress) (f : ActiveIngress → ActiveIngress)
    → ((t : ActiveIngress) → (f t).highest_generation ≡ c.source_generation)
    → get_or floors (length cs) 0 < c.source_generation
    → Paired floors cs streams
    → Paired floors (cs ++ c ∷ []) (update f (length cs) streams)
Paired-snoc floors [] c [] f h n p = tt
Paired-snoc floors [] c (s ∷ streams) f h n p = (sym (h s), n, tt)
Paired-snoc floors (d ∷ cs) c [] f h n p = tt
Paired-snoc floors (d ∷ cs) c (s ∷ streams) f h n p = (
  p.0,
  p.1,
  Paired-snoc (drop 1 floors) cs c streams f h
      (subst (λ m. m < c.source_generation) (sym (get_or-drop floors (length cs))) n) p.2,
)

abbrev pub IsDetached : ActiveIngress → Type 0
IsDetached s = IsSound s × (s.connection ≡ none)

module _ {Secret : Type 0} (floors : List ℕ) where
  -- Between `close_active` and the installation of new connections.
  abbrev pub IsClosed : Group Secret → Type 0
  IsClosed g = (All IsDetached g.active × (g.paused ≡ true)) × Above floors g.active

  -- `index` connections are admitted.
  abbrev pub IsAdmitting : ℕ → Group Secret → Type 0
  IsAdmitting index g =
      IsClosed g × Paired floors g.connections g.active × (length g.connections ≡ index)

  -- The newest connection has not been recorded by its stream yet.
  abbrev pub IsPushed : ℕ → IngressConnection → Group Secret → Type 0
  IsPushed index c g =
      (cs : List IngressConnection) × (g.connections ≡ cs ++ c ∷ [])
      × IsClosed g
      × Paired floors cs g.active
      × (length cs ≡ index)

  pub IsClosed-IsLocal : IsLocal {Secret = Secret} IsClosed
  IsClosed-IsLocal = record {
    moment = λ g t p. p;
    written = λ g w p. p;
    counted = λ g i f h p. (
      (
        All-update IsDetached f i g.active
            (λ s v. (IsSound-count s (f s) (h s) v.0, (h s).connection ∙ v.1)) p.0.0,
        p.0.1,
      ),
      Above-update floors g.active i f (λ s v. omega (arith, v, (h s).highest)) p.1,
    );
  }

  IsAdmitting-IsLocal : (index : ℕ) → IsLocal {Secret = Secret} (IsAdmitting index)
  IsAdmitting-IsLocal index = record {
    moment = λ g t p. p;
    written = λ g w p. p;
    counted = λ g i f h p. (
      IsClosed-IsLocal.counted g i f h p.0,
      Paired-count floors g.connections g.active i f h p.1,
      p.2,
    );
  }

pub forgotten :
    {Secret A : Type 0} {P R : Group Secret → Type 0} {Q S : A → Group Secret → Type 0}
    {m : Run Secret A}
    → ((a : A) (g : Group Secret) → Q a g → S a g)
    → Triple P m Q R
    → Triple P m S R
forgotten {R = R} {Q = Q} {S = S} {m = m} h t = record { at = λ g p. at_end (m g) (t.at g p) }
  where
    at_end : (r : _) → Holds Q R r → Holds S R r
    at_end (g, value a) q = h a g q
    at_end (g, failed e) q = q
    at_end (g, panicked) q = q
    at_end (g, out_of_fuel) q = q

pub on_bool :
    {Secret A : Type 0} {P R : Group Secret → Type 0} {Q : A → Group Secret → Type 0}
    {m k : Run Secret A} (b : Bool)
    → Triple P m Q R
    → Triple P k Q R
    → Triple P (elim b [ true ↦ m | false ↦ k ]) Q R
on_bool true h k = h
on_bool false h k = k

-- The end of a block may be known less well.
pub weakened :
    {Secret A : Type 0} {P R S : Group Secret → Type 0} {Q : A → Group Secret → Type 0}
    {m : Run Secret A}
    → ((g : Group Secret) → R g → S g)
    → Triple P m Q R
    → Triple P m Q S
weakened {R = R} {S = S} {Q = Q} {m = m} h t = record { at = λ g p. at_end (m g) (t.at g p) }
  where
    at_end : (r : _) → Holds Q R r → Holds Q S r
    at_end (g, value a) q = q
    at_end (g, failed e) q = h g q
    at_end (g, panicked) q = h g q
    at_end (g, out_of_fuel) q = h g q

module _ {Secret Generation : Type 0} (world : World Secret Generation) where
  module _ {P : Group Secret → Type 0} (local : IsLocal P) where
    lift-Keeps : {A : Type 0} (r : Result IngressError A) → Keeps P (lift {Secret = Secret} r)
    lift-Keeps (ok a) = returned world local a
    lift-Keeps (err e) = thrown world local e

    await_ready-Keeps :
        (fuel : ℕ) (configuration : RelayRouteConfiguration Secret) (deadline : ℕ)
        → Keeps P (await_ready world fuel configuration deadline)
    unfolding await_ready diverge
    await_ready-Keeps zero configuration deadline = record { at = λ g p. p }
    await_ready-Keeps (suc fuel) configuration deadline =
        chained (asked world local world.now) (λ now. chained (checked _ _) (λ u.
          chained (asked world local world.read) (λ message.
            on_read message (thrown world local _) (await_ready-Keeps fuel configuration deadline)
              (thrown world local _)
              (λ received.
                on_option (world.parse_ready received) (thrown world local _)
                  (λ ready. chained (checked _ _) (λ v. returned world local ready)))
              (λ error. thrown world local _))))
      where
        on_read :
            {B : Type 0} {a b c : Run Secret B} {t : _ → Run Secret B} {d : _ → Run Secret B}
            (message : Read)
            → Keeps P a
            → Keeps P b
            → Keeps P c
            → ((received : _) → Keeps P (t received))
            → ((error : _) → Keeps P (d error))
            → Keeps P (elim message [
              | closed code ↦ a
              | ping_or_pong ↦ b
              | other_message ↦ c
              | failed_read error ↦ d error
              | text received ↦ t received
            ])
        on_read (closed code) h i j k l = h
        on_read ping_or_pong h i j k l = i
        on_read other_message h i j k l = j
        on_read (text received) h i j k l = k received
        on_read (failed_read error) h i j k l = l error

    prepare-Keeps :
        (fuel : ℕ) (configuration : RelayRouteConfiguration Secret) (channels deadline : ℕ)
        → Keeps P (prepare world fuel configuration channels deadline)
    unfolding prepare
    prepare-Keeps fuel configuration channels deadline = chained (asked world local _) (λ connected.
        chained (lift-Keeps connected) (λ u. chained (asked world local world.now) (λ now.
          chained (checked _ _) (λ v.
            chained (await_ready-Keeps fuel configuration deadline)
              (λ ready. returned world local _)))))

    pub cancel_until-Keeps :
        (fuel : ℕ) (connections : List IngressConnection) (deadline : ℕ)
        → Keeps P (cancel_until world fuel connections deadline)
    unfolding cancel_until
    cancel_until-Keeps fuel [] deadline = returned world local tt
    cancel_until-Keeps fuel (c ∷ rest) deadline =
        chained
          (attempted_block (λ r. P) (λ a g p. p) (λ e g p. p)
            (send_until-Keeps world local fuel [] deadline none))
          (λ sent. cancel_until-Keeps fuel rest deadline)

  All-detached :
      (streams : List ActiveIngress) → All IsSound streams → All IsDetached (detached world streams)
  All-detached [] h = tt
  All-detached (s ∷ streams) h = (
    (
      record { fenced = inl refl; accounted = h.0.accounted; discontinuous = h.0.discontinuous },
      refl,
    ),
    All-detached streams h.1,
  )

  Above-detached :
      (floors : List ℕ) (streams : List ActiveIngress)
      → Above floors streams
      → Above floors (detached world streams)
  Above-detached floors [] p = tt
  Above-detached floors (s ∷ streams) p = (p.0, Above-detached (drop 1 floors) streams p.1)

  module _ (floors : List ℕ) where
    pub admit_one-Triple :
        (fuel : ℕ) (k : PublisherCredential Secret) (deadline index : ℕ)
        (configuration : RelayRouteConfiguration Secret)
        → Triple
            (IsAdmitting floors index)
            (admit_one world fuel k deadline index configuration)
            (λ u. IsAdmitting floors (suc index))
            (IsClosed floors)
    unfolding admit_one
    admit_one-Triple fuel k deadline index configuration =
        chained (before (asked world here _)) (λ gone. chained (before (checked _ _)) (λ u.
          chained (before (asked world here _)) (λ revision. chained (before (checked _ _)) (λ v.
            chained (before (asked world here _)) (λ stopping. chained (before (checked _ _)) (λ w.
              chained (floored (streamed_at index)) (λ stream. assuming (λ floor.
                chained (before (prepare-Keeps here fuel _ stream.channels deadline)) (λ c.
                  chained (pushed c) (λ x. chained (weakened (λ g p. p.2) (checked_false _ _)) (λ y.
                    assuming (λ newer. chained (recorded c (beyond stream c floor newer)) (λ z.
                      chained (after (asked world there _)) (λ gone_since.
                        chained (after (checked _ _)) (λ a.
                          chained (after (asked world there _)) (λ later.
                            chained (after (checked _ _)) (λ b.
                              chained (after (asked world there _))
                                (λ now. after (checked _ _)))))))))))))))))))
      where
        here : IsLocal {Secret = Secret} (IsAdmitting floors index)
        here = IsAdmitting-IsLocal floors index

        there : IsLocal {Secret = Secret} (IsAdmitting floors (suc index))
        there = IsAdmitting-IsLocal floors (suc index)

        before :
            {A : Type 0} {m : Run Secret A}
            → Keeps (IsAdmitting floors index) m
            → Triple (IsAdmitting floors index) m (λ a. IsAdmitting floors index) (IsClosed floors)
        before t = weakened (λ g p. p.0) t

        after :
            {A : Type 0} {m : Run Secret A}
            → Keeps (IsAdmitting floors (suc index)) m
            → Triple
                (IsAdmitting floors (suc index))
                m
                (λ a. IsAdmitting floors (suc index))
                (IsClosed floors)
        after t = weakened (λ g p. p.0) t

        -- What the stream says of its floor.
        floored :
            {m : Run Secret ActiveIngress}
            → Triple
                (IsAdmitting floors index)
                m
                (λ t g. IsAdmitting floors index g × (get_elem? g.active index ≡ some t))
                (IsAdmitting floors index)
            → Triple
                (IsAdmitting floors index)
                m
                (λ t g. IsAdmitting floors index g × (get_or floors index 0 ≤ t.highest_generation))
                (IsClosed floors)
        floored t =
            weakened (λ g p. p.0)
              (forgotten (λ s g p. (p.0, Above-at floors g.active index s p.0.0.1 p.1)) t)

        beyond :
            (stream : ActiveIngress) (c : IngressConnection)
            → get_or floors index 0 ≤ stream.highest_generation
            → leb c.source_generation stream.highest_generation ≡ false
            → get_or floors index 0 < c.source_generation
        beyond stream c floor newer = ground (arith, floor, newer)

        pushed :
            (c : IngressConnection)
            → Triple
                (IsAdmitting floors index)
                (modify {Secret = Secret} (λ g. record g { connections = g.connections ++ c ∷ [] }))
                (λ u. IsPushed floors index c)
                (IsClosed floors)
        pushed c = modified _ (λ g p. (g.connections, refl, p.0, p.1, p.2))

        at_index :
            (g : Group Secret) (cs : List IngressConnection) (c : IngressConnection)
            → g.connections ≡ cs ++ c ∷ []
            → length cs ≡ index
            → Paired floors (cs ++ c ∷ []) (
                update
                  (λ s. record s { highest_generation = c.source_generation })
                  (length cs)
                  g.active)
            → Paired floors g.connections
                (update (λ s. record s { highest_generation = c.source_generation }) index g.active)
        at_index g cs c made size h = rw made (rw (← size) h)

        recorded :
            (c : IngressConnection)
            → get_or floors index 0 < c.source_generation
            → Triple
                (IsPushed floors index c)
                (modify_stream {Secret = Secret} index
                  (λ s. record s { highest_generation = c.source_generation }))
                (λ u. IsAdmitting floors (suc index))
                (IsClosed floors)
        recorded c newer = modified _ (λ g (cs, made, still, paired, size). (
          (
            (
              All-update IsDetached (λ s. record s { highest_generation = c.source_generation })
                  index g.active
                  (λ s v. (
                    record {
                      fenced = inl v.1;
                      accounted = v.0.accounted;
                      discontinuous = v.0.discontinuous;
                    },
                    v.1,
                  ))
                  still.0.0,
              still.0.1,
            ),
            Above-update floors g.active index
                (λ s. record s { highest_generation = c.source_generation })
                (λ s v. omega (arith, newer)) still.1,
          ),
          at_index g cs c made size (
              Paired-snoc floors cs c g.active _ (λ t. refl)
                (subst (λ n. get_or floors n 0 < c.source_generation) (sym size) newer) paired),
          rw made (omega (arith, length-append cs (c ∷ []))),
        ))

    -- The admission of the group.
    pub admit_group-Triple :
        (fuel : ℕ) (k : PublisherCredential Secret) (deadline index : ℕ)
        (configurations : List (RelayRouteConfiguration Secret))
        → Triple
            (IsAdmitting floors index)
            (admit_group world fuel k deadline index configurations)
            (λ u. IsAdmitting floors (index + length configurations))
            (IsClosed floors)
    unfolding admit_group return
    admit_group-Triple fuel k deadline index [] = record {
      at = λ g p. (p.0, p.1, omega (arith, p.2));
    }
    admit_group-Triple fuel k deadline index (configuration ∷ rest) =
        chained (admit_one-Triple fuel k deadline index configuration)
          (λ u. moved (admit_group-Triple fuel k deadline (suc index) rest))
      where
        moved :
            {m : Run Secret (Unit {0})}
            → Triple
                (IsAdmitting floors (suc index))
                m
                (λ u. IsAdmitting floors (suc index + length rest))
                (IsClosed floors)
            → Triple
                (IsAdmitting floors (suc index))
                m
                (λ u. IsAdmitting floors (index + length (configuration ∷ rest)))
                (IsClosed floors)
        moved {m} t =
            let same : suc index + length rest ≡ index + length (configuration ∷ rest) =
              omega arith in
            subst
              (λ n.
                Triple (IsAdmitting floors (suc index)) m (λ u. IsAdmitting floors n)
                  (IsClosed floors))
              same t

    -- Publication is paused before the sockets are closed.
    pub close_active-Triple :
        (fuel : ℕ)
        → Triple
            (λ g. (All IsSound g.active × (g.paused ≡ true)) × Above floors g.active)
            (close_active world fuel)
            (λ u. (IsClosed floors))
            (IsClosed floors)
    unfolding close_active
    close_active-Triple fuel =
        chained {Q = λ c g. (All IsSound g.active × (g.paused ≡ true)) × Above floors g.active}
          taking
          (λ connections. chained {Q = λ u. (IsClosed floors)} detaching (λ u.
            chained (asked world (IsClosed-IsLocal floors) world.now)
              (λ now. cancel_until-Keeps (IsClosed-IsLocal floors) fuel connections _)))
      where
        taking :
            Triple
              (λ g. (All IsSound g.active × (g.paused ≡ true)) × Above floors g.active)
              (get {Secret = Secret} (λ g. taken world g.active))
              (λ c g. (All IsSound g.active × (g.paused ≡ true)) × Above floors g.active)
              (IsClosed floors)
        taking = gotten _

        detaching :
            Triple
              (λ g. (All IsSound g.active × (g.paused ≡ true)) × Above floors g.active)
              (modify {Secret = Secret} (λ g. record g { active = detached world g.active }))
              (λ u. (IsClosed floors))
              (IsClosed floors)
        detaching =
            modified _
              (λ g p. ((All-detached g.active p.0.0, p.0.1), Above-detached floors g.active p.1))
