-- ===== src/Runtime/Feeder/Accounting.antt =====
-- What becomes of the frames that a feeder receives (runtime.rs).
use connectors.Base.{
  if◌then◌else◌, ℕ, zero, suc, ◌+◌, ◌≤◌, ◌≡◌, ◌≢◌, ◌⊎◌, false, Option, none, some, List, [], ◌∷◌,
  ◌++◌, length, All, ◌==◌, wrapping_add,
}
use connectors.Runtime.Feeder.{AudioFrame, Surroundings, Feeding, FeederEnd, capture_end}

-- A wrapping counter, counted up.
abbrev pub counted : ℕ → ℕ → ℕ
counted a zero = a
counted a (suc n) = counted (wrapping_add a 1) n

-- What becomes of a frame that was received.
pub data Fate : Type 0 where
  sent paused crowded lost : Fate

abbrev pub number : Fate → ℕ
number sent = 0
number paused = 1
number crowded = 2
number lost = 3

-- The frames that meet a fate, in their order.
abbrev pub having : Fate → List (AudioFrame × Fate) → List AudioFrame
having fate [] = []
having fate ((frame, met) ∷ arrivals) =
    let rest = having fate arrivals in if number fate == number met then frame ∷ rest else rest

module _ (around : Surroundings) where
  -- The frames are what the receiver gave, one after the other, from the moment `t` on and before `end`.
  abbrev pub Arrived : ℕ → List (AudioFrame × Fate) → ℕ → Type 0
  Arrived t [] end = t ≤ end
  Arrived t ((frame, fate) ∷ arrivals) end =
      (m : ℕ) × (t ≤ m) × (around.try_recv m ≡ some frame) × Arrived (suc m) arrivals end

  -- What lies between two states: the frames that arrived, and what became of each.
  pub record Accounts (missed : ℕ) (f g : Feeding) : Type 0 where
    pub arrivals : List (AudioFrame × Fate)
    pub arrived : Arrived f.moment arrivals g.moment
    pub forwarded : g.forwarded ≡ f.forwarded ++ having sent arrivals
    pub received : g.received ≡ f.received + length arrivals
    pub input_drops : g.input_drops ≡ counted f.input_drops (length (having paused arrivals))
    pub queue_drops :
        g.ingress_queue_drops_total
        ≡ counted f.ingress_queue_drops_total (length (having crowded arrivals))
    pub losses : length (having lost arrivals) ≡ missed
    pub delivery : g.has_delivery ≡ f.has_delivery
    pub later : f.capture_end_ns ≤ g.capture_end_ns
    pub ended :
        All
          (λ frame. (f.has_delivery ≡ false) ⊎ (capture_end frame ≤ g.capture_end_ns))
          (having sent arrivals)

  abbrev pub Ended : Feeding → Feeding × Option FeederEnd → Type 0
  Ended f r = Accounts 0 f r.0 ⊎ ((r.1 ≢ none) × Accounts 1 f r.0)

  -- A state that has received one frame more, which it is about to offer.
  record Holding (frame : AudioFrame) (f g : Feeding) : Type 0 where
    got : around.try_recv (2 + f.moment) ≡ some frame
    moment : 3 + f.moment ≤ g.moment
    forwarded : g.forwarded ≡ f.forwarded
    received : g.received ≡ suc f.received
    input_drops : g.input_drops ≡ f.input_drops
    queue_drops : g.ingress_queue_drops_total ≡ f.ingress_queue_drops_total
    delivery : g.has_delivery ≡ f.has_delivery
    later : f.capture_end_ns ≤ g.capture_end_ns

  abbrev InTime : Feeding → ℕ → AudioFrame → Type 0
  InTime f end frame = (f.has_delivery ≡ false) ⊎ (capture_end frame ≤ end)
