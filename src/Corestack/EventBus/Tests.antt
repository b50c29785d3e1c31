-- ===== src/Corestack/EventBus/Tests.antt =====
-- A bus of two events with two listeners for the first, whose calls are logged.
use corestack_50005_htt.Prelude.{ℕ, ◌≡◌, ◌≢◌, arith, List, [], ◌∷◌}
use corestack_50005_htt.Corestack.EventBus.{EventBus, event_bus_listen}
use corestack_50005_htt.Corestack.EventBus.{event_bus_trigger}
use corestack_50005_htt.Corestack.EventBus.Listeners.{trigger-listen}

abbrev bus : EventBus
bus = record { slots = (20 ∷ 10 ∷ []) ∷ [] ∷ [] }

-- The latest call first.
abbrev log : ℕ → ℕ → List ℕ → List ℕ
log fn args w = fn ∷ args ∷ w

trigger-listen_example :
    ((args : ℕ) (w : List ℕ)
      → event_bus_trigger log (event_bus_listen bus 0 30) 0 args w
        ≡ event_bus_trigger log bus 0 args (log 30 args w))
    × ((other : ℕ) (args : ℕ) (w : List ℕ)
        → other ≢ 0
        → event_bus_trigger log (event_bus_listen bus 0 30) other args w
          ≡ event_bus_trigger log bus other args w)
trigger-listen_example = trigger-listen log bus 0 30 (omega arith)
