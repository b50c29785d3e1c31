-- ===== src/Corestack/EventBus.antt =====
-- corestack/src/lib/libeventbus.c: the event bus. A listener is the address of a function; what a call
-- of it does to the rest of the program is the parameter `call`. A listener that changes the bus while
-- it is called is left out.
pub mod Listeners
mod Tests
use package.corestack_50005_htt.Prelude.{ℕ, Bool, true, false, ◌==◌, if◌then◌else◌, List, [], ◌∷◌}
use package.corestack_50005_htt.Prelude.{get_or, set, replicate}

-- One list of listeners for each event; `num_events` is the number of lists.
pub record EventBus : Type 0 where
  pub slots : List (List ℕ)

pub event_bus_init : ℕ → EventBus
event_bus_init num_events = record { slots = replicate num_events [] }

pub event_bus_free : EventBus → EventBus
event_bus_free bus = record { slots = [] }

abbrev pub head_of : EventBus → ℕ → List ℕ
head_of bus event_type = get_or bus.slots event_type []

pub event_bus_listen : EventBus → ℕ → ℕ → EventBus
event_bus_listen bus event_type listener = record {
  slots = set bus.slots event_type (listener ∷ head_of bus event_type);
}

-- The loop: the first node with the listener is taken out of the list.
abbrev pub unlink : List ℕ → ℕ → List ℕ
unlink [] listener = []
unlink (fn ∷ next) listener =
    let rest = unlink next listener in if fn == listener then next else fn ∷ rest

pub event_bus_stop_listening : EventBus → ℕ → ℕ → EventBus
event_bus_stop_listening bus event_type listener = record {
  slots = set bus.slots event_type (unlink (head_of bus event_type) listener);
}

module _ {ℓ κ} {Args : Type ℓ} {World : Type κ} (call : ℕ → Args → World → World) where
  -- The loop over the nodes.
  abbrev pub call_all : List ℕ → Args → World → World
  call_all [] args w = w
  call_all (fn ∷ next) args w = call_all next args (call fn args w)

  pub event_bus_trigger : EventBus → ℕ → Args → World → World
  event_bus_trigger bus event_type args w = call_all (head_of bus event_type) args w
