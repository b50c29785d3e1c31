-- ===== src/Corestack/EventBus/Listeners.antt =====
-- Who is called after a registration and after its end.
use corestack_50005_htt.Prelude.{ℕ, zero, suc, ◌-◌, ◌<◌, ◌≡◌, ◌≢◌, refl, sym, ap, ◌∙◌, arith}
use corestack_50005_htt.Prelude.{
  List, [], ◌∷◌, length, count, get_or, set, get_or-set_self, get_or-set_ne,
}
use corestack_50005_htt.Prelude.{◌==◌, ==_refl, if◌then◌else◌}
use corestack_50005_htt.Corestack.EventBus.{EventBus, head_of, event_bus_listen, unlink}
use corestack_50005_htt.Corestack.EventBus.{event_bus_stop_listening, call_all, event_bus_trigger}

set-set {ℓ} : {A : Type ℓ} (xs : List A) (i : ℕ) (a b : A) → set (set xs i a) i b ≡ set xs i b
set-set [] i a b = refl
set-set (x ∷ xs) zero a b = refl
set-set (x ∷ xs) (suc i) a b = ap (λ l. x ∷ l) (set-set xs i a b)

set-get_or {ℓ} : {A : Type ℓ} (xs : List A) (i : ℕ) (d : A) → set xs i (get_or xs i d) ≡ xs
set-get_or [] i d = refl
set-get_or (x ∷ xs) zero d = refl
set-get_or (x ∷ xs) (suc i) d = ap (λ l. x ∷ l) (set-get_or xs i d)

-- To stop listening at once undoes the registration, also of a listener that was registered before.
pub stop_listening-listen :
    (bus : EventBus) (event_type listener : ℕ)
    → event_type < length bus.slots
    → event_bus_stop_listening (event_bus_listen bus event_type listener) event_type listener ≡ bus
unfolding event_bus_listen event_bus_stop_listening
stop_listening-listen bus event_type listener inside =
    let old = head_of bus event_type in
    let read : get_or (set bus.slots event_type (listener ∷ old)) event_type [] ≡ listener ∷ old =
      get_or-set_self bus.slots event_type (listener ∷ old) [] inside in
    let gone : unlink (listener ∷ old) listener ≡ old = rw (==_refl listener) refl in
    ap (λ l. record { slots = set (set bus.slots event_type (listener ∷ old)) event_type l })
      (ap (λ l. unlink l listener) read ∙ gone)
    ∙ ap (λ l. record { slots = l })
        (set-set bus.slots event_type (listener ∷ old) old ∙ set-get_or bus.slots event_type [])

module _ {ℓ κ} {Args : Type ℓ} {World : Type κ} (call : ℕ → Args → World → World) where
  -- A new listener of an event of the bus is called before the others of its event, and the other
  -- events are triggered as before.
  pub trigger-listen :
      (bus : EventBus) (event_type listener : ℕ)
      → event_type < length bus.slots
      → ((args : Args) (w : World)
          → event_bus_trigger call (event_bus_listen bus event_type listener) event_type args w
            ≡ event_bus_trigger call bus event_type args (call listener args w))
        × ((other : ℕ) (args : Args) (w : World)
            → other ≢ event_type
            → event_bus_trigger call (event_bus_listen bus event_type listener) other args w
              ≡ event_bus_trigger call bus other args w)
  unfolding event_bus_listen event_bus_trigger
  trigger-listen bus event_type listener inside =
      let new = listener ∷ head_of bus event_type in
      (
        λ args w.
            ap (λ l. call_all call l args w) (get_or-set_self bus.slots event_type new [] inside),
        λ other args w apart.
            ap (λ l. call_all call l args w) (get_or-set_ne bus.slots new [] (λ e. apart (sym e))),
      )

count-unlink :
    (nodes : List ℕ) (listener other : ℕ)
    → count other (unlink nodes listener)
      ≡ (if other == listener then count other nodes - 1 else count other nodes)
count-unlink [] listener other = ground arith
count-unlink (fn ∷ next) listener other = ground (arith, count-unlink next listener other)

-- To stop listening takes away one registration of the listener for the event, where there is one, and
-- none of another listener; the lists of the other events stay as they are.
pub stop_listening_lem :
    (bus : EventBus) (event_type listener : ℕ)
    → event_type < length bus.slots
    → ((other : ℕ)
        → count other (head_of (event_bus_stop_listening bus event_type listener) event_type) ≡ (
            if other == listener
            then count other (head_of bus event_type) - 1
            else count other (head_of bus event_type)))
      × ((event : ℕ)
          → event ≢ event_type
          → head_of (event_bus_stop_listening bus event_type listener) event ≡ head_of bus event)
unfolding event_bus_stop_listening
stop_listening_lem bus event_type listener inside =
    let new = unlink (head_of bus event_type) listener in
    (
      λ other.
          ap (count other) (get_or-set_self bus.slots event_type new [] inside)
          ∙ count-unlink (head_of bus event_type) listener other,
      λ event apart. get_or-set_ne bus.slots new [] (λ e. apart (sym e)),
    )
