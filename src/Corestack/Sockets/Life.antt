-- ===== src/Corestack/Sockets/Life.antt =====
-- The life of an endpoint's sockets: nothing is leaked, and nothing is closed twice.
use corestack_50005_htt.Prelude.{ℕ, ◌≡◌, refl, arith, fun_ext, true, false}
use corestack_50005_htt.Prelude.{List, [], ◌∷◌, ◌++◌, append_assoc, append-nil, Option, none, some}
use corestack_50005_htt.Prelude.{◌==◌, if◌then◌else◌, ==_refl, ◌⊎◌, inl, inr, Bool-cases}
use corestack_50005_htt.Prelude.Int.{ℤ, pos, ltb_ℤ, ◌<ℤ◌}
use corestack_50005_htt.Corestack.Sockets.{Sockets, World, update, check_sockets, close_sockets}
use corestack_50005_htt.Corestack.Sockets.{closed_sockets, free_sockets, create_sockets, Endpoint}
use corestack_50005_htt.Corestack.Sockets.{create_endpoint, free_endpoint, idle, ◌>>=◌}

pub update-update :
    (heap : ℕ → Option Sockets) (a : ℕ) (s t : Option Sockets)
    → update (update heap a s) a t ≡ update heap a t
update-update heap a s t =
    fun_ext (λ b. elim (Bool-cases (b == a)) [ inl e ↦ rw e refl | inr e ↦ rw e refl ])

pub update_self : (heap : ℕ → Option Sockets) (a : ℕ) (s : Option Sockets) → update heap a s a ≡ s
update_self heap a s = rw (==_refl a) refl

pub update_same :
    (heap : ℕ → Option Sockets) (a : ℕ) (s : Option Sockets) → heap a ≡ s → update heap a s ≡ heap
update_same heap a s h = fun_ext (λ b. ground (arith, h))

-- Three descriptors that `check_sockets` takes.
abbrev pub IsOpen : Sockets → Type 0
IsOpen s = (pos 0 <ℤ s.tcp) × (pos 0 <ℤ s.udp_uni) × (pos 0 <ℤ s.udp_broad)

abbrev pub descriptors : Sockets → List ℤ
descriptors s = s.tcp ∷ s.udp_uni ∷ s.udp_broad ∷ []

pub check_sockets-IsOpen : (s : Sockets) → IsOpen s → check_sockets s ≡ true
unfolding check_sockets
check_sockets-IsOpen s h = ground arith

pub close_sockets_lem :
    (w : World) (a : ℕ) (s : Sockets)
    → w.heap a ≡ some s
    → IsOpen s
    → close_sockets (some a) w
      ≡ some (
        true,
        record { heap = update w.heap a (some closed_sockets); closed = w.closed ++ descriptors s },
      )
unfolding close_sockets
close_sockets_lem w a s live h =
    rw
      (
        ◌>>=◌,
        live,
        check_sockets-IsOpen s h,
        append_assoc (w.closed ++ s.tcp ∷ []) (s.udp_uni ∷ []) (s.udp_broad ∷ []),
        append_assoc w.closed (s.tcp ∷ []) (s.udp_uni ∷ s.udp_broad ∷ []),
      )
      refl

pub free_sockets_lem :
    (w : World) (a : ℕ) (s : Sockets)
    → w.heap a ≡ some s
    → IsOpen s
    → free_sockets (some a) w
      ≡ some
          ((true, none), record { heap = update w.heap a none; closed = w.closed ++ descriptors s })
unfolding free_sockets
free_sockets_lem w a s live h =
    rw (◌>>=◌, close_sockets_lem w a s live h, update-update w.heap a (some closed_sockets) none)
      refl

-- Where the test of the descriptors fails, nothing is closed or freed.
pub free_sockets_fails :
    (w : World) (a : ℕ) (s : Sockets)
    → w.heap a ≡ some s
    → check_sockets s ≡ false
    → free_sockets (some a) w ≡ some ((false, some a), w)
unfolding free_sockets close_sockets
free_sockets_fails w a s live h = rw (◌>>=◌, live, h) refl

abbrev pub made_endpoint : Option ℕ → ℕ → Endpoint
made_endpoint sesskey a = record { id = 0; state = idle; socks = some a; sesskey = sesskey }

-- Three descriptors are kept in a new struct.
pub create_endpoint_made :
    (w : World) (a : ℕ) (sesskey : Option ℕ) (s : Sockets)
    → IsOpen s
    → create_endpoint true sesskey a s.tcp s.udp_uni s.udp_broad w
      ≡ some (some (made_endpoint sesskey a), record w { heap = update w.heap a (some s) })
unfolding create_endpoint create_sockets
create_endpoint_made w a sesskey s h = ground arith

-- An endpoint that is created with three descriptors above 0 is new; when it is freed, the memory is
-- as before, and just these three are closed.
pub create-free_endpoint :
    (w : World) (a : ℕ) (sesskey : Option ℕ) (s : Sockets)
    → w.heap a ≡ none
    → IsOpen s
    → (made : World) × (create_endpoint true sesskey a s.tcp s.udp_uni s.udp_broad w
        ≡ some (some (made_endpoint sesskey a), made))
      × (free_endpoint (made_endpoint sesskey a) made
          ≡ some ((true, none), record w { closed = w.closed ++ descriptors s }))
unfolding free_endpoint
create-free_endpoint w a sesskey s fresh h =
    let heap = update w.heap a (some s) in
    let freed = free_sockets_lem (record w { heap = heap }) a s (update_self w.heap a (some s)) h in
    (
      record w { heap = heap },
      create_endpoint_made w a sesskey s h,
      rw (◌>>=◌, freed, update-update w.heap a (some s) none, update_same w.heap a none fresh) refl,
    )

-- The descriptors of the calls of `socket` before the first that failed.
abbrev pub opened : ℤ → ℤ → ℤ → List ℤ
opened tcp udp_uni udp_broad =
    if ltb_ℤ tcp (pos 0) then [] else if ltb_ℤ udp_uni (pos 0) then tcp ∷ [] else tcp ∷ udp_uni ∷ []

-- Where one of the three calls of `socket` fails, no endpoint is made, and what the calls before it
-- opened is closed.
pub create_endpoint_fails :
    (w : World) (a : ℕ) (sesskey : Option ℕ) (tcp udp_uni udp_broad : ℤ)
    → (tcp <ℤ pos 0) ⊎ ((udp_uni <ℤ pos 0) ⊎ (udp_broad <ℤ pos 0))
    → create_endpoint true sesskey a tcp udp_uni udp_broad w
      ≡ some (none, record w { closed = w.closed ++ opened tcp udp_uni udp_broad })
unfolding create_endpoint create_sockets
create_endpoint_fails w a sesskey tcp udp_uni udp_broad h =
    ground (arith, append-nil w.closed, append_assoc w.closed (tcp ∷ []) (udp_uni ∷ []))
