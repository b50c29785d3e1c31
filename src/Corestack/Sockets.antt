-- ===== src/Corestack/Sockets.antt =====
-- corestack/src/lib/libbattleroyale/common.c: the sockets of an endpoint. What `malloc` and `socket`
-- return is a parameter. An action on the memory of `Sockets` structs fails where C is undefined:
-- at a NULL pointer and at one whose struct has been freed.
pub mod Life
use package.corestack_50005_htt.Prelude.{ℕ, Bool, true, false, ◌&&◌, ◌==◌, if◌then◌else◌}
use package.corestack_50005_htt.Prelude.{List, [], ◌∷◌, ◌++◌, Option, none, some}
use package.corestack_50005_htt.Prelude.Int.{ℤ, pos, negsuc, ltb_ℤ}

pub record Sockets : Type 0 where
  pub tcp : ℤ
  pub udp_uni : ℤ
  pub udp_broad : ℤ

-- The live structs by their address, and the descriptors that were closed, in order.
pub record World : Type 0 where
  pub heap : ℕ → Option Sockets
  pub closed : List ℤ

abbrev pub Act : Type 0 → Type 0
Act A = World → Option (A × World)

abbrev pub pure : {A : Type 0} → A → Act A
pure a w = some (a, w)

infixl 5 ◌>>=◌ ◌>>◌
abbrev pub ◌>>=◌ : {A B : Type 0} → Act A → (A → Act B) → Act B
◌>>=◌ m f w = elim (m w) [ none ↦ none | some (a, next) ↦ f a next ]

abbrev pub ◌>>◌ : {B : Type 0} → Act (Unit {0}) → Act B → Act B
m >> k = m >>= λ _. k

abbrev pub update : (ℕ → Option Sockets) → ℕ → Option Sockets → ℕ → Option Sockets
update heap a s b = if b == a then s else heap b

-- A pointer is an address or NULL.
abbrev pub load : Option ℕ → Act Sockets
load none w = none
load (some a) w = elim (w.heap a) [ none ↦ none | some s ↦ some (s, w) ]

abbrev pub put : ℕ → Option Sockets → Act (Unit {0})
put a s w = some (tt, record w { heap = update w.heap a s })

-- Writing through a pointer, or freeing it, at an address that was loaded before.
abbrev pub put_at : Option ℕ → Option Sockets → Act (Unit {0})
put_at none s w = none
put_at (some a) s w = put a s w

abbrev pub close : ℤ → Act (Unit {0})
close fd w = some (tt, record w { closed = w.closed ++ fd ∷ [] })

pub check_sockets : Sockets → Bool
check_sockets socks =
    ltb_ℤ (pos 0) socks.tcp && ltb_ℤ (pos 0) socks.udp_uni && ltb_ℤ (pos 0) socks.udp_broad

abbrev pub closed_sockets : Sockets
closed_sockets = record { tcp = negsuc 0; udp_uni = negsuc 0; udp_broad = negsuc 0 }

-- `true` is the return value 0 and `false` is -1, here and below. The three fields are set to -1 one
-- by one as they are closed.
unfoldable pub close_sockets : Option ℕ → Act Bool
close_sockets socks = do
  s ← load socks
  if check_sockets s
      then (do
        close s.tcp
        close s.udp_uni
        close s.udp_broad
        put_at socks (some closed_sockets)
        pure true)
      else pure false

-- The second component is `*socks` afterwards.
unfoldable pub free_sockets : Option ℕ → Act (Bool × Option ℕ)
free_sockets socks = do
  ok ← close_sockets socks
  if ok then (do put_at socks none; pure (true, none)) else pure (false, socks)

-- `a` is the address that `malloc` returns, and the others what the three calls of `socket` return.
-- The result is the new `*socks`, where there is one.
unfoldable pub create_sockets : ℕ → ℤ → ℤ → ℤ → Act (Option ℕ)
create_sockets a tcp udp_uni udp_broad =
    if ltb_ℤ tcp (pos 0)
    then pure none
    else if ltb_ℤ udp_uni (pos 0)
    then (do close tcp; pure none)
    else if ltb_ℤ udp_broad (pos 0)
    then (do close tcp; close udp_uni; pure none)
    else (do
      put a (some (record { tcp = tcp; udp_uni = udp_uni; udp_broad = udp_broad }))
      pure (some a))

-- `EndpointState` of common.h
pub data EndpointState : Type 0 where
  idle : EndpointState
  lobby : EndpointState
  game : EndpointState
  end : EndpointState

-- The key is a pointer that the functions of this file and of the list only copy.
pub record Endpoint : Type 0 where
  pub id : ℕ
  pub state : EndpointState
  pub socks : Option ℕ
  pub sesskey : Option ℕ

-- `allocated` says whether the first `malloc` succeeds, and `sesskey` is what stands in its memory.
unfoldable pub create_endpoint : Bool → Option ℕ → ℕ → ℤ → ℤ → ℤ → Act (Option Endpoint)
create_endpoint allocated sesskey a tcp udp_uni udp_broad =
    if allocated
    then (do
      socks ← create_sockets a tcp udp_uni udp_broad
      elim socks [
        | none ↦ pure none
        | some p ↦ pure (some (record { id = 0; state = idle; socks = some p; sesskey = sesskey }))
      ])
    else pure none

-- The second component is `*endpt` afterwards.
unfoldable pub free_endpoint : Endpoint → Act (Bool × Option Endpoint)
free_endpoint endpt = do
  (ok, socks) ← free_sockets endpt.socks
  if ok then pure (true, none) else pure (false, some (record endpt { socks = socks }))
