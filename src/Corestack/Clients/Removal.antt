-- ===== src/Corestack/Clients/Removal.antt =====
-- Removing a client from the list, and freeing the list.
use corestack_50005_htt.Prelude.{ℕ, ◌≡◌, refl, arith}
use corestack_50005_htt.Prelude.{List, [], ◌∷◌, ◌++◌}
use corestack_50005_htt.Prelude.{none, some, true, false, ◌==◌, ==_refl, ◌≢◌}
use corestack_50005_htt.Corestack.Sockets.{Endpoint, World, Sockets, ◌>>=◌, update}
use corestack_50005_htt.Corestack.Sockets.Life.{IsOpen, descriptors, free_sockets_lem}
use corestack_50005_htt.Corestack.Clients.{ClientLinkedList, decrement, remove_next, remove_behind}
use corestack_50005_htt.Corestack.Clients.{remove_nodes, remove_from_list}
use corestack_50005_htt.Corestack.Clients.Lookup.{Absent}

-- The test of an identifier that differs.
id_differs : (a b : ℕ) → a ≢ b → (a == b) ≡ false
id_differs a b h = grind arith

remove_next-Absent :
    (checking : Endpoint) (next : List Endpoint) (id : ℕ) (w : World)
    → Absent id next
    → remove_next checking next id w ≡ some (none, w)
unfolding remove_next
remove_next-Absent checking [] id w h = refl
remove_next-Absent checking (c ∷ next) id w h =
    rw (id_differs c.id id h.0, ◌>>=◌, remove_next-Absent c next id w h.1) refl

remove_nodes-Absent :
    (list : ClientLinkedList) (nodes : List Endpoint) (id : ℕ) (w : World)
    → Absent id nodes
    → remove_nodes list nodes id w ≡ some ((false, list), w)
unfolding remove_nodes remove_behind
remove_nodes-Absent list [] id w h = refl
remove_nodes-Absent list (c ∷ nodes) id w h =
    rw (id_differs c.id id h.0, ◌>>=◌, remove_next-Absent c nodes id w h.1) refl

-- An identifier that no client has is an error, and neither the list nor the sockets change.
pub remove_from_list-Absent :
    (list : ClientLinkedList) (id : ℕ) (w : World)
    → Absent id list.head
    → remove_from_list list id w ≡ some ((false, list), w)
unfolding remove_from_list
remove_from_list-Absent list id w h = remove_nodes-Absent list list.head id w h

-- The head is removed with its own sockets.
pub remove_from_list-head :
    (c : Endpoint) (rest : List Endpoint) (count : ℕ) (w : World) (a : ℕ) (s : Sockets)
    → c.socks ≡ some a
    → w.heap a ≡ some s
    → IsOpen s
    → remove_from_list (record { head = c ∷ rest; count = count }) c.id w
      ≡ some (
        (true, record { head = rest; count = decrement count }),
        record { heap = update w.heap a none; closed = w.closed ++ descriptors s },
      )
unfolding remove_from_list remove_nodes
remove_from_list-head c rest count w a s own live h =
    rw (==_refl c.id, ◌>>=◌, own, free_sockets_lem w a s live h) refl

-- The node `c` without its sockets.
abbrev pub without_socks : Endpoint → Endpoint
without_socks c = record c { socks = none }

remove_next_lem :
    (checking : Endpoint) (p : List Endpoint) (prev c : Endpoint) (rest : List Endpoint) (w : World)
    (a : ℕ) (s : Sockets)
    → Absent c.id (p ++ prev ∷ [])
    → prev.socks ≡ some a
    → w.heap a ≡ some s
    → IsOpen s
    → remove_next checking (p ++ (prev ∷ c ∷ rest)) c.id w
      ≡ some (
        some (checking ∷ (p ++ (without_socks prev ∷ rest))),
        record { heap = update w.heap a none; closed = w.closed ++ descriptors s },
      )
unfolding remove_next
remove_next_lem checking [] prev c rest w a s new own live h =
    rw (id_differs prev.id c.id new.0, ==_refl c.id, ◌>>=◌, own, free_sockets_lem w a s live h) refl
remove_next_lem checking (x ∷ p) prev c rest w a s new own live h =
    rw (id_differs x.id c.id new.0, ◌>>=◌, remove_next_lem x p prev c rest w a s new.1 own live h)
      refl

remove_next_here :
    (prev c : Endpoint) (rest : List Endpoint) (w : World) (a : ℕ) (s : Sockets)
    → prev.socks ≡ some a
    → w.heap a ≡ some s
    → IsOpen s
    → remove_next prev (c ∷ rest) c.id w
      ≡ some (
        some (without_socks prev ∷ rest),
        record { heap = update w.heap a none; closed = w.closed ++ descriptors s },
      )
unfolding remove_next
remove_next_here prev c rest w a s own live h =
    rw (==_refl c.id, ◌>>=◌, own, free_sockets_lem w a s live h) refl

-- A client behind the head is removed from the list, and the count goes down by one, but the sockets
-- that are closed and freed are those of the client in front of it, which keeps its place and has no
-- sockets afterwards.
pub remove_from_list_lem :
    (p : List Endpoint) (prev c : Endpoint) (rest : List Endpoint) (count : ℕ) (w : World) (a : ℕ)
    (s : Sockets)
    → Absent c.id (p ++ prev ∷ [])
    → prev.socks ≡ some a
    → w.heap a ≡ some s
    → IsOpen s
    → remove_from_list (record { head = p ++ (prev ∷ c ∷ rest); count = count }) c.id w
      ≡ some (
        (true, record { head = p ++ (without_socks prev ∷ rest); count = decrement count }),
        record { heap = update w.heap a none; closed = w.closed ++ descriptors s },
      )
unfolding remove_from_list remove_nodes remove_behind
remove_from_list_lem [] prev c rest count w a s new own live h =
    rw (id_differs prev.id c.id new.0, ◌>>=◌, remove_next_here prev c rest w a s own live h) refl
remove_from_list_lem (x ∷ p) prev c rest count w a s new own live h =
    rw (id_differs x.id c.id new.0, ◌>>=◌, remove_next_lem x p prev c rest w a s new.1 own live h)
      refl
