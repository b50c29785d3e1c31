-- ===== src/Corestack/Clients/Freeing.antt =====
-- Freeing the list of clients.
use corestack_50005_htt.Prelude.{ℕ, ◌≡◌, refl, sym, ap, ◌∙◌}
use corestack_50005_htt.Prelude.{List, [], ◌∷◌, ◌++◌, append_assoc, append-nil}
use corestack_50005_htt.Prelude.{none, some, true}
use corestack_50005_htt.Corestack.Sockets.{Endpoint, World, Sockets, ◌>>=◌, update, close_sockets}
use corestack_50005_htt.Prelude.Int.{ℤ}
use corestack_50005_htt.Corestack.Sockets.{closed_sockets}
use corestack_50005_htt.Corestack.Sockets.Life.{IsOpen, descriptors, close_sockets_lem}
use corestack_50005_htt.Corestack.Clients.{
  ClientLinkedList, remove_from_list, free_nodes, free_list,
}
use corestack_50005_htt.Corestack.Clients.Lookup.{Absent}
use corestack_50005_htt.Corestack.Clients.Removal.{without_socks, remove_from_list_lem}

-- The sockets `s` at the address `a` are closed.
abbrev pub closed_at : World → ℕ → Sockets → World
closed_at w a s = record {
  heap = update w.heap a (some closed_sockets);
  closed = w.closed ++ descriptors s;
}

-- When its turn comes, each client has the open sockets that the second list names.
abbrev pub Closable : World → List Endpoint → List Sockets → Type 0
Closable w [] ss = ss ≡ []
Closable w (c ∷ clients) [] = ⊥
Closable w (c ∷ clients) (s ∷ ss) =
    (a : ℕ) × (c.socks ≡ some a)
    × (w.heap a ≡ some s)
    × IsOpen s
    × Closable (closed_at w a s) clients ss

abbrev pub all_descriptors : List Sockets → List ℤ
all_descriptors [] = []
all_descriptors (s ∷ ss) = descriptors s ++ all_descriptors ss

free_nodes_lem :
    (clients rest : List Endpoint) (ss : List Sockets) (w : World)
    → Closable w clients ss
    → (next : World) × (free_nodes (clients ++ rest) w ≡ free_nodes rest next)
      × (next.closed ≡ w.closed ++ all_descriptors ss)
unfolding free_nodes
free_nodes_lem [] rest ss w h = (w, refl, rw (h, append-nil w.closed) refl)
free_nodes_lem (c ∷ clients) rest [] w h = absurd h
free_nodes_lem (c ∷ clients) rest (s ∷ ss) w (a, own, live, good, later) =
    let (next, run, all) = free_nodes_lem clients rest ss (closed_at w a s) later in
    (
      next,
      rw (◌>>=◌, own, close_sockets_lem w a s live good) run,
      all ∙ append_assoc w.closed (descriptors s) (all_descriptors ss),
    )

free_nodes-nil : (w : World) → free_nodes [] w ≡ some (true, w)
unfolding free_nodes
free_nodes-nil w = refl

free_nodes-null :
    (c : Endpoint) (rest : List Endpoint) (w : World) → free_nodes (without_socks c ∷ rest) w ≡ none
unfolding free_nodes close_sockets
free_nodes-null c rest w = refl

-- The list is freed when every client has open sockets of its own, and all of them are closed, in the
-- order of the list.
pub free_list_lem :
    (list : ClientLinkedList) (ss : List Sockets) (w : World)
    → Closable w list.head ss
    → (next : World) × (free_list list w ≡ some (true, next))
      × (next.closed ≡ w.closed ++ all_descriptors ss)
unfolding free_list
free_list_lem list ss w h =
    let (next, run, all) = free_nodes_lem list.head [] ss w h in
    (next, ap (λ l. free_nodes l w) (sym (append-nil list.head)) ∙ run ∙ free_nodes-nil next, all)

-- After the removal of a client behind the head the list cannot be freed: when the turn of the client
-- that stood in front of it comes, its NULL pointer is read.
pub free_list-remove_from_list :
    (p : List Endpoint) (prev c : Endpoint) (rest : List Endpoint) (count : ℕ) (w : World) (a : ℕ)
    (s : Sockets) (ss : List Sockets)
    → Absent c.id (p ++ prev ∷ [])
    → prev.socks ≡ some a
    → w.heap a ≡ some s
    → IsOpen s
    → Closable (record { heap = update w.heap a none; closed = w.closed ++ descriptors s }) p ss
    → (remove_from_list (record { head = p ++ (prev ∷ c ∷ rest); count = count }) c.id
          >>= λ removed. free_list removed.1)
        w
      ≡ none
unfolding free_list
free_list-remove_from_list p prev c rest count w a s ss new own live good turns =
    let after : World = record {
      heap = update w.heap a none;
      closed = w.closed ++ descriptors s;
    } in
    let (next, run, _) = free_nodes_lem p (without_socks prev ∷ rest) ss after turns in
    rw (◌>>=◌, remove_from_list_lem p prev c rest count w a s new own live good)
      (run ∙ free_nodes-null prev rest next)
