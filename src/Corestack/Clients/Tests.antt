-- ===== src/Corestack/Clients/Tests.antt =====
-- A list of two clients.
use corestack_50005_htt.Prelude.{◌≡◌, refl, arith, true, ◌==◌, if◌then◌else◌}
use corestack_50005_htt.Prelude.{[], ◌∷◌, ◌++◌, none, some}
use corestack_50005_htt.Prelude.Int.{pos}
use corestack_50005_htt.Corestack.Sockets.{Endpoint, World, Sockets, idle, lobby, update, ◌>>=◌}
use corestack_50005_htt.Corestack.Sockets.Life.{descriptors}
use corestack_50005_htt.Corestack.Clients.{ClientLinkedList}
use corestack_50005_htt.Corestack.Clients.{remove_from_list, free_list, decrement}
use corestack_50005_htt.Corestack.Clients.Removal.{remove_from_list_lem, without_socks}
use corestack_50005_htt.Corestack.Clients.Freeing.{free_list-remove_from_list}

abbrev low : Sockets
low = record { tcp = pos 4; udp_uni = pos 5; udp_broad = pos 6 }

abbrev high : Sockets
high = record { tcp = pos 7; udp_uni = pos 8; udp_broad = pos 9 }

abbrev ann : Endpoint
ann = record { id = 1; state = lobby; socks = some 100; sesskey = none }

abbrev bob : Endpoint
bob = record { id = 2; state = idle; socks = some 200; sesskey = none }

abbrev world : World
world = record {
  heap = λ a. if a == 100 then some low else if a == 200 then some high else none;
  closed = [];
}

abbrev both : ClientLinkedList
both = record { head = ann ∷ bob ∷ []; count = 2 }

abbrev alone : ClientLinkedList
alone = record { head = ann ∷ []; count = 1 }

remove_from_list_lem_example :
    remove_from_list both 2 world
    ≡ some (
      (true, record { head = without_socks ann ∷ []; count = decrement 2 }),
      record { heap = update world.heap 100 none; closed = world.closed ++ descriptors low },
    )
remove_from_list_lem_example =
    remove_from_list_lem [] ann bob [] 2 world 100 low (omega arith, tt) refl refl
      (omega arith, omega arith, omega arith)

free_list-remove_from_list_example :
    (remove_from_list both 2 >>= λ removed. free_list removed.1) world ≡ none
free_list-remove_from_list_example =
    free_list-remove_from_list [] ann bob [] 2 world 100 low [] (omega arith, tt) refl refl
      (omega arith, omega arith, omega arith) refl
