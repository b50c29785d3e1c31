-- ===== src/Corestack/Clients.antt =====
-- corestack/src/lib/libbattleroyale/clientll.c: the linked list of the clients of a server. The chain
-- of nodes, which only this list points to, is a list; the `Sockets` of the clients stay in memory.
pub mod Lookup
pub mod Removal
pub mod Freeing
mod Tests
use package.corestack_50005_htt.Prelude.{ℕ, zero, suc, ◌+◌, ◌-◌, ◌%◌, ◌^◌, Bool, true, false, ◌==◌}
use package.corestack_50005_htt.Prelude.{if◌then◌else◌, List, [], ◌∷◌, Option, none, some}
use mathlib.Core.Option
use package.corestack_50005_htt.Corestack.Sockets.{
  Endpoint, Act, pure, ◌>>=◌, free_sockets, close_sockets,
}

pub record ClientLinkedList : Type 0 where
  pub head : List Endpoint
  pub count : ℕ

abbrev pub initalise_list : ClientLinkedList
initalise_list = record { head = []; count = 0 }

-- The walk to the last node, and the new node behind it.
abbrev pub attach : List Endpoint → Endpoint → List Endpoint
attach [] client = client ∷ []
attach (node ∷ next) client = node ∷ attach next client

-- The first component is `true` for the return value 0 and `false` for -1, here and below.
pub add_to_list : ClientLinkedList → Endpoint → Bool × ClientLinkedList
add_to_list list client =
    if list.count == 2 ^ 32 - 1
    then (false, list)
    else (true, record { head = attach list.head client; count = list.count + 1 })

-- `count--` of a `uint32_t`.
abbrev pub decrement : ℕ → ℕ
decrement count = (count + (2 ^ 32 - 1)) % 2 ^ 32

-- The loop from the node `checking` on, which looks at the node behind it: what is left of the chain,
-- where there is a match.
unfoldable pub remove_next : Endpoint → List Endpoint → ℕ → Act (Option (List Endpoint))
remove_next checking [] id = pure none
remove_next checking (next ∷ rest) id =
    let later = remove_next next rest id in
    if next.id == id
    then (do
      (_, socks) ← free_sockets checking.socks
      pure (some (record checking { socks = socks } ∷ rest)))
    else (do
      found ← later
      elim found [ none ↦ pure none | some chain ↦ pure (some (checking ∷ chain)) ])

-- The second part of `remove_from_list`, for a head that does not match.
unfoldable pub remove_behind :
    ClientLinkedList → Endpoint → List Endpoint → ℕ → Act (Bool × ClientLinkedList)
remove_behind list head rest id = do
  found ← remove_next head rest id
  elim found [
    | none ↦ pure (false, list)
    | some chain ↦ pure (true, record { head = chain; count = decrement list.count })
  ]

unfoldable pub remove_nodes : ClientLinkedList → List Endpoint → ℕ → Act (Bool × ClientLinkedList)
remove_nodes list [] id = pure (false, list)
remove_nodes list (head ∷ rest) id =
    if head.id == id
    then (do
      _ ← free_sockets head.socks
      pure (true, record { head = rest; count = decrement list.count }))
    else remove_behind list head rest id

unfoldable pub remove_from_list : ClientLinkedList → ℕ → Act (Bool × ClientLinkedList)
remove_from_list list id = remove_nodes list list.head id

-- The client that is copied to the return buffer; `none` is the return value -1.
abbrev pub find_node : List Endpoint → ℕ → Option Endpoint
find_node [] id = none
find_node (checking ∷ next) id = if checking.id == id then some checking else find_node next id

pub get_from_list : ClientLinkedList → ℕ → Option Endpoint
get_from_list list id = find_node list.head id

-- The loop of `get_id_array`, with `room` places left in the array: `none` where it writes behind them.
unfoldable pub write_ids : List Endpoint → ℕ → Option (List ℕ)
write_ids [] room = some []
write_ids (node ∷ next) zero = none
write_ids (node ∷ next) (suc room) = Option.map (λ ids. node.id ∷ ids) (write_ids next room)

-- The inner `none` is the return value -1 for an empty list.
pub get_id_array : ClientLinkedList → Option (Option (List ℕ))
get_id_array list = elim list.head [
  | [] ↦ some none
  | _ ∷ _ ↦ Option.map some (write_ids list.head list.count)
]

-- The nodes are freed one by one, after their sockets are closed.
unfoldable pub free_nodes : List Endpoint → Act Bool
free_nodes [] = pure true
free_nodes (current ∷ next) =
    let rest = free_nodes next in
    do ok ← close_sockets current.socks; if ok then rest else pure false

unfoldable pub free_list : ClientLinkedList → Act Bool
free_list list = free_nodes list.head
