-- ===== src/Corestack/Clients/Lookup.antt =====
-- What the list of clients contains: adding, looking up, and the array of identifiers.
use corestack_50005_htt.Prelude.{ℕ, zero, suc, ◌+◌, ◌-◌, ◌^◌, ◌<◌, ◌≤◌, ◌≡◌, refl, ap, ◌∙◌, arith}
use corestack_50005_htt.Prelude.{
  List, [], ◌∷◌, ◌++◌, map, length, length-append, Option, none, some,
}
use corestack_50005_htt.Prelude.{true, false, ==_refl, All, ◌≢◌}
use corestack_50005_htt.Corestack.Sockets.{Endpoint}
use corestack_50005_htt.Corestack.Clients.{ClientLinkedList, attach, add_to_list}
use corestack_50005_htt.Corestack.Clients.{find_node, get_from_list, write_ids, get_id_array}

-- `count` is the number of nodes, and a `uint32_t`.
abbrev pub IsCounted : ClientLinkedList → Type 0
IsCounted list = (list.count ≡ length list.head) × (list.count < 2 ^ 32)

abbrev pub Absent : ℕ → List Endpoint → Type 0
Absent id clients = All (λ c. c.id ≢ id) clients

pub attach_lem : (clients : List Endpoint) (c : Endpoint) → attach clients c ≡ clients ++ c ∷ []
attach_lem [] c = refl
attach_lem (x ∷ xs) c = ap (λ l. x ∷ l) (attach_lem xs c)

find_node-append :
    (xs ys : List Endpoint) (id : ℕ) → Absent id xs → find_node (xs ++ ys) id ≡ find_node ys id
find_node-append [] ys id h = refl
find_node-append (x ∷ xs) ys id h = grind (arith, h.0, find_node-append xs ys id h.1)

find_node_other :
    (xs : List Endpoint) (c : Endpoint) (id : ℕ)
    → id ≢ c.id
    → find_node (xs ++ c ∷ []) id ≡ find_node xs id
find_node_other [] c id h = grind arith
find_node_other (x ∷ xs) c id h = rw (find_node_other xs c id h) refl

-- A list that is not full takes a client: it is found under its identifier unless an earlier client
-- has the same one, and the other clients are found as before.
pub get_from_list-add_to_list :
    (list : ClientLinkedList) (c : Endpoint)
    → IsCounted list
    → list.count < 2 ^ 32 - 1
    → Absent c.id list.head
    → (next : ClientLinkedList) × (add_to_list list c ≡ (true, next))
      × IsCounted next
      × (get_from_list next c.id ≡ some c)
      × ((id : ℕ) → id ≢ c.id → get_from_list next id ≡ get_from_list list id)
unfolding add_to_list get_from_list
get_from_list-add_to_list list c h room new =
    let next : ClientLinkedList = record { head = attach list.head c; count = list.count + 1 } in
    let whole = attach_lem list.head c in
    let grown : length next.head ≡ length list.head + 1 =
      ap length whole ∙ length-append list.head (c ∷ []) in
    let found : find_node (c ∷ []) c.id ≡ some c = rw (==_refl c.id) refl in
    (
      next,
      ground (arith),
      (omega (arith, grown), omega (arith)),
      ap (λ l. find_node l c.id) whole ∙ find_node-append list.head (c ∷ []) c.id new ∙ found,
      λ id other. ap (λ l. find_node l id) whole ∙ find_node_other list.head c id other,
    )

-- The full list refuses a client.
pub add_to_list-full :
    (list : ClientLinkedList) (c : Endpoint)
    → list.count ≡ 2 ^ 32 - 1
    → add_to_list list c ≡ (false, list)
unfolding add_to_list
add_to_list-full list c h = ground arith

write_ids_lem :
    (clients : List Endpoint) (room : ℕ)
    → length clients ≤ room
    → write_ids clients room ≡ some (map (λ c. c.id) clients)
unfolding write_ids
write_ids_lem [] room h = refl
write_ids_lem (c ∷ clients) zero h = absurd (omega arith)
write_ids_lem (c ∷ clients) (suc room) h = rw (write_ids_lem clients room (omega arith)) refl

abbrev pub ids_of : List Endpoint → Option (List ℕ)
ids_of [] = none
ids_of (c ∷ clients) = some (c.id ∷ map (λ c. c.id) clients)

ids_of_lem :
    (clients : List Endpoint) (count : ℕ)
    → length clients ≤ count
    → get_id_array (record { head = clients; count = count }) ≡ some (ids_of clients)
unfolding get_id_array
ids_of_lem [] count h = refl
ids_of_lem (c ∷ clients) count h = rw (write_ids_lem (c ∷ clients) count h) refl

-- The array of the identifiers has a place for every client of a counted list, in the order of the
-- list, and no write goes behind it; the empty list gives -1.
pub get_id_array_lem :
    (list : ClientLinkedList) → IsCounted list → get_id_array list ≡ some (ids_of list.head)
get_id_array_lem list h = ids_of_lem list.head list.count (omega arith)
