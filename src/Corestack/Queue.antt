-- ===== src/Corestack/Queue.antt =====
-- corestack/include/utils/queue.h: the functions that `DEFINE_QUEUE(TYPE, NAME, MAX_SIZE)` defines,
-- for any type of elements and any size. `front` is one below the index of the first element.
pub mod Fifo
use package.corestack_50005_htt.Prelude.{ℕ, zero, suc, ◌+◌, Bool, true, false, ◌==◌, if◌then◌else◌}
use package.corestack_50005_htt.Prelude.{List, get_or, set, Option, none, some}
use package.corestack_50005_htt.Prelude.Int.{ℤ, pos, negsuc, pos_part, ◌+ℤ◌, eqb_ℤ}

pub record Queue {ℓ} (A : Type ℓ) : Type ℓ where
  pub items : List A
  pub front : ℤ
  pub rear : ℕ

module _ {ℓ} {A : Type ℓ} (max_size : ℕ) where
  -- `NAME_init` leaves the items as they are.
  unfoldable pub init : Queue A → Queue A
  init q = record q { front = negsuc 0; rear = 0 }

  unfoldable pub empty : Queue A → Bool
  empty q = eqb_ℤ q.front (pos q.rear +ℤ negsuc 0)

  unfoldable pub full : Queue A → Bool
  full q = q.rear == max_size

  unfoldable pub enqueue : Queue A → A → Queue A × Bool
  enqueue q value =
      if full q
      then (q, false)
      else (record q { items = set q.items q.rear value; rear = q.rear + 1 }, true)

  unfoldable pub dequeue : Queue A → Queue A × Bool
  dequeue q =
      let front = q.front +ℤ pos 1 in
      if empty q
      then (q, false)
      else if eqb_ℤ front (pos q.rear +ℤ negsuc 0)
      then (record q { front = negsuc 0; rear = 0 }, true)
      else (record q { front = front }, true)

  -- The element whose address `NAME_peek` returns; `none` is NULL. The default is never read in a
  -- queue that is sound.
  unfoldable pub peek : A → Queue A → Option A
  peek d q = if empty q then none else some (get_or q.items (pos_part (q.front +ℤ pos 1)) d)
