-- ===== src/Corestack/Queue/Fifo.antt =====
-- The queue of queue.h against a list: first in, first out.
use corestack_50005_htt.Prelude.{ℕ, zero, suc, ◌+◌, ◌-◌, ◌≤◌, ◌<◌, ◌≡◌, refl, sym, ap, ◌∙◌}
use corestack_50005_htt.Prelude.{true, false, Bool-cases, inl, inr, arith, ◌==◌}
use corestack_50005_htt.Prelude.{List, [], ◌∷◌, ◌++◌, length, get_or, set, take, drop, length-set}
use corestack_50005_htt.Prelude.{none, some, drop-cons_get}
use corestack_50005_htt.Prelude.Int.{ℤ, pos, negsuc, pos_part, neg_part, ◌+ℤ◌, eqb_ℤ}
use corestack_50005_htt.Corestack.Queue.{Queue, init, empty, full, enqueue, dequeue, peek}

-- The index of the first element.
abbrev pub head {ℓ} : {A : Type ℓ} → Queue A → ℕ
head q = pos_part (q.front +ℤ pos 1)

-- The elements between the two indices, the oldest first.
abbrev pub contents {ℓ} : {A : Type ℓ} → Queue A → List A
contents q = take (q.rear - head q) (drop (head q) q.items)

pub record IsQueue {ℓ} {A : Type ℓ} (max_size : ℕ) (q : Queue A) : Type 0 where
  pub places : length q.items ≡ max_size
  pub low : neg_part q.front ≤ 1
  pub order : head q ≤ q.rear
  pub bound : q.rear ≤ max_size

-- The tests of `empty` and of the reset in `dequeue`, on the index of the first element.
front_next : (f : ℤ) → neg_part f ≤ 1 → neg_part (f +ℤ pos 1) ≡ 0
unfolding ◌+ℤ◌
front_next f h = ground arith

not_empty :
    (f : ℤ) (r : ℕ)
    → neg_part f ≤ 1
    → pos_part (f +ℤ pos 1) < r
    → eqb_ℤ f (pos r +ℤ negsuc 0) ≡ false
unfolding ◌+ℤ◌
not_empty f r h lt = ground arith

at_rear :
    (f : ℤ) (r : ℕ)
    → neg_part f ≤ 1
    → pos_part (f +ℤ pos 1) ≡ r
    → eqb_ℤ f (pos r +ℤ negsuc 0) ≡ true
unfolding ◌+ℤ◌
at_rear f r h e = ground arith

last_one :
    (f : ℤ) (r : ℕ)
    → neg_part f ≤ 1
    → pos_part (f +ℤ pos 1) < r
    → eqb_ℤ (f +ℤ pos 1) (pos r +ℤ negsuc 0) ≡ (pos_part (f +ℤ pos 1) + 1 == r)
unfolding ◌+ℤ◌
last_one f r h lt = ground arith

next_head : (f : ℤ) → neg_part f ≤ 1 → pos_part (f +ℤ pos 1 +ℤ pos 1) ≡ pos_part (f +ℤ pos 1) + 1
unfolding ◌+ℤ◌
next_head f h = ground arith

next_zero : pos_part (negsuc 0 +ℤ pos 1) ≤ 0
unfolding ◌+ℤ◌
next_zero = omega arith

module _ {ℓ} {A : Type ℓ} where
  -- A write just behind a window of a list puts the element at its end.
  window_set :
      (h n k : ℕ) (l : List A) (v : A)
      → k ≡ h + n
      → k < length l
      → take (suc n) (drop h (set l k v)) ≡ take n (drop h l) ++ v ∷ []
  window_set h n k [] v e lt = absurd (omega arith)
  window_set zero zero zero (x ∷ l) v e lt = refl
  window_set zero (suc n) (suc k) (x ∷ l) v e lt =
      ap (λ t. x ∷ t) (window_set zero n k l v (omega arith) (omega arith))
  window_set (suc h) n (suc k) (x ∷ l) v e lt = window_set h n k l v (omega arith) (omega arith)
  window_set h n k (x ∷ l) v e lt = absurd (omega arith)

  -- For a queue that is not full, `enqueue` succeeds and puts the value behind the contents.
  pub enqueue_lem :
      (max_size : ℕ) (q : Queue A) (v : A)
      → IsQueue max_size q
      → q.rear < max_size
      → let (q', done) = enqueue max_size q v in
        IsQueue max_size q' × (done ≡ true) × (contents q' ≡ contents q ++ v ∷ [])
  unfolding enqueue full
  enqueue_lem max_size q v w lt =
      let room : (q.rear == max_size) ≡ false = ground arith in
      let size : q.rear + 1 - head q ≡ suc (q.rear - head q) = omega (arith, w.order) in
      rw room (
        record {
          places = length-set q.items q.rear v ∙ w.places;
          low = w.low;
          order = omega (arith, w.order);
          bound = omega arith;
        },
        refl,
        ap (λ n. take n (drop (head q) (set q.items q.rear v))) size
            ∙ window_set (head q) (q.rear - head q) q.rear q.items v (omega (arith, w.order))
                (omega (arith, w.places)),
      )

  -- The contents of a queue whose first index is below its rear.
  contents-cons :
      (max_size : ℕ) (d : A) (q : Queue A)
      → IsQueue max_size q
      → head q < q.rear
      → contents q
        ≡ get_or q.items (head q) d ∷ take (q.rear - (head q + 1)) (drop (head q + 1) q.items)
  contents-cons max_size d q w lt =
      let size : q.rear - head q ≡ suc (q.rear - (head q + 1)) = omega arith in
      let next : suc (head q) ≡ head q + 1 = omega arith in
      rw (size, drop-cons_get d (head q) q.items (omega (arith, w.places, w.bound)))
        (ap (λ n. get_or q.items (head q) d ∷ take (q.rear - (head q + 1)) (drop n q.items)) next)

  -- The queue of `init` and of a reset has no contents.
  contents-reset : (q : Queue A) → contents (record q { front = negsuc 0; rear = 0 }) ≡ []
  unfolding ◌+ℤ◌
  contents-reset q = refl

  -- An initialised queue is sound and has no contents.
  pub init_lem :
      (max_size : ℕ) (q : Queue A)
      → length q.items ≡ max_size
      → IsQueue max_size (init max_size q) × (contents (init max_size q) ≡ [])
  unfolding init
  init_lem max_size q h = (
    record { places = h; low = omega arith; order = next_zero; bound = omega arith },
    contents-reset q,
  )

  -- For a queue whose first index is below its rear, `peek` gives the first element of the contents,
  -- and `dequeue` succeeds and takes it away.
  pub dequeue_lem :
      (max_size : ℕ) (d : A) (q : Queue A)
      → IsQueue max_size q
      → head q < q.rear
      → let (q', done) = dequeue max_size q in
        IsQueue max_size q'
        × (done ≡ true)
        × (contents q ≡ get_or q.items (head q) d ∷ contents q')
        × (peek max_size d q ≡ some (get_or q.items (head q) d))
  unfolding dequeue peek empty
  dequeue_lem max_size d q w lt =
      let some_left = not_empty q.front q.rear w.low lt in
      let test = last_one q.front q.rear w.low lt in
      let whole = contents-cons max_size d q w lt in
      elim (Bool-cases (head q + 1 == q.rear)) [
        | inl e ↦
            let none_left : q.rear - (head q + 1) ≡ 0 = ground arith in
            rw (some_left, test, e)
              (
                record {
                  places = w.places;
                  low = omega arith;
                  order = next_zero;
                  bound = omega arith;
                },
                refl,
                whole
                    ∙ ap (λ n. get_or q.items (head q) d ∷ take n (drop (head q + 1) q.items))
                        none_left
                    ∙ ap (λ l. get_or q.items (head q) d ∷ l) (sym (contents-reset q)),
                refl,
              )
        | inr e ↦
            rw (some_left, test, e)
              (
                record {
                  places = w.places;
                  low = omega (arith, front_next q.front w.low);
                  order = ground (arith, next_head q.front w.low);
                  bound = w.bound;
                },
                refl,
                whole
                    ∙ ap (λ n. get_or q.items (head q) d ∷ take (q.rear - n) (drop n q.items))
                        (sym (next_head q.front w.low)),
                refl,
              )
      ]

  -- At the rear nothing is left: `peek` gives NULL, and a full queue refuses an element.
  pub peek-empty :
      (max_size : ℕ) (d : A) (q : Queue A)
      → IsQueue max_size q
      → head q ≡ q.rear
      → (contents q ≡ []) × (peek max_size d q ≡ none)
  unfolding peek empty
  peek-empty max_size d q w e =
      let test = at_rear q.front q.rear w.low e in
      let none_left : q.rear - head q ≡ 0 = omega arith in
      (ap (λ n. take n (drop (head q) q.items)) none_left, rw test refl)

  pub enqueue-full :
      (max_size : ℕ) (q : Queue A) (v : A) → q.rear ≡ max_size → enqueue max_size q v ≡ (q, false)
  unfolding enqueue full
  enqueue-full max_size q v e =
      let test : (q.rear == max_size) ≡ true = ground arith in rw test refl
