-- ===== src/Bomb/Protocol/Snapshot/Loops.antt =====
-- The loops over the entries: what they write is one copy, and what they read is what was written.
use corestack_50005_htt.Prelude.{ℕ, zero, suc, ◌+◌, ◌*◌, ◌≤◌, ◌≡◌, refl, sym, ap, ap₂, ◌∙◌, arith}
use corestack_50005_htt.Prelude.{List, [], ◌∷◌, ◌++◌, length, get_or, take, drop, append_assoc}
use corestack_50005_htt.Prelude.{length-append, store, store-nil, store-store, drop-append_at, All}
use corestack_50005_htt.Prelude.{
  take-append-drop, length-take, set_next, get_or-append_mid, length-store,
}
use corestack_50005_htt.Bomb.Protocol.Snapshot.{write_entries, read_entries}

-- All the bytes of a list of entries.
abbrev pub bytes_of {ℓ} : {A : Type ℓ} → (A → List ℕ) → List A → List ℕ
bytes_of bytes [] = []
bytes_of bytes (a ∷ w) = bytes a ++ bytes_of bytes w

pub length-bytes_of {ℓ} :
    {A : Type ℓ} (size : ℕ) (bytes : A → List ℕ) (w : List A)
    → ((a : A) → length (bytes a) ≡ size)
    → length (bytes_of bytes w) ≡ length w * size
length-bytes_of size bytes [] sized = omega arith
length-bytes_of size bytes (a ∷ w) sized =
    ground (
      arith,
      length-append (bytes a) (bytes_of bytes w),
      sized a,
      length-bytes_of size bytes w sized,
    )

module _ {ℓ} {A : Type ℓ} (size : ℕ) (bytes : A → List ℕ) (d : A)
    (sized : (a : A) → length (bytes a) ≡ size) where
  write_entries-nil :
      (buffer : List ℕ) (out : ℕ)
      → ◌≡◌ {A = List ℕ × ℕ} (buffer, out) (store buffer out [], out + 0)
  write_entries-nil buffer out =
      ap₂ (λ (b : List ℕ) (n : ℕ). (b, n)) (sym (store-nil buffer out)) (omega arith)

  -- The entries `w` that stand behind `i` others are copied one after the other.
  pub write_entries_lem :
      (n i : ℕ) (u w r : List A) (buffer : List ℕ) (out : ℕ)
      → length u ≡ i
      → length w ≡ n
      → out + length (bytes_of bytes w) ≤ length buffer
      → write_entries size bytes d n i (u ++ (w ++ r)) buffer out
        ≡ (store buffer out (bytes_of bytes w), out + length (bytes_of bytes w))
  unfolding write_entries
  write_entries_lem zero i u [] r buffer out hu hw fits = write_entries-nil buffer out
  write_entries_lem zero i u (a ∷ w) r buffer out hu hw fits = absurd (omega arith)
  write_entries_lem (suc n) i u [] r buffer out hu hw fits = absurd (omega arith)
  write_entries_lem (suc n) i u (a ∷ w) r buffer out hu hw fits =
      let read : get_or (u ++ a ∷ (w ++ r)) i d ≡ a =
        rw (← hu) (get_or-append_mid u a (w ++ r) d) in
      let both = length-append (bytes a) (bytes_of bytes w) in
      let room : out + length (bytes a) ≤ length buffer = omega (arith, both) in
      rw (read, ← append_assoc u (a ∷ []) (w ++ r))
        (write_entries_lem n (i + 1) (u ++ a ∷ []) w r (store buffer out (bytes a)) (out + size)
            (omega (arith, length-append u (a ∷ []))) (omega arith)
            (omega (arith, both, sized a, length-store buffer out (bytes a) room))
          ∙ ap₂ (λ (b : List ℕ) (k : ℕ). (b, k))
              (store-store buffer out (out + size) (bytes a) (bytes_of bytes w)
                (omega (arith, sized a)) (omega (arith, both, sized a)))
              (omega (arith, both, sized a)))

  -- From the first entry on.
  pub write_entries_first :
      (n : ℕ) (xs : List A) (buffer : List ℕ) (out : ℕ)
      → n ≤ length xs
      → out + n * size ≤ length buffer
      → write_entries size bytes d n 0 xs buffer out
        ≡ (store buffer out (bytes_of bytes (take n xs)), out + n * size)
  write_entries_first n xs buffer out h fits =
      let w = take n xs in
      let many : length w ≡ n = length-take n xs h in
      let sum : out + length (bytes_of bytes w) ≡ out + n * size =
        ap (λ k. out + k) (length-bytes_of size bytes w sized) ∙ ap (λ k. out + k * size) many in
      let room : out + length (bytes_of bytes w) ≤ length buffer = omega (arith, sum) in
      ap (λ l. write_entries size bytes d n 0 l buffer out) (sym (take-append-drop n xs))
      ∙ write_entries_lem n 0 [] w (drop n xs) buffer out refl many room
      ∙ ap (λ k. (store buffer out (bytes_of bytes w), k)) sum

module _ {ℓ} {A : Type ℓ} (size : ℕ) (bytes : A → List ℕ) (read : List ℕ → A) (Good : A → Type 0)
    (sized : (a : A) → length (bytes a) ≡ size)
    (reads : (a : A) (rest : List ℕ) → Good a → read (bytes a ++ rest) ≡ a) where
  -- Entries that were written are read into the places from `i` on, and the other places are left.
  pub read_entries_lem :
      (n i : ℕ) (w p q r : List A) (rest : List ℕ)
      → length p ≡ i
      → length q ≡ n
      → length w ≡ n
      → All Good w
      → read_entries size read n i (bytes_of bytes w ++ rest) (p ++ (q ++ r))
        ≡ (p ++ (w ++ r), rest)
  unfolding read_entries
  read_entries_lem zero i [] p [] r rest hp hq hw g = refl
  read_entries_lem zero i (a ∷ w) p q r rest hp hq hw g = absurd (omega arith)
  read_entries_lem zero i w p (x ∷ q) r rest hp hq hw g = absurd (omega arith)
  read_entries_lem (suc n) i [] p q r rest hp hq hw g = absurd (omega arith)
  read_entries_lem (suc n) i w p [] r rest hp hq hw g = absurd (omega arith)
  read_entries_lem (suc n) i (a ∷ w) p (x ∷ q) r rest hp hq hw g =
      let next : drop size (bytes a ++ (bytes_of bytes w ++ rest)) ≡ bytes_of bytes w ++ rest =
        drop-append_at size (bytes a) (bytes_of bytes w ++ rest) (sized a) in
      rw
        (
          append_assoc (bytes a) (bytes_of bytes w) rest,
          next,
          reads a (bytes_of bytes w ++ rest) g.0,
          set_next a p x a (q ++ r) i (omega arith),
        )
        (read_entries_lem n (i + 1) w (p ++ a ∷ []) q r rest
            (omega (arith, length-append p (a ∷ []))) (omega arith) (omega arith) g.1
          ∙ ap (λ l. (l, rest)) (append_assoc p (a ∷ []) (w ++ r)))

  -- Into the first places of an array.
  pub read_entries_first :
      (n : ℕ) (w old : List A) (rest : List ℕ)
      → length w ≡ n
      → n ≤ length old
      → All Good w
      → read_entries size read n 0 (bytes_of bytes w ++ rest) old ≡ (w ++ drop n old, rest)
  read_entries_first n w old rest hw h g =
      ap (read_entries size read n 0 (bytes_of bytes w ++ rest)) (sym (take-append-drop n old))
      ∙ read_entries_lem n 0 w [] (take n old) (drop n old) rest refl (length-take n old h) hw g
