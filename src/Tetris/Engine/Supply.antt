-- ===== src/Tetris/Engine/Supply.antt =====
-- The pieces of a game, from `start_game` on.
use corestack_50005_htt.Prelude.{ℕ, zero, suc, List, [], ◌∷◌, Draws}
use corestack_50005_htt.Tetris.Bag.Fair.{deal, spawns, rounds}
use corestack_50005_htt.Tetris.Engine.{start_game}

-- The kinds of the first `n` rounds of seven pieces of a game: the piece of `start_game` and those that are
-- drawn from then on, where `ds r k` are the draws before the piece `k` behind it in the round `r`.
unfoldable pub game_rounds : ℕ → Draws → (ℕ → ℕ → Draws) → List (List ℕ)
game_rounds zero d ds = []
game_rounds (suc n) d ds =
    ((start_game d).0.current.type ∷ deal 6 (start_game d).0 (ds 0))
    ∷ rounds n (spawns 6 (start_game d).0 (ds 0)) (λ r. ds (suc r))

-- The draws with those of the first piece in front.
abbrev with_first : Draws → (ℕ → ℕ → Draws) → ℕ → ℕ → Draws
with_first d ds zero zero = d
with_first d ds zero (suc k) = ds 0 k
with_first d ds (suc r) k = ds (suc r) k
