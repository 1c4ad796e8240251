-- ===== src/Queue.antt =====
-- include/zoal_atc/transport/bounded_queue.hpp
pub mod Bound
mod Tests
use zoal_atc.Common.{ℕ, zero, suc, ◌+◌, List, [], ◌∷◌, ◌++◌, leb, ◌==◌, if◌then◌else◌, length}

module _ {ℓ} {A : Type ℓ} where
  -- The `while` loop: the queue after the pops, and `discarded`. An empty queue below a positive
  -- `cap` ends it, so the walk along the queue is the loop.
  pub pop_until_below : List A → ℕ → ℕ → List A × ℕ
  pop_until_below [] cap discarded = ([], discarded)
  pop_until_below (x ∷ queue) cap discarded =
      let rest = pop_until_below queue cap (discarded + 1) in
      if leb cap (length (x ∷ queue)) then rest else (x ∷ queue, discarded)

  unfoldable pub push_bounded : List A → A → ℕ → List A × ℕ
  unfolding pop_until_below
  push_bounded queue value cap =
      if cap == 0
      then (queue, 1)
      else let (kept, discarded) = pop_until_below queue cap 0 in (kept ++ value ∷ [], discarded)
