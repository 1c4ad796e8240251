-- ===== src/Queue/Tests.antt =====
-- Runs of `push_bounded`, and its theorems at them.
use zoal_atc.Common.{ℕ, ◌≡◌, refl, List, [], ◌∷◌, ◌++◌, arith}
use zoal_atc.Queue.{push_bounded}
use zoal_atc.Queue.Bound.{newest, push_bounded-newest}

abbrev three : List ℕ
three = 1 ∷ 2 ∷ 3 ∷ []

push_bounded-full : push_bounded three 4 3 ≡ (2 ∷ 3 ∷ 4 ∷ [], 1)
unfolding push_bounded
push_bounded-full = refl

push_bounded-shrinks : push_bounded three 4 2 ≡ (3 ∷ 4 ∷ [], 2)
unfolding push_bounded
push_bounded-shrinks = refl

push_bounded-newest_example : (push_bounded (newest 2 three) 4 2).0 ≡ newest 2 (three ++ 4 ∷ [])
push_bounded-newest_example = push_bounded-newest three 4 2 (omega arith)
