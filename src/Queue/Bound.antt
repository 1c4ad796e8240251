-- ===== src/Queue/Bound.antt =====
-- What push_bounded keeps and reports (include/zoal_atc/transport/bounded_queue.hpp).
use zoal_atc.Common.{
  ℕ, zero, suc, ◌+◌, ◌-◌, ◌≤◌, ◌<◌, ◌≡◌, List, [], ◌∷◌, ◌++◌, inl, inr, arith, leb, Bool-cases,
  length, drop, length-append, length-drop, drop-append, drop-drop,
}
use zoal_atc.Queue.{pop_until_below, push_bounded}

module _ {ℓ} {A : Type ℓ} where
  pop_until_below_lem :
      (queue : List A) (cap discarded : ℕ)
      → 0 < cap
      → pop_until_below queue cap discarded
        ≡ (drop (length queue + 1 - cap) queue, discarded + (length queue + 1 - cap))
  unfolding pop_until_below
  pop_until_below_lem [] cap d h = let e : 0 + 1 - cap ≡ 0 = omega arith in rw e (ground arith)
  pop_until_below_lem (x ∷ queue) cap d h = elim (Bool-cases (leb cap (suc (length queue)))) [
    | inl full ↦
        let e : suc (length queue) + 1 - cap ≡ suc (length queue + 1 - cap) = ground arith in
        rw (full, e) (ground (arith, pop_until_below_lem queue cap (d + 1) h))
    | inr room ↦
        let e : suc (length queue) + 1 - cap ≡ 0 = ground arith in rw (room, e) (ground arith)
  ]

  push_bounded_lem :
      (queue : List A) (value : A) (cap : ℕ)
      → 0 < cap
      → push_bounded queue value cap
        ≡ (drop (length queue + 1 - cap) (queue ++ value ∷ []), length queue + 1 - cap)
  unfolding push_bounded
  push_bounded_lem queue value cap h = ground (
    arith,
    pop_until_below_lem queue cap 0 h,
    drop-append (length queue + 1 - cap) queue (value ∷ []),
  )

  -- For every cap, zero included, the messages kept and those reported as discarded are as many as
  -- the queued ones and the new one.
  pub push_bounded-total :
      (queue : List A) (value : A) (cap : ℕ)
      → (push_bounded queue value cap).1 + length (push_bounded queue value cap).0
        ≡ length queue + 1
  unfolding push_bounded
  push_bounded-total queue value zero = ground arith
  push_bounded-total queue value (suc n) = rw (push_bounded_lem queue value (suc n) (omega arith)) (
      omega (
        arith,
        length-drop (length queue + 1 - suc n) (queue ++ value ∷ []),
        length-append queue (value ∷ []),
      ))

  -- A push leaves a queue that was within its cap within it.
  pub push_bounded-le-cap :
      (queue : List A) (value : A) (cap : ℕ)
      → length queue ≤ cap
      → length (push_bounded queue value cap).0 ≤ cap
  push_bounded-le-cap queue value zero h = unfold push_bounded in h
  push_bounded-le-cap queue value (suc n) h =
      rw (push_bounded_lem queue value (suc n) (omega arith)) (
        omega (
          arith,
          length-drop (length queue + 1 - suc n) (queue ++ value ∷ []),
          length-append queue (value ∷ []),
        ))

  -- The newest `cap` of a history of messages.
  abbrev pub newest : ℕ → List A → List A
  newest cap sent = drop (length sent - cap) sent

  -- Where the queue holds the newest `cap` of the messages sent so far, the cap positive, after a
  -- push it holds the newest `cap` of these and the new one.
  pub push_bounded-newest :
      (sent : List A) (value : A) (cap : ℕ)
      → 0 < cap
      → (push_bounded (newest cap sent) value cap).0 ≡ newest cap (sent ++ value ∷ [])
  push_bounded-newest sent value cap h =
      let d = length sent - cap in
      let queue = drop d sent in
      let m = length queue + 1 - cap in
      let e : d + m ≡ length (sent ++ value ∷ []) - cap =
        omega (arith, length-drop d sent, length-append sent (value ∷ [])) in
      let front : drop d (sent ++ value ∷ []) ≡ queue ++ value ∷ [] =
        drop-append d sent (value ∷ []) (omega arith) in
      rw (push_bounded_lem queue value cap h, ← front, drop-drop, e)
