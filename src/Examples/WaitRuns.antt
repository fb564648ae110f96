-- ===== src/Examples/WaitRuns.antt =====
-- Daemons that read each other's files.
use vpfs_iroh.Base.{ℕ, ◌<◌, ◌≤◌, eqb, Bool-cases, ◌≡◌, ◌⊎◌, inl, inr, refl, arith}
use vpfs_iroh.Waits.{
  Phase, idle, locked, waiting, holds_lock, System, set, Advance, ask, serve, lock, advance, Steps,
  stop, later, none_yet, one_more,
}
use vpfs_iroh.Waits.Circles.{IsCircle, steps-IsCircle, IsReading}
use vpfs_iroh.Waits.Ends.{IsRanked, Advances-end}

abbrev quiet : System
quiet i = idle

-- The daemons 0 and 1 wait for each other.
abbrev crossed : System
crossed = set 1 (waiting 0) (set 0 (waiting 1) (set 1 (locked 0) (set 0 (locked 1) quiet)))

-- They get there from the start: both take their locks, and then both ask.
crossed-Steps : Steps quiet crossed
unfolding set holds_lock
crossed-Steps =
    later
      (later
        (later (later stop (lock 0 1 (λ e. absurd (omega arith)) refl))
          (lock 1 0 (λ e. absurd (omega arith)) refl))
        (advance (ask 0 1 refl)))
      (advance (ask 1 0 refl))

abbrev IsOne : ℕ → Type 0
IsOne i = (i ≡ 0) ⊎ (i ≡ 1)

crossed-IsCircle : IsCircle IsOne crossed
unfolding set
crossed-IsCircle i (inl e) = (1, ground (arith, e), inr refl)
crossed-IsCircle i (inr e) = (0, ground (arith, e), inl refl)

-- A third daemon begins to read.
steps-IsCircle_example : set 2 (locked 0) crossed 1 ≡ crossed 1
unfolding set holds_lock
steps-IsCircle_example =
    steps-IsCircle IsOne crossed (set 2 (locked 0) crossed) crossed-IsCircle
      (later stop (lock 2 0 (λ e. absurd (omega arith)) refl)) 1 (inr refl)

-- The daemon 2 reads from 1, which reads from 0.
abbrev chain : System
chain = set 2 (waiting 1) (set 1 (waiting 0) quiet)

chain-falls : (i owner : ℕ) → IsReading (chain i) owner → owner < i
unfolding set
chain-falls i owner reading = elim (Bool-cases (eqb i 2)) [
  | inl two ↦ let e : 1 ≡ owner = rw (two) at reading in ground (arith, two, e)
  | inr other ↦ elim (Bool-cases (eqb i 1)) [
    | inl one ↦ let e : 0 ≡ owner = rw (other, one) at reading in ground (arith, one, e)
    | inr none_else ↦ absurd (rw (other, none_else) at reading)
  ]
]

chain-IsRanked : IsRanked (λ i. i) 3 chain
unfolding set
chain-IsRanked = record { falls = chain-falls; beyond = λ i far. ground (arith, far) }

Advances-end_example :
    (1 ≤ 9)
    × (((i : ℕ) → set 1 (Phase.answered 0) chain i ≡ idle)
        ⊎ ((u : System) × Advance (set 1 (Phase.answered 0) chain) u))
unfolding set holds_lock
Advances-end_example =
    Advances-end (λ i. i) 3 chain (set 1 (Phase.answered 0) chain) 1 chain-IsRanked
      (one_more none_yet (serve 1 0 refl refl))
