-- ===== src/Waits/Ends.antt =====
-- Reads without a circle of daemons end, in whatever order their steps are taken.
use vpfs_iroh.Base.{
  ℕ, zero, suc, ◌+◌, ◌*◌, ◌<◌, ◌≤◌, eqb, leb, Bool-cases, true, false, ◌≡◌, ◌≢◌, refl, ap, subst,
  ◌∙◌, arith, ◌⊎◌, inl, inr,
}
use vpfs_iroh.Waits.{
  Phase, idle, locked, waiting, answered, holds_lock, System, set, Advance, ask, serve, leave,
  Advances, none_yet, one_more,
}
use vpfs_iroh.Waits.Circles.{set-same, set-other, IsReading, Advance-rank}

-- The steps that a read has before it.
abbrev pub weight : Phase → ℕ
weight idle = 0
weight (answered owner) = 1
weight (waiting owner) = 2
weight (locked owner) = 3

abbrev pub total : ℕ → System → ℕ
total zero s = 0
total (suc n) s = weight (s n) + total n s

total-bound : (n : ℕ) (s : System) → total n s ≤ 3 * n
total-bound zero s = omega arith
total-bound (suc n) s = let one : weight (s n) ≤ 3 = ground arith in omega (arith, total-bound n s)

-- A daemon beyond the bound does not count.
total-set_beyond :
    (n i : ℕ) (phase : Phase) (s : System) → n ≤ i → total n (set i phase s) ≡ total n s
total-set_beyond zero i phase s beyond = refl
total-set_beyond (suc n) i phase s beyond =
    rw
      (
        set-other i n phase s (λ e. absurd (omega arith)),
        total-set_beyond n i phase s (omega arith),
      )
      refl

total-set :
    (n i : ℕ) (phase : Phase) (s : System)
    → i < n
    → suc (weight phase) ≡ weight (s i)
    → suc (total n (set i phase s)) ≡ total n s
total-set zero i phase s within one = absurd (omega arith)
total-set (suc n) i phase s within one = elim (Bool-cases (eqb i n)) [
  | inl same ↦
      let e : i ≡ n = ground (arith, same) in
      let there : set i phase s n ≡ phase =
        subst (λ j. set i phase s j ≡ phase) e (set-same i phase s) in
      let rest = total-set_beyond n i phase s (omega arith) in
      omega (arith, ap weight there, ap (λ j. weight (s j)) e)
  | inr other ↦
      let apart : n ≢ i = ground (arith, other) in
      let there = set-other i n phase s apart in
      let rest = total-set n i phase s (ground (arith, apart)) one in omega (arith, ap weight there)
]

free-idle : (phase : Phase) → holds_lock phase ≡ false → phase ≡ idle
unfolding holds_lock
free-idle phase free = ground (arith, free)

-- A daemon that is busy, or none.
busy-cases :
    (n : ℕ) (s : System) → ((i : ℕ) × (holds_lock (s i) ≡ true)) ⊎ ((i : ℕ) → i < n → s i ≡ idle)
busy-cases zero s = inr λ i within. absurd (omega arith)
busy-cases (suc n) s = elim (Bool-cases (holds_lock (s n))) [
  | inl busy ↦ inl (n, busy)
  | inr free ↦ elim (busy-cases n s) [
    | inl found ↦ inl found
    | inr below ↦ inr λ i within. elim (Bool-cases (eqb i n)) [
      | inl same ↦
          let e : n ≡ i = ground (arith, same) in subst (λ j. s j ≡ idle) e (free-idle (s n) free)
      | inr other ↦ below i (ground (arith, other, within))
    ]
  ]
]

-- Each read goes to a daemon of lower rank, and from the bound on there are no daemons.
pub record IsRanked (rank : ℕ → ℕ) (n : ℕ) (s : System) : Type 0 where
  pub falls : (i owner : ℕ) → IsReading (s i) owner → rank owner < rank i
  pub beyond : (i : ℕ) → n ≤ i → s i ≡ idle

module _ (rank : ℕ → ℕ) (n : ℕ) where
  set-IsRanked :
      (i : ℕ) (phase : Phase) (s : System)
      → IsRanked rank n s
      → i < n
      → ((owner : ℕ) → IsReading phase owner → IsReading (s i) owner)
      → IsRanked rank n (set i phase s)
  set-IsRanked i phase s R within reads = record {
    falls = λ j owner reading. elim (Bool-cases (eqb i j)) [
      | inl same ↦
          let e : i ≡ j = ground (arith, same) in
          let here : set i phase s j ≡ phase =
            subst (λ k. set i phase s k ≡ phase) e (set-same i phase s) in
          subst (λ k. rank owner < rank k) e
            (R.falls i owner (reads owner (subst (λ p. IsReading p owner) here reading)))
      | inr other ↦
          let apart : j ≢ i = ground (arith, other) in
          R.falls j owner (subst (λ p. IsReading p owner) (set-other i j phase s apart) reading)
    ];
    beyond = λ j far. set-other i j phase s (λ e. absurd (omega arith)) ∙ R.beyond j far;
  }

  busy-within : (s : System) (i : ℕ) → IsRanked rank n s → s i ≢ idle → i < n
  busy-within s i R busy = elim (Bool-cases (leb n i)) [
    | inl far ↦ absurd (busy (R.beyond i (ground (arith, far))))
    | inr near ↦ ground (arith, near)
  ]

  -- A step that takes a daemon to a lighter phase with no other owner.
  set-lighter :
      (i : ℕ) (phase : Phase) (s : System)
      → IsRanked rank n s
      → s i ≢ idle
      → suc (weight phase) ≡ weight (s i)
      → ((owner : ℕ) → IsReading phase owner → IsReading (s i) owner)
      → IsRanked rank n (set i phase s) × (suc (total n (set i phase s)) ≡ total n s)
  set-lighter i phase s R busy lighter reads =
      let within = busy-within s i R busy in
      (set-IsRanked i phase s R within reads, total-set n i phase s within lighter)

  advance-IsRanked :
      (s t : System)
      → IsRanked rank n s
      → Advance s t
      → IsRanked rank n t × (suc (total n t) ≡ total n s)
  advance-IsRanked s _ R (ask i owner at_i) =
      set-lighter i (waiting owner) s R (λ e. absurd (ground (arith, e, at_i))) (rw (at_i) refl)
        (λ o h. rw (at_i) h)
  advance-IsRanked s _ R (serve i owner at_i free) =
      set-lighter i (answered owner) s R (λ e. absurd (ground (arith, e, at_i))) (rw (at_i) refl)
        (λ o h. rw (at_i) h)
  advance-IsRanked s _ R (leave i owner at_i) =
      set-lighter i idle s R (λ e. absurd (ground (arith, e, at_i))) (rw (at_i) refl)
        (λ o h. absurd h)

  Advances-IsRanked :
      (s t : System) (m : ℕ)
      → IsRanked rank n s
      → Advances s m t
      → IsRanked rank n t × (m + total n t ≡ total n s)
  Advances-IsRanked s _ _ R none_yet = (R, omega arith)
  Advances-IsRanked s u _ R (one_more {m = m} {t = t} before step) =
      let (R', spent) = Advances-IsRanked s t m R before in
      let (R'', less) = advance-IsRanked t u R' step in (R'', omega (arith, spent, less))

  -- Where the reads under way go each to a daemon of lower rank, and the daemons are those below
  -- a number n, then, in whatever order the reads have gone on by some number of steps, that
  -- number is at most 3 * n, and all daemons are idle or some read can go on.
  pub Advances-end :
      (s t : System) (m : ℕ)
      → IsRanked rank n s
      → Advances s m t
      → (m ≤ 3 * n) × (((i : ℕ) → t i ≡ idle) ⊎ ((u : System) × Advance t u))
  Advances-end s t m R steps =
      let (R', spent) = Advances-IsRanked s t m R steps in
      (
        omega (arith, spent, total-bound n s),
        elim (busy-cases n t) [
          | inl (i, busy) ↦ inr (Advance-rank rank t R'.falls i busy)
          | inr all_idle ↦ inl λ i. elim (Bool-cases (leb n i)) [
            | inl far ↦ R'.beyond i (ground (arith, far))
            | inr near ↦ all_idle i (ground (arith, near))
          ]
        ],
      )
