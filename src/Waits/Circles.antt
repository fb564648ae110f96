-- ===== src/Waits/Circles.antt =====
-- Daemons that wait for each other in a circle, and why daemons without one go on.
use vpfs_iroh.Base.{
  ℕ, zero, suc, ◌<◌, Bool-cases, true, ◌≡◌, ◌≢◌, refl, subst, ◌∙◌, arith, inl, inr,
}
use vpfs_iroh.Waits.{
  Phase, idle, locked, waiting, answered, holds_lock, System, set, Advance, ask, serve, leave, Step,
  lock, advance, Steps, stop, later,
}

pub set-same : (i : ℕ) (phase : Phase) (s : System) → set i phase s i ≡ phase
unfolding set
set-same i phase s = ground arith

pub set-other : (i j : ℕ) (phase : Phase) (s : System) → j ≢ i → set i phase s j ≡ s j
unfolding set
set-other i j phase s h = ground arith

-- A set of daemons each of which waits for one of the set.
abbrev pub IsCircle {ℓ} : (ℕ → Type ℓ) → System → Type ℓ
IsCircle K s = (i : ℕ) → K i → (owner : ℕ) × (s i ≡ waiting owner) × K owner

module _ {ℓ} (K : ℕ → Type ℓ) where
  set-apart :
      (s : System) (i : ℕ) (phase : Phase) → (K i → ⊥) → (j : ℕ) → K j → set i phase s j ≡ s j
  set-apart s i phase apart j in_it = set-other i j phase s (λ e. apart (subst K e in_it))

  -- The one who takes a step does not wait for a lock that is held.
  step-IsCircle : (s t : System) → IsCircle K s → Step s t → (j : ℕ) → K j → t j ≡ s j
  unfolding holds_lock
  step-IsCircle s _ circle (lock i owner other free) j in_it =
      set-apart s i (locked owner)
        (λ k. let (o, at_i, l) = circle i k in absurd (ground (arith, free, at_i))) j in_it
  step-IsCircle s _ circle (advance (ask i owner at_i)) j in_it =
      set-apart s i (waiting owner)
        (λ k. let (o, at_i', l) = circle i k in absurd (ground (arith, at_i, at_i'))) j in_it
  step-IsCircle s _ circle (advance (serve i owner at_i free)) j in_it =
      set-apart s i (answered owner)
        (λ k.
          let (o, at_i', l) = circle i k in
          let (o', at_o, l') = circle o l in
          let same : o ≡ owner = ground (arith, at_i, at_i') in
          absurd (ground (arith, free, at_o, same)))
        j in_it
  step-IsCircle s _ circle (advance (leave i owner at_i)) j in_it =
      set-apart s i idle
        (λ k. let (o, at_i', l) = circle i k in absurd (ground (arith, at_i, at_i'))) j in_it

  -- Where each daemon of a set waits in read_remote for the answer of a daemon of the set, each
  -- of them still waits for the same daemon after any number of steps, whatever the other daemons
  -- do: reads in a circle are never answered.
  pub steps-IsCircle : (s t : System) → IsCircle K s → Steps s t → (i : ℕ) → K i → t i ≡ s i
  steps-IsCircle s _ circle stop i in_it = refl
  steps-IsCircle s u circle (later {t = t} before step) i in_it =
      let kept = steps-IsCircle s t circle before in
      step-IsCircle t u (λ j k. let (owner, at_j, l) = circle j k in (owner, kept j k ∙ at_j, l))
        step i in_it
      ∙ kept i in_it

-- The daemon whose file is read.
abbrev pub IsReading : Phase → ℕ → Type 0
IsReading idle owner = ⊥
IsReading (locked o) owner = o ≡ owner
IsReading (waiting o) owner = o ≡ owner
IsReading (answered o) owner = o ≡ owner

module _ (rank : ℕ → ℕ) (s : System)
    (falls : (i owner : ℕ) → IsReading (s i) owner → rank owner < rank i) where
  -- Along the daemons that wait there is one that goes on.
  advance-from :
      (n i : ℕ) (phase : Phase)
      → rank i < n
      → s i ≡ phase
      → holds_lock phase ≡ true
      → (t : System) × Advance s t
  unfolding holds_lock
  advance-from zero i phase enough at_i busy = absurd (omega arith)
  advance-from (suc n) i idle enough at_i busy = absurd cc
  advance-from (suc n) i (locked owner) enough at_i busy =
      (set i (waiting owner) s, ask i owner at_i)
  advance-from (suc n) i (answered owner) enough at_i busy = (set i idle s, leave i owner at_i)
  advance-from (suc n) i (waiting owner) enough at_i busy =
      elim (Bool-cases (holds_lock (s owner))) [
        | inr free ↦ (set i (answered owner) s, serve i owner at_i free)
        | inl held ↦
            let lower = falls i owner (rw (at_i) refl) in
            advance-from n owner (s owner) (omega arith) refl held
      ]

  pub Advance-rank : (i : ℕ) → holds_lock (s i) ≡ true → (t : System) × Advance s t
  Advance-rank i busy = advance-from (suc (rank i)) i (s i) (omega arith) refl busy
