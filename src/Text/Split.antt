-- ===== src/Text/Split.antt =====
-- Laws of the operations that take a text apart and put it together.
use vpfs_iroh.Base.{
  ℕ, Str, false, none, some, List, [], ◌∷◌, ◌++◌, ◌≡◌, refl, eqb, arith, ◌∙◌, ◌⊎◌, All, Bool-cases,
  inl, inr,
}
use vpfs_iroh.Text.{contains, split, join, rsplit_once, split_once}

abbrev pub Lacks : ℕ → Str → Type 0
Lacks c s = contains c s ≡ false

-- A text has at least one part.
pub split-cons : (c : ℕ) (s : Str) → (p : Str) × (ps : List Str) × (split c s ≡ p ∷ ps)
unfolding split
split-cons c [] = ([], [], refl)
split-cons c (d ∷ s) =
    let (p, ps, e) = split-cons c s in
    elim (Bool-cases (eqb d c)) [
      | inl same ↦ ([], p ∷ ps, rw (same, e))
      | inr other ↦ (d ∷ p, ps, rw (other, e))
    ]

-- The separator between two texts separates their parts.
pub split-append : (c : ℕ) (s t : Str) → split c (s ++ c ∷ t) ≡ split c s ++ split c t
unfolding split
split-append c [] t = ground arith
split-append c (d ∷ s) t = ground (arith, split-append c s t, split-cons c s)

pub split-Lacks : (c : ℕ) (s : Str) → Lacks c s → split c s ≡ s ∷ []
unfolding split contains
split-Lacks c [] h = refl
split-Lacks c (d ∷ s) h = ground (arith, split-Lacks c s)

-- Parts without the separator are found again.
pub split-join :
    (c : ℕ) (p : Str) (ps : List Str) → All (Lacks c) (p ∷ ps) → split c (join c (p ∷ ps)) ≡ p ∷ ps
unfolding join
split-join c p [] h = split-Lacks c p h.0
split-join c p (q ∷ ps) h =
    split-append c p (join c (q ∷ ps)) ∙ rw (split-Lacks c p h.0, split-join c q ps h.1)

-- Each part lacks the separator.
pub All-split : (c : ℕ) (s : Str) → All (Lacks c) (split c s)
unfolding split contains
All-split c [] = (refl, tt)
All-split c (d ∷ s) = ground (arith, All-split c s, split-cons c s)

pub rsplit_once-Lacks : (c : ℕ) (s : Str) → Lacks c s → rsplit_once c s ≡ none
unfolding rsplit_once contains
rsplit_once-Lacks c [] h = refl
rsplit_once-Lacks c (d ∷ s) h = ground (arith, rsplit_once-Lacks c s)

pub rsplit_once-append : (c : ℕ) (s t : Str) → Lacks c t → rsplit_once c (s ++ c ∷ t) ≡ some (s, t)
unfolding rsplit_once
rsplit_once-append c [] t h = rw (rsplit_once-Lacks c t h) (ground arith)
rsplit_once-append c (d ∷ s) t h = rw (rsplit_once-append c s t h)

-- A text lacks the separator, or is the two parts with its last separator between them.
pub rsplit_once-cases :
    (c : ℕ) (s : Str)
    → ((rsplit_once c s ≡ none) × Lacks c s)
      ⊎ ((a : Str) × (b : Str) × (rsplit_once c s ≡ some (a, b)) × (s ≡ a ++ c ∷ b) × Lacks c b)
unfolding rsplit_once contains
rsplit_once-cases c [] = inl (refl, refl)
rsplit_once-cases c (d ∷ s) = elim (rsplit_once-cases c s) [
  | inr (a, b, found, e, h) ↦ inr (d ∷ a, b, ground arith, ground arith, h)
  | inl (missing, h) ↦ elim (Bool-cases (eqb d c)) [
    | inl same ↦ inr ([], s, ground arith, ground arith, h)
    | inr other ↦ inl (ground arith, ground arith)
  ]
]

pub split_once-append : (c : ℕ) (s t : Str) → Lacks c s → split_once c (s ++ c ∷ t) ≡ some (s, t)
unfolding split_once contains
split_once-append c [] t h = ground arith
split_once-append c (d ∷ s) t h = ground (arith, split_once-append c s t)
