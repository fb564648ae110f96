-- ===== src/Lru/Entries.antt =====
-- Lists of entries in the order of their use.
use vpfs_iroh.Base.{
  Eq, ◌==◌, Option, none, some, List, [], ◌∷◌, ◌++◌, if◌then◌else◌, ◌≡◌, refl, ap, arith, All, ◌⊎◌,
  inl, inr, if-elim,
}

module _ {A : Type 0} where
  abbrev pub last? : List A → Option A
  last? [] = none
  last? (x ∷ []) = some x
  last? (x ∷ y ∷ xs) = last? (y ∷ xs)

  abbrev pub init : List A → List A
  init [] = []
  init (x ∷ []) = []
  init (x ∷ y ∷ xs) = x ∷ init (y ∷ xs)

  pub last-cases :
      (xs : List A)
      → (xs ≡ [])
        ⊎ ((ys : List A) × (x : A) × (xs ≡ ys ++ x ∷ []) × (last? xs ≡ some x) × (init xs ≡ ys))
  last-cases [] = inl refl
  last-cases (x ∷ []) = inr ([], x, refl, refl, refl)
  last-cases (x ∷ y ∷ xs) = elim (last-cases (y ∷ xs)) [
    | inl h ↦ absurd (cc)
    | inr (ys, z, e, l, i) ↦ inr (x ∷ ys, z, ap (λ r. x ∷ r) e, l, ap (λ r. x ∷ r) i)
  ]

module _ {K V : Type 0} ⦃e : Eq K⦄ where
  unfoldable pub lookup : K → List (K × V) → Option V
  lookup k [] = none
  lookup k ((j, v) ∷ xs) = if k == j then some v else lookup k xs

  -- The entries without the one of the key.
  unfoldable pub erase : K → List (K × V) → List (K × V)
  erase k [] = []
  erase k ((j, v) ∷ xs) = if k == j then xs else (j, v) ∷ erase k xs

  abbrev pub touch : K → V → List (K × V) → List (K × V)
  touch k v xs = (k, v) ∷ erase k xs

  abbrev to_front : K → Option V → List (K × V) → List (K × V)
  to_front k none xs = xs
  to_front k (some v) xs = touch k v xs

  abbrev pub promote : K → List (K × V) → List (K × V)
  promote k xs = to_front k (lookup k xs) xs

  abbrev to_back : K → Option V → List (K × V) → List (K × V)
  to_back k none xs = xs
  to_back k (some v) xs = erase k xs ++ (k, v) ∷ []

  abbrev pub sink : K → List (K × V) → List (K × V)
  sink k xs = to_back k (lookup k xs) xs

  pub erase_absent : (k : K) (xs : List (K × V)) → lookup k xs ≡ none → erase k xs ≡ xs
  unfolding lookup erase
  erase_absent k [] h = refl
  erase_absent k ((j, v) ∷ xs) h = ground (arith, erase_absent k xs)

  pub All-erase {κ} :
      (P : K × V → Type κ) (k : K) (xs : List (K × V)) → All P xs → All P (erase k xs)
  unfolding erase
  All-erase P k [] h = tt
  All-erase P k ((j, v) ∷ xs) h =
      if-elim (All P) (k == j) (λ _. h.1) (λ _. (h.0, All-erase P k xs h.1))

  pub All-lookup {κ} :
      (P : K × V → Type κ) (k : K) (xs : List (K × V)) {v : V}
      → All P xs
      → lookup k xs ≡ some v
      → P (k, v)
  unfolding lookup
  All-lookup P k [] h found = cc
  All-lookup P k ((j, w) ∷ xs) {v} h found = elim (e.dec k j) [
    | yes same ↦ let eq : w ≡ v = ground arith in rw (same, ← eq) h.0
    | no other ↦ All-lookup P k xs h.1 (ground arith)
  ]
