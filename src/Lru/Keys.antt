-- ===== src/Lru/Keys.antt =====
-- Lists of entries in which no key stands twice.
use vpfs_iroh.Base.{Eq, ◌==◌, none, List, [], ◌∷◌, ◌++◌, ◌≡◌, ◌≢◌, refl, arith, All, if-elim}
use vpfs_iroh.Lru.Entries.{lookup, erase, touch, sink, erase_absent}

module _ {K V : Type 0} ⦃e : Eq K⦄ where
  abbrev pub NodupKeys : List (K × V) → Type 0
  NodupKeys [] = Unit
  NodupKeys ((k, v) ∷ xs) = (lookup k xs ≡ none) × NodupKeys xs

  lookup-erase-none :
      (j k : K) (xs : List (K × V)) → lookup j xs ≡ none → lookup j (erase k xs) ≡ none
  unfolding lookup erase
  lookup-erase-none j k [] h = refl
  lookup-erase-none j k ((i, v) ∷ xs) h = ground (arith, lookup-erase-none j k xs)

  NodupKeys-erase : (k : K) (xs : List (K × V)) → NodupKeys xs → NodupKeys (erase k xs)
  unfolding erase
  NodupKeys-erase k [] h = tt
  NodupKeys-erase k ((j, v) ∷ xs) h =
      if-elim NodupKeys (k == j) (λ _. h.1)
        (λ _. (lookup-erase-none j k xs h.0, NodupKeys-erase k xs h.1))

  lookup-erase_self : (k : K) (xs : List (K × V)) → NodupKeys xs → lookup k (erase k xs) ≡ none
  unfolding lookup erase
  lookup-erase_self k [] h = refl
  lookup-erase_self k ((j, v) ∷ xs) h = ground (arith, lookup-erase_self k xs h.1, h.0)

  pub NodupKeys-touch :
      (k : K) (v : V) (xs : List (K × V)) → NodupKeys xs → NodupKeys (touch k v xs)
  NodupKeys-touch k v xs h = (lookup-erase_self k xs h, NodupKeys-erase k xs h)

  lookup-prefix : (j : K) (xs ys : List (K × V)) → lookup j (xs ++ ys) ≡ none → lookup j xs ≡ none
  unfolding lookup
  lookup-prefix j [] ys h = refl
  lookup-prefix j ((k, v) ∷ xs) ys h = ground (arith, lookup-prefix j xs ys)

  pub NodupKeys-prefix : (xs ys : List (K × V)) → NodupKeys (xs ++ ys) → NodupKeys xs
  NodupKeys-prefix [] ys h = tt
  NodupKeys-prefix ((k, v) ∷ xs) ys h = (lookup-prefix k xs ys h.0, NodupKeys-prefix xs ys h.1)

  -- An entry that is put in and demoted stands behind the others.
  pub sink-touch :
      (k : K) (v : V) (xs : List (K × V))
      → lookup k xs ≡ none
      → sink k (touch k v xs) ≡ xs ++ (k, v) ∷ []
  unfolding lookup erase
  sink-touch k v xs h = rw (erase_absent k xs h) (ground arith)

  pub lookup-append_none :
      (j k : K) (v : V) (xs : List (K × V))
      → lookup j xs ≡ none
      → j ≢ k
      → lookup j (xs ++ (k, v) ∷ []) ≡ none
  unfolding lookup
  lookup-append_none j k v [] h apart = ground arith
  lookup-append_none j k v ((i, w) ∷ xs) h apart = ground (arith, lookup-append_none j k v xs)

  pub keys-ne : (k : K) (xs : List (K × V)) → lookup k xs ≡ none → All (λ item. item.0 ≢ k) xs
  unfolding lookup
  keys-ne k [] h = tt
  keys-ne k ((j, v) ∷ xs) h = (λ same. ground arith, keys-ne k xs (ground arith))

  pub All-absent_nil : (xs : List (K × V)) → All (λ item. lookup {V = V} item.0 [] ≡ none) xs
  unfolding lookup
  All-absent_nil [] = tt
  All-absent_nil (x ∷ xs) = (refl, All-absent_nil xs)
