-- ===== src/Text.antt =====
-- The operations of Rust's `str` that the sources call, on texts as lists of code points.
pub mod Split
use vpfs_iroh.Base.{
  ℕ, Str, Bool, true, false, Option, none, some, List, [], ◌∷◌, ◌++◌, eqb, if◌then◌else◌,
}

-- The character `/`.
abbrev pub slash : ℕ
slash = b'/'

-- `s.starts_with(c)` for a character.
unfoldable pub starts_with : ℕ → Str → Bool
starts_with c [] = false
starts_with c (d ∷ s) = eqb d c

-- `s.contains(c)` for a character.
unfoldable pub contains : ℕ → Str → Bool
contains c [] = false
contains c (d ∷ s) = if eqb d c then true else contains c s

abbrev extend : ℕ → List Str → List Str
extend c [] = (c ∷ []) ∷ []
extend c (part ∷ parts) = (c ∷ part) ∷ parts

-- `s.split(c)`
unfoldable pub split : ℕ → Str → List Str
split c [] = [] ∷ []
split c (d ∷ s) = if eqb d c then [] ∷ split c s else extend d (split c s)

-- `parts.join(c)`
unfoldable pub join : ℕ → List Str → Str
join c [] = []
join c (part ∷ []) = part
join c (part ∷ next ∷ parts) = part ++ c ∷ join c (next ∷ parts)

abbrev rsplit_at : ℕ → ℕ → Str → Option (Str × Str) → Option (Str × Str)
rsplit_at c d s (some (before, behind)) = some (d ∷ before, behind)
rsplit_at c d s none = if eqb d c then some ([], s) else none

-- `s.rsplit_once(c)`: the parts before and behind the last `c`.
unfoldable pub rsplit_once : ℕ → Str → Option (Str × Str)
rsplit_once c [] = none
rsplit_once c (d ∷ s) = rsplit_at c d s (rsplit_once c s)

abbrev prepend : ℕ → Option (Str × Str) → Option (Str × Str)
prepend d (some (before, behind)) = some (d ∷ before, behind)
prepend d none = none

-- `s.split_once(c)`: the parts before and behind the first `c`.
unfoldable pub split_once : ℕ → Str → Option (Str × Str)
split_once c [] = none
split_once c (d ∷ s) = if eqb d c then some ([], s) else prepend d (split_once c s)
