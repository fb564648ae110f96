-- ===== src/Find/Walk.antt =====
-- The recursion on the last part of a path is a walk from the root, part by part.
use vpfs_iroh.Base.{
  ℕ, zero, suc, ◌≤◌, Str, none, some, List, [], ◌∷◌, ◌++◌, length, length-append, unfinished, Exec,
  ◌>>=◌, ◌≡◌, refl, sym, ap, ◌∙◌, arith, inl, inr, after,
}
use vpfs_iroh.Text.{slash, split, rsplit_once}
use vpfs_iroh.Text.Split.{split-cons, split-append, split-Lacks, rsplit_once-cases}
use vpfs_iroh.Directory.{EntryResult}
use vpfs_iroh.Platform.{Platform}
use vpfs_iroh.State.{DaemonState}
use vpfs_iroh.Find.{find_from, find_at_root, recursive_find}

module _ (P : Platform) (draws : ℕ) where
  -- From a lookup, the names one below the other.
  abbrev pub walk_from :
      Exec (DaemonState P) EntryResult → List Str → Exec (DaemonState P) EntryResult
  walk_from m [] = m
  walk_from m (name ∷ names) = walk_from (m >>= find_from P draws name) names

  -- The first part in the root directory, and the others below it.
  abbrev pub walk : List Str → Exec (DaemonState P) EntryResult
  walk [] s = (unfinished, s)
  walk (first ∷ names) s = walk_from (find_at_root P draws first) names s

  walk_from-append :
      (m : Exec (DaemonState P) EntryResult) (names : List Str) (last : Str)
      → walk_from m (names ++ last ∷ []) ≡ (walk_from m names >>= find_from P draws last)
  walk_from-append m [] last = refl
  walk_from-append m (name ∷ names) last =
      walk_from-append (m >>= find_from P draws name) names last

  find_single :
      (fuel : ℕ) (path : Str) (s : DaemonState P)
      → rsplit_once slash path ≡ none
      → recursive_find P draws (suc fuel) path s ≡ find_at_root P draws path s
  unfolding recursive_find
  find_single fuel path s single = rw (single, recursive_find)

  pub find_below :
      (fuel : ℕ) (path parent name : Str) (s : DaemonState P)
      → rsplit_once slash path ≡ some (parent, name)
      → recursive_find P draws (suc fuel) path s
        ≡ after (find_from P draws name) (recursive_find P draws fuel parent s)
  unfolding recursive_find
  find_below fuel path parent name s parts = rw (parts, recursive_find)

  -- With at least as much fuel as the path has parts, recursive_find is the walk that looks the
  -- first part up in the root directory and each further part below what was found, with the same
  -- result and the same final state.
  pub recursive_find-walk :
      (fuel : ℕ) (path : Str) (s : DaemonState P)
      → length (split slash path) ≤ fuel
      → recursive_find P draws fuel path s ≡ walk (split slash path) s
  recursive_find-walk zero path s enough =
      let (c, cs, e) = split-cons slash path in absurd (omega (arith, ap length e))
  recursive_find-walk (suc fuel) path s enough = elim (rsplit_once-cases slash path) [
    | inl (single, lacks) ↦ find_single fuel path s single ∙ rw (split-Lacks slash path lacks)
    | inr (parent, name, parts, e, lacks) ↦
        let (c, cs, first) = split-cons slash parent in
        let all : split slash path ≡ split slash parent ++ name ∷ [] =
          ap (split slash) e ∙ split-append slash parent name ∙ rw (split-Lacks slash name lacks) in
        let ih =
          recursive_find-walk fuel parent s
            (omega (arith, ap length all, length-append (split slash parent) (name ∷ []))) in
        find_below fuel path parent name s parts
        ∙ rw (ih, all, first)
            (ap (λ (m : Exec (DaemonState P) EntryResult). m s)
              (sym (walk_from-append (find_at_root P draws c) cs name)))
  ]
