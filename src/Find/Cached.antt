-- ===== src/Find/Cached.antt =====
-- Below a directory that was not found, or found in the cache only, nothing is found for good.
use vpfs_iroh.Base.{
  ℕ, suc, Str, ◌==◌, str_eq, some, if-elim, Bool-cases, inl, inr, success, failure, Outcome, ok,
  panicked, unfinished, pure, after, ◌≡◌, ◌≢◌, sym, ap, ◌∙◌,
}
use vpfs_iroh.Messages.{
  Location, DirectoryEntry, VpfsError, only_in_cache, cache_needed_for_traversal, not_modified,
  does_not_exist, not_found, not_accessible, not_a_directory, already_exists, other,
}
use vpfs_iroh.Text.{slash, rsplit_once}
use vpfs_iroh.Directory.{EntryResult}
use vpfs_iroh.Platform.{Platform}
use vpfs_iroh.State.{DaemonState}
use vpfs_iroh.Find.{
  ReadResult, cache_needed, search_local, search_bytes, search_read_below, read_remote,
  find_below_cache, find_from, recursive_find,
}
use vpfs_iroh.Find.Walk.{find_below}

-- The outcome is no entry.
abbrev IsMissing : Outcome EntryResult → Type 0
IsMissing found = (entry : DirectoryEntry) → found ≢ ok (success entry)

module _ (P : Platform) (draws : ℕ) where
  cache_needed-IsMissing :
      (found : Outcome EntryResult × DaemonState P)
      → IsMissing (after (λ r. pure (cache_needed P r)) found).0
  cache_needed-IsMissing (ok (success e), s) = λ entry h. cc
  cache_needed-IsMissing (ok (failure e), s) = λ entry h. cc
  cache_needed-IsMissing (panicked, s) = λ entry h. cc
  cache_needed-IsMissing (unfinished, s) = λ entry h. cc

  search_read_below-IsMissing :
      (name : Str) (read : Outcome ReadResult × DaemonState P)
      → IsMissing (after (search_read_below P name) read).0
  search_read_below-IsMissing name (ok (success bytes), s) =
      cache_needed-IsMissing (search_bytes P name bytes s)
  search_read_below-IsMissing name (ok (failure (only_in_cache place)), s) =
      cache_needed-IsMissing (search_local P name place.uri s)
  search_read_below-IsMissing name (ok (failure (cache_needed_for_traversal e)), s) = λ entry h. cc
  search_read_below-IsMissing name (ok (failure not_modified), s) = λ entry h. cc
  search_read_below-IsMissing name (ok (failure does_not_exist), s) = λ entry h. cc
  search_read_below-IsMissing name (ok (failure not_found), s) = λ entry h. cc
  search_read_below-IsMissing name (ok (failure not_accessible), s) = λ entry h. cc
  search_read_below-IsMissing name (ok (failure not_a_directory), s) = λ entry h. cc
  search_read_below-IsMissing name (ok (failure (already_exists e)), s) = λ entry h. cc
  search_read_below-IsMissing name (ok (failure (other text)), s) = λ entry h. cc
  search_read_below-IsMissing name (panicked, s) = λ entry h. cc
  search_read_below-IsMissing name (unfinished, s) = λ entry h. cc

  find_below_cache-IsMissing :
      (name : Str) (location : Location) (s : DaemonState P)
      → IsMissing (find_below_cache P draws name location s).0
  unfolding find_below_cache
  find_below_cache-IsMissing name location s =
      if-elim (λ (r : Outcome EntryResult × DaemonState P). IsMissing r.0)
        (location.node_name == s.local.name)
        (λ here. cache_needed-IsMissing (search_local P name location.uri s))
        (λ away. search_read_below-IsMissing name (read_remote P draws location s))

  find_from-IsMissing :
      (name : Str) (error : VpfsError) (s : DaemonState P)
      → IsMissing (find_from P draws name (failure error) s).0
  unfolding find_from
  find_from-IsMissing name (cache_needed_for_traversal parent) s = elim (Bool-cases parent.is_dir) [
    | inl directory ↦ rw (directory) (find_below_cache-IsMissing name parent.location s)
    | inr file ↦ rw (file) (λ entry h. cc)
  ]
  find_from-IsMissing name (only_in_cache place) s = λ entry h. cc
  find_from-IsMissing name not_modified s = λ entry h. cc
  find_from-IsMissing name does_not_exist s = λ entry h. cc
  find_from-IsMissing name not_found s = λ entry h. cc
  find_from-IsMissing name not_accessible s = λ entry h. cc
  find_from-IsMissing name not_a_directory s = λ entry h. cc
  find_from-IsMissing name (already_exists e) s = λ entry h. cc
  find_from-IsMissing name (other text) s = λ entry h. cc

  -- Where the lookup of the parent of a path fails, CacheNeededForTraversal included,
  -- recursive_find of the path gives no entry as a success, whatever the other nodes answer.
  pub recursive_find-IsMissing :
      (fuel : ℕ) (path parent name : Str) (error : VpfsError) (s s' : DaemonState P)
      → rsplit_once slash path ≡ some (parent, name)
      → recursive_find P draws fuel parent s ≡ (ok (failure error), s')
      → (entry : DirectoryEntry) → (recursive_find P draws (suc fuel) path s).0 ≢ ok (success entry)
  recursive_find-IsMissing fuel path parent name error s s' parts missing entry h =
      let below =
        find_below P draws fuel path parent name s parts
        ∙ ap (after (find_from P draws name)) missing in
      find_from-IsMissing name error s' entry (ap (λ r. r.0) (sym below) ∙ h)
