-- ===== src/Place/Trees.antt =====
-- Trees of directories that grow by an entry.
use vpfs_iroh.Base.{
  Str, lit, ◌==◌, str_eq, none, some, List, [], ◌∷◌, ◌++◌, if◌then◌else◌, success, failure, ◌≡◌,
  refl, arith, Option-cases, Bool-cases, ◌⊎◌, inl, inr,
}
use vpfs_iroh.Messages.{DirectoryEntry, VpfsError, does_not_exist, not_a_directory}
use vpfs_iroh.Directory.{EntryResult}
use vpfs_iroh.Directory.Search.{find_entry, answer}
use vpfs_iroh.Find.Local.{Tree, entries_of, descend, descend_all, resolve}

-- The tree with a further entry in one directory.
abbrev pub grow : Tree → Str → List DirectoryEntry → DirectoryEntry → Tree
grow tree directory entries new uri =
    if uri == directory then some (entries ++ new ∷ []) else tree uri

pub find_entry-append :
    (name : Str) (entries : List DirectoryEntry) (new entry : DirectoryEntry)
    → find_entry name entries ≡ some entry
    → find_entry name (entries ++ new ∷ []) ≡ some entry
find_entry-append name [] new entry found = cc
find_entry-append name (first ∷ entries) new entry found =
    ground (arith, find_entry-append name entries new entry)

pub find_entry-new :
    (entries : List DirectoryEntry) (new : DirectoryEntry)
    → find_entry new.name entries ≡ none
    → find_entry new.name (entries ++ new ∷ []) ≡ some new
find_entry-new [] new free = ground arith
find_entry-new (first ∷ entries) new free = ground (arith, find_entry-new entries new)

pub find_entry-cases :
    (name : Str) (entries : List DirectoryEntry) (new entry : DirectoryEntry)
    → find_entry name (entries ++ new ∷ []) ≡ some entry
    → (find_entry name entries ≡ some entry) ⊎ (entry ≡ new)
find_entry-cases name [] new entry found = ground arith
find_entry-cases name (first ∷ entries) new entry found =
    ground (arith, find_entry-cases name entries new entry)

descend_all-failure :
    (tree : Tree) (names : List Str) (error : VpfsError)
    → descend_all tree names (failure error) ≡ failure error
descend_all-failure tree [] error = refl
descend_all-failure tree (name ∷ names) error = descend_all-failure tree names error

pub descend_all-append :
    (tree : Tree) (names : List Str) (last : Str) (found : EntryResult)
    → descend_all tree (names ++ last ∷ []) found ≡ descend tree last (descend_all tree names found)
descend_all-append tree [] last found = refl
descend_all-append tree (name ∷ names) last found =
    descend_all-append tree names last (descend tree name found)

module _ (tree : Tree) (directory : Str) (entries : List DirectoryEntry) (new : DirectoryEntry)
    (held : tree directory ≡ some entries) where
  -- What a directory has, it has in the larger tree.
  find_entry-grow :
      (uri name : Str) (entry : DirectoryEntry)
      → find_entry name (entries_of (tree uri)) ≡ some entry
      → find_entry name (entries_of (grow tree directory entries new uri)) ≡ some entry
  find_entry-grow uri name entry found = ground (arith, find_entry-append name entries new entry)

  -- Where a walk from a name leads to an entry, it does in the larger tree, if the rest of it does.
  advance :
      (uri name : Str) (names : List Str) (entry : DirectoryEntry)
      → ((below : DirectoryEntry)
          → descend_all tree names (success below) ≡ success entry
          → descend_all (grow tree directory entries new) names (success below) ≡ success entry)
      → descend_all tree names (answer (find_entry name (entries_of (tree uri)))) ≡ success entry
      → descend_all
          (grow tree directory entries new)
          names
          (answer (find_entry name (entries_of (grow tree directory entries new uri))))
        ≡ success entry
  advance uri name names entry further h =
      elim (Option-cases (find_entry name (entries_of (tree uri)))) [
        | inl missing ↦
            let lost = rw (missing, descend_all-failure tree names does_not_exist) at h in absurd cc
        | inr (below, there) ↦
            let rest = rw (there) at h in
            rw (find_entry-grow uri name below there) (further below rest)
      ]

  descend_all-grow :
      (names : List Str) (found : EntryResult) (entry : DirectoryEntry)
      → descend_all tree names found ≡ success entry
      → descend_all (grow tree directory entries new) names found ≡ success entry
  descend_all-grow [] found entry h = h
  descend_all-grow (name ∷ names) (failure error) entry h =
      absurd (ground (arith, descend_all-failure tree names error))
  descend_all-grow (name ∷ names) (success above) entry h = elim (Bool-cases above.is_dir) [
    | inl directory' ↦
        let rest = rw (directory') at h in
        rw (directory') (
          advance above.location.uri name names entry
            (λ below. descend_all-grow names (success below) entry) rest)
    | inr file ↦
        let lost = rw (file, descend_all-failure tree names not_a_directory) at h in absurd cc
  ]

  -- A path that leads to an entry leads to it in the larger tree.
  pub resolve-grow :
      (parts : List Str) (entry : DirectoryEntry)
      → resolve tree parts ≡ success entry
      → resolve (grow tree directory entries new) parts ≡ success entry
  resolve-grow [] entry h = absurd (ground arith)
  resolve-grow (first ∷ names) entry h =
      advance (lit "root") first names entry (λ below. descend_all-grow names (success below) entry)
        h
