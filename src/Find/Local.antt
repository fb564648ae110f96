-- ===== src/Find/Local.antt =====
-- Path lookup where the daemon is the root and has all directories: it is the lookup in a tree of
-- lists of entries.
use vpfs_iroh.Base.{
  eq_refl, subst, ℕ, ◌≤◌, Str, lit, str_eq, true, false, Option, none, some, List, [], ◌∷◌, length,
  if◌then◌else◌, success, failure, ok, Exec, ◌>>=◌, after, ◌≡◌, refl, ap, ◌∙◌, arith, Option-cases,
  Bool-cases, ◌⊎◌, inl, inr,
}
use vpfs_iroh.Messages.{VpfsNode, DirectoryEntry, does_not_exist, not_a_directory}
use vpfs_iroh.Text.{slash, split}
use vpfs_iroh.Text.Split.{split-cons}
use vpfs_iroh.Codec.{IsLawful}
use vpfs_iroh.Directory.{EntryResult, search_directory}
use vpfs_iroh.Directory.Search.{find_entry, answer}
use vpfs_iroh.Directory.Append.{Holds, search_directory_with_lock-answer}
use vpfs_iroh.Platform.{Platform}
use vpfs_iroh.State.{DaemonState}
use vpfs_iroh.Remote.{same_node}
use vpfs_iroh.Find.{search_local, find_in, find_from, find_at_root, recursive_find}
use vpfs_iroh.Find.Walk.{walk_from, recursive_find-walk}

same_node_refl : (P : Platform) (a : VpfsNode P.PublicKey) → same_node P a a ≡ true
unfolding same_node
same_node_refl P a = rw (eq_refl a.name, eq_refl ⦃e = P.key_eq⦄ a.endpoint_id) refl

-- The entries of each directory, by the name of its file.
abbrev pub Tree : Type 0
Tree = Str → Option (List DirectoryEntry)

abbrev pub entries_of : Option (List DirectoryEntry) → List DirectoryEntry
entries_of none = []
entries_of (some entries) = entries

-- The name below what was found.
abbrev pub descend : Tree → Str → EntryResult → EntryResult
descend tree name (success entry) =
    if entry.is_dir
    then answer (find_entry name (entries_of (tree entry.location.uri)))
    else failure not_a_directory
descend tree name (failure error) = failure error

abbrev pub descend_all : Tree → List Str → EntryResult → EntryResult
descend_all tree [] found = found
descend_all tree (name ∷ names) found = descend_all tree names (descend tree name found)

-- The parts of a path, from the root directory.
abbrev pub resolve : Tree → List Str → EntryResult
resolve tree [] = failure does_not_exist
resolve tree (first ∷ names) =
    descend_all tree names (answer (find_entry first (entries_of (tree (lit "root")))))

module _ (P : Platform) where
  -- The daemon is the root, its files hold the directories of the tree, and each directory that an
  -- entry names is one of them.
  pub record IsLocalTree (tree : Tree) (s : DaemonState P) : Type 0 where
    pub root_here : s.root ≡ some s.local
    pub unpoisoned : s.disk.poisoned ≡ false
    pub stored :
        (uri : Str) (entries : List DirectoryEntry)
        → tree uri ≡ some entries
        → Holds P.entry_codec s.disk uri entries
    pub top : (entries : List DirectoryEntry) × (tree (lit "root") ≡ some entries)
    pub closed :
        (uri name : Str) (entries : List DirectoryEntry) (entry : DirectoryEntry)
        → tree uri ≡ some entries
        → find_entry name entries ≡ some entry
        → entry.is_dir ≡ true
        → (entry.location.node_name ≡ s.local.name)
          × ((below : List DirectoryEntry) × (tree entry.location.uri ≡ some below))

  module _ (lawful : IsLawful P.entry_codec) (tree : Tree) (s : DaemonState P)
      (T : IsLocalTree tree s) where
    -- What a lookup in the tree can have found.
    IsFound : EntryResult → Type 0
    IsFound (success entry) =
        entry.is_dir ≡ true
        → (entry.location.node_name ≡ s.local.name)
          × ((below : List DirectoryEntry) × (tree entry.location.uri ≡ some below))
    IsFound (failure error) = (error ≡ does_not_exist) ⊎ (error ≡ not_a_directory)

    answer-IsFound :
        (uri name : Str) (entries : List DirectoryEntry)
        → tree uri ≡ some entries
        → IsFound (answer (find_entry name entries))
    unfolding IsFound
    answer-IsFound uri name entries held = elim (Option-cases (find_entry name entries)) [
      | inl missing ↦ rw (missing) (inl refl)
      | inr (entry, found) ↦ rw (found) (T.closed uri name entries entry held found)
    ]

    search_local-tree :
        (uri name : Str) (entries : List DirectoryEntry)
        → tree uri ≡ some entries
        → search_local P name uri s ≡ (ok (answer (find_entry name entries)), s)
    unfolding search_directory
    search_local-tree uri name entries held = ground (
      arith,
      T.unpoisoned,
      search_directory_with_lock-answer P.entry_codec lawful name uri s.disk entries
          (T.stored uri entries held),
    )

    find_at_root-tree :
        (draws : ℕ) (name : Str)
        → (find_at_root P draws name s ≡ (ok (resolve tree (name ∷ [])), s))
          × IsFound (resolve tree (name ∷ []))
    unfolding find_at_root
    find_at_root-tree draws name =
        let (entries, held) = T.top in
        (
          ground (
            arith,
            T.root_here,
            same_node_refl P s.local,
            search_local-tree (lit "root") name entries held,
          ),
          rw (held) (answer-IsFound (lit "root") name entries held),
        )

    -- A step of the walk is a step in the tree.
    find_from-tree :
        (draws : ℕ) (name : Str) (found : EntryResult)
        → IsFound found
        → (find_from P draws name found s ≡ (ok (descend tree name found), s))
          × IsFound (descend tree name found)
    unfolding find_from find_in IsFound
    find_from-tree draws name (success entry) good = elim (Bool-cases entry.is_dir) [
      | inl directory ↦
          let (here, (entries, held)) = good directory in
          let search = search_local-tree entry.location.uri name entries held in
          (
            rw (directory, here, eq_refl, held) search,
            rw (directory, held) (answer-IsFound entry.location.uri name entries held),
          )
      | inr file ↦ (rw (file) refl, rw (file) (inr refl))
    ]
    find_from-tree draws name (failure error) (inl e) = (rw (e) refl, inl e)
    find_from-tree draws name (failure error) (inr e) = (rw (e) refl, inr e)

    walk_from-tree :
        (draws : ℕ) (m : Exec (DaemonState P) EntryResult) (found : EntryResult) (names : List Str)
        → m s ≡ (ok found, s)
        → IsFound found
        → walk_from P draws m names s ≡ (ok (descend_all tree names found), s)
    walk_from-tree draws m found [] run good = run
    walk_from-tree draws m found (name ∷ names) run good =
        let (step, good') = find_from-tree draws name found good in
        walk_from-tree draws (m >>= find_from P draws name) (descend tree name found) names
          (ap (after (find_from P draws name)) run ∙ step) good'

    -- With a lawful encoding of directory entries, where the daemon is the root, its lock is not
    -- poisoned, its files hold the directories of a tree, and each directory that an entry names
    -- is one of them and this daemon's own, recursive_find with at least as much fuel as the path
    -- has parts ends with what the tree has at the path, DoesNotExist or NotADirectory included,
    -- and leaves the daemon as it was.
    pub recursive_find-resolve :
        (draws fuel : ℕ) (path : Str)
        → length (split slash path) ≤ fuel
        → recursive_find P draws fuel path s ≡ (ok (resolve tree (split slash path)), s)
    recursive_find-resolve draws fuel path enough =
        let (first, names, parts) = split-cons slash path in
        let (top, good) = find_at_root-tree draws first in
        recursive_find-walk P draws fuel path s enough
        ∙ rw (parts) (
            walk_from-tree draws (find_at_root P draws first) (resolve tree (first ∷ [])) names top
              good)

    descend_all-IsFound :
        (names : List Str) (found : EntryResult)
        → IsFound found
        → IsFound (descend_all tree names found)
    descend_all-IsFound [] found good = good
    descend_all-IsFound (name ∷ names) found good =
        descend_all-IsFound names (descend tree name found) (find_from-tree 0 name found good).1

    -- A directory that the tree has at a path is one of its directories, on this daemon.
    pub resolve-closed :
        (parts : List Str) (entry : DirectoryEntry)
        → resolve tree parts ≡ success entry
        → entry.is_dir ≡ true
        → (entry.location.node_name ≡ s.local.name)
          × ((below : List DirectoryEntry) × (tree entry.location.uri ≡ some below))
    unfolding IsFound
    resolve-closed [] entry there = absurd cc
    resolve-closed (first ∷ names) entry there =
        let good =
          descend_all-IsFound names (resolve tree (first ∷ [])) (find_at_root-tree 0 first).1 in
        let good' : IsFound (success entry) = subst IsFound there good in good'
