-- ===== src/Alone/Parents.antt =====
-- The directory that a path is in, on a daemon that has all directories.
use vpfs_iroh.Base.{
  ℕ, ◌≤◌, Str, lit, str_eq, true, false, none, some, List, [], ◌∷◌, ◌++◌, length, length-append,
  success, failure, ok, after, pure, ◌≡◌, refl, sym, ap, ◌∙◌, arith, Bool-cases, Result-cases, inl,
  inr,
}
use vpfs_iroh.Messages.{DirectoryEntry, VpfsError}
use vpfs_iroh.Text.{slash, split, rsplit_once}
use vpfs_iroh.Text.Split.{
  Lacks, split-cons, split-append, split-Lacks, rsplit_once-append, rsplit_once-Lacks,
  rsplit_once-cases,
}
use vpfs_iroh.Codec.{IsLawful}
use vpfs_iroh.Directory.Search.{find_entry, answer}
use vpfs_iroh.Platform.{Platform}
use vpfs_iroh.State.{DaemonState}
use vpfs_iroh.Find.Local.{
  Tree, IsLocalTree, entries_of, resolve, descend, resolve-closed, recursive_find-resolve,
}
use vpfs_iroh.Place.{parent_of, parent_found}
use vpfs_iroh.Place.Trees.{descend_all-append}
use vpfs_iroh.Place.Local.{parent_of-below}

-- The path has the given name in the given directory of the tree.
pub data IsIn (tree : Tree) (path directory name : Str) : Type 0 where
  at_root : Lacks slash path → directory ≡ lit "root" → name ≡ path → IsIn tree path directory name
  below :
      (parent : Str) (entry : DirectoryEntry)
      → Lacks slash name
      → path ≡ parent ++ slash ∷ name
      → resolve tree (split slash parent) ≡ success entry
      → entry.is_dir ≡ true
      → directory ≡ entry.location.uri
      → IsIn tree path directory name

-- What a path has in its directory is what the tree has at the path.
pub resolve-IsIn :
    (tree : Tree) (path directory name : Str)
    → IsIn tree path directory name
    → resolve tree (split slash path) ≡ answer (find_entry name (entries_of (tree directory)))
resolve-IsIn tree path directory name (at_root lacks top same) =
    rw (split-Lacks slash path lacks, top, same) refl
resolve-IsIn tree path directory name (below parent entry lacks e there dir same) =
    let (first, names, parts) = split-cons slash parent in
    let all : split slash path ≡ first ∷ names ++ name ∷ [] =
      ap (split slash) e
      ∙ split-append slash parent name
      ∙ rw (parts, split-Lacks slash name lacks) refl in
    let before : resolve tree (first ∷ names) ≡ success entry =
      ap (resolve tree) (sym parts) ∙ there in
    ap (resolve tree) all
    ∙ descend_all-append tree names name (resolve tree (first ∷ []))
    ∙ ap (descend tree name) before
    ∙ rw (dir, same) refl

-- The name of a path, and what its parent is.
pub data ParentCase (tree : Tree) (path : Str) : Type 0 where
  in_directory : (directory name : Str) → IsIn tree path directory name → ParentCase tree path
  in_file :
      (parent name : Str) (entry : DirectoryEntry)
      → rsplit_once slash path ≡ some (parent, name)
      → resolve tree (split slash parent) ≡ success entry
      → entry.is_dir ≡ false
      → ParentCase tree path
  in_nothing :
      (parent name : Str) (error : VpfsError)
      → rsplit_once slash path ≡ some (parent, name)
      → resolve tree (split slash parent) ≡ failure error
      → ParentCase tree path

-- A path with a part more is longer.
length-parent :
    (path parent name : Str)
    → rsplit_once slash path ≡ some (parent, name)
    → length (split slash parent) ≤ length (split slash path)
length-parent path parent name parts = elim (rsplit_once-cases slash path) [
  | inl (single, lacks) ↦ absurd (ground arith)
  | inr (a, b, parts', e, lacks) ↦
      let same : a ≡ parent = ground arith in
      omega (
        arith,
        ap (λ p. length (split slash p)) same,
        ap (λ p. length (split slash p)) e,
        ap length (split-append slash a b),
        length-append (split slash a) (split slash b),
      )
]

below-cases :
    (tree : Tree) (path parent name : Str)
    → rsplit_once slash path ≡ some (parent, name)
    → path ≡ parent ++ slash ∷ name
    → Lacks slash name
    → ParentCase tree path
below-cases tree path parent name parts e lacks =
    elim (Result-cases (resolve tree (split slash parent))) [
      | inl (entry, there) ↦ elim (Bool-cases entry.is_dir) [
        | inl dir ↦ in_directory entry.location.uri name (below parent entry lacks e there dir refl)
        | inr file ↦ in_file parent name entry parts there file
      ]
      | inr (error, there) ↦ in_nothing parent name error parts there
    ]

pub parent-cases : (tree : Tree) (path : Str) → ParentCase tree path
parent-cases tree path = elim (rsplit_once-cases slash path) [
  | inl (single, lacks) ↦ in_directory (lit "root") path (at_root lacks refl refl)
  | inr (parent, name, parts, e, lacks) ↦ below-cases tree path parent name parts e lacks
]

module _ (P : Platform) (lawful : IsLawful P.entry_codec) (draws fuel : ℕ) (tree : Tree)
    (s : DaemonState P) (T : IsLocalTree P tree s) where
  -- The parent of a path with a part more is found in the tree.
  pub parent_of-resolve :
      (path parent name : Str)
      → rsplit_once slash path ≡ some (parent, name)
      → length (split slash path) ≤ fuel
      → parent_of P draws fuel path s
        ≡ (ok (parent_found P name (resolve tree (split slash parent))), s)
  parent_of-resolve path parent name parts enough =
      parent_of-below P draws fuel path parent name s parts
      ∙ ap (after (λ r. pure (parent_found P name r))) (
          recursive_find-resolve P lawful tree s T draws fuel parent
            (omega (arith, length-parent path parent name parts)))

  parent_of-root :
      (path : Str)
      → rsplit_once slash path ≡ none
      → parent_of P draws fuel path s
        ≡ (ok (success (record { node_name = s.local.name; uri = lit "root" }, path)), s)
  unfolding parent_of
  parent_of-root path single = ground (arith, single, T.root_here)

  pub parent_of-IsIn :
      (path directory name : Str)
      → IsIn tree path directory name
      → length (split slash path) ≤ fuel
      → parent_of P draws fuel path s
        ≡ (ok (success (record { node_name = s.local.name; uri = directory }, name)), s)
  parent_of-IsIn path directory name (at_root lacks top same) enough =
      rw (top, same) (parent_of-root path (rsplit_once-Lacks slash path lacks))
  parent_of-IsIn path directory name (below parent entry lacks e there dir same) enough =
      let parts : rsplit_once slash path ≡ some (parent, name) =
        ap (rsplit_once slash) e ∙ rsplit_once-append slash parent name lacks in
      let here = (resolve-closed P lawful tree s T (split slash parent) entry there dir).0 in
      let place : entry.location ≡ record { node_name = s.local.name; uri = directory } =
        ground arith in
      parent_of-resolve path parent name parts enough
      ∙ ap (λ r. (ok (parent_found P name r), s)) there
      ∙ ap (λ l. (ok (success (l, name)), s)) place

  -- A directory with a path in it is one of the tree.
  pub IsIn-held :
      (path directory name : Str)
      → IsIn tree path directory name
      → (entries : List DirectoryEntry) × (tree directory ≡ some entries)
  IsIn-held path directory name (at_root lacks top same) = rw (top) T.top
  IsIn-held path directory name (below parent entry lacks e there dir same) =
      let held = (resolve-closed P lawful tree s T (split slash parent) entry there dir).1 in
      (held.0, ap tree same ∙ held.1)
