-- ===== src/Alone/Found.antt =====
-- What a lookup finds on a whole daemon is there.
use vpfs_iroh.Base.{
  Str, lit, List, [], ◌∷◌, success, failure, ◌≡◌, arith, Option-cases, Bool-cases, inl, inr,
}
use vpfs_iroh.Messages.{DirectoryEntry}
use vpfs_iroh.Directory.{EntryResult}
use vpfs_iroh.Directory.Search.{find_entry, answer}
use vpfs_iroh.Platform.{Platform}
use vpfs_iroh.State.{DaemonState}
use vpfs_iroh.Find.Local.{Tree, entries_of, descend, descend_all, resolve}
use vpfs_iroh.Alone.{IsPlaced, IsWhole}

module _ (P : Platform) (tree : Tree) (s : DaemonState P) (W : IsWhole P tree s) where
  answer-IsPlaced :
      (uri name : Str) (entry : DirectoryEntry)
      → answer (find_entry name (entries_of (tree uri))) ≡ success entry
      → IsPlaced P tree s entry
  answer-IsPlaced uri name entry found = elim (Option-cases (tree uri)) [
    | inl missing ↦ absurd (ground arith)
    | inr (entries, held) ↦ W.placed uri name entries entry held (ground arith)
  ]

  descend-IsPlaced :
      (name : Str) (found : EntryResult) (entry : DirectoryEntry)
      → descend tree name found ≡ success entry
      → IsPlaced P tree s entry
  descend-IsPlaced name (success above) entry h = elim (Bool-cases above.is_dir) [
    | inl dir ↦ answer-IsPlaced above.location.uri name entry (rw (dir) at h)
    | inr file ↦ absurd (ground arith)
  ]
  descend-IsPlaced name (failure error) entry h = absurd cc

  descend_all-IsPlaced :
      (names : List Str) (found : EntryResult) (entry : DirectoryEntry)
      → (found ≡ success entry → IsPlaced P tree s entry)
      → descend_all tree names found ≡ success entry
      → IsPlaced P tree s entry
  descend_all-IsPlaced [] found entry good h = good h
  descend_all-IsPlaced (name ∷ names) found entry good h =
      descend_all-IsPlaced names (descend tree name found) entry (descend-IsPlaced name found entry)
        h

  pub resolve-IsPlaced :
      (parts : List Str) (entry : DirectoryEntry)
      → resolve tree parts ≡ success entry
      → IsPlaced P tree s entry
  resolve-IsPlaced [] entry h = absurd cc
  resolve-IsPlaced (first ∷ names) entry h =
      descend_all-IsPlaced names (resolve tree (first ∷ [])) entry
        (answer-IsPlaced (lit "root") first entry) h
