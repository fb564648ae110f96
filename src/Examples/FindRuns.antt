-- ===== src/Examples/FindRuns.antt =====
-- The lookup of paths at a root daemon with two directories.
use vpfs_iroh.Base.{
  Str, lit, str_eq, ◌==◌, true, none, some, List, [], ◌∷◌, if◌then◌else◌, ◌≡◌, ◌≢◌, ◌⊎◌, inl, inr,
  refl, arith, ok, success,
}
use vpfs_iroh.Messages.{DirectoryEntry, does_not_exist}
use vpfs_iroh.Text.{split, rsplit_once}
use vpfs_iroh.Files.{Bytes, Disk, update}
use vpfs_iroh.Directory.Search.{encode, find_entry}
use vpfs_iroh.Directory.Append.{Holds}
use vpfs_iroh.State.{DaemonState}
use vpfs_iroh.Find.{recursive_find}
use vpfs_iroh.Find.Cached.{recursive_find-IsMissing}
use vpfs_iroh.Find.Local.{Tree, IsLocalTree, recursive_find-resolve}
use vpfs_iroh.Examples.Codecs.{entry_codec, entry_codec-IsLawful}
use vpfs_iroh.Examples.World.{offline, daemon, blank, plain, place, entry_of}

abbrev pub docs : DirectoryEntry
docs = record { location = place (lit "a") (lit "7"); name = lit "docs"; is_dir = true }

abbrev pub top_entries : List DirectoryEntry
top_entries = docs ∷ []

abbrev pub docs_entries : List DirectoryEntry
docs_entries = entry_of (lit "plan") (lit "8") ∷ []

-- The bytes of the file `docs/plan`.
abbrev pub plan_bytes : Bytes
plan_bytes = 40 ∷ 1 ∷ []

abbrev pub tree_disk : Disk
tree_disk = record blank {
  files =
      update
        (update (update blank.files (lit "8") (some (plain plan_bytes))) (lit "7")
          (some (plain (encode entry_codec docs_entries))))
        (lit "root") (some (plain (encode entry_codec top_entries)));
}

abbrev pub tree : Tree
tree uri =
    if uri == lit "root"
    then some top_entries
    else (if uri == lit "7" then some docs_entries else none)

abbrev pub with_tree : DaemonState offline
with_tree = daemon [] tree_disk 8 0

pub tree-cases :
    (uri : Str) (entries : List DirectoryEntry)
    → tree uri ≡ some entries
    → (entries ≡ top_entries) ⊎ (entries ≡ docs_entries)
tree-cases uri entries h = ground arith

tree_stored :
    (uri : Str) (entries : List DirectoryEntry)
    → tree uri ≡ some entries
    → Holds entry_codec tree_disk uri entries
tree_stored uri entries h = ground arith

tree_closed :
    (name : Str) (entries : List DirectoryEntry) (entry : DirectoryEntry)
    → (entries ≡ top_entries) ⊎ (entries ≡ docs_entries)
    → find_entry name entries ≡ some entry
    → entry.is_dir ≡ true
    → (entry.location.node_name ≡ lit "a")
      × ((below : List DirectoryEntry) × (tree entry.location.uri ≡ some below))
tree_closed name entries entry (inl e) found dir =
    let is_docs : entry ≡ docs = ground (arith) in
    rw (is_docs) (refl, (docs_entries, (unfold str_eq in refl)))
tree_closed name entries entry (inr e) found dir = absurd (ground arith)

pub with_tree-IsLocalTree : IsLocalTree offline tree with_tree
with_tree-IsLocalTree = record {
  root_here = refl;
  unpoisoned = refl;
  stored = λ uri entries h. tree_stored uri entries h;
  top = (top_entries, (unfold str_eq in refl));
  closed = λ uri name entries entry h found dir.
      tree_closed name entries entry (tree-cases uri entries h) found dir;
}

recursive_find-resolve_example :
    recursive_find offline 0 2 (lit "docs/plan") with_tree
    ≡ (ok (success (entry_of (lit "plan") (lit "8"))), with_tree)
unfolding str_eq split
recursive_find-resolve_example =
    recursive_find-resolve offline entry_codec-IsLawful tree with_tree with_tree-IsLocalTree 0 2
      (lit "docs/plan") (omega arith)

recursive_find-IsMissing_example :
    (recursive_find offline 0 2 (lit "x/plan") with_tree).0 ≢ ok (success docs)
unfolding str_eq split rsplit_once
recursive_find-IsMissing_example =
    recursive_find-IsMissing offline 0 1 (lit "x/plan") (lit "x") (lit "plan") does_not_exist
      with_tree with_tree refl
      (recursive_find-resolve offline entry_codec-IsLawful tree with_tree with_tree-IsLocalTree 0 1
        (lit "x") (omega arith))
      docs
