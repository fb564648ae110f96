-- ===== src/Examples/PlaceRuns.antt =====
-- The placing of files at the root daemon of FindRuns.
use vpfs_iroh.Base.{
  lit, str_eq, false, none, some, [], ◌++◌, ◌≡◌, refl, arith, ok, success, failure,
}
use vpfs_iroh.Messages.{does_not_exist, already_exists}
use vpfs_iroh.Text.{split, contains}
use vpfs_iroh.Files.{Disk, hex, fs_read, create_file_with_random_uri}
use vpfs_iroh.State.{DaemonState}
use vpfs_iroh.Find.{recursive_find}
use vpfs_iroh.Place.{place_file}
use vpfs_iroh.Place.Local.{file_entry, place_file-recursive_find}
use vpfs_iroh.Place.Failures.{place_file-taken, place_file-orphan, place_file-not_a_directory}
use vpfs_iroh.Examples.Codecs.{entry_codec, entry_codec-IsLawful}
use vpfs_iroh.Examples.World.{offline, place, entry_of}
use vpfs_iroh.Examples.FindRuns.{
  plan_bytes, tree, docs, docs_entries, tree_disk, with_tree, with_tree-IsLocalTree,
}

-- The disk after the name `0` was drawn.
abbrev pub drawn_disk : Disk
drawn_disk = (create_file_with_random_uri offline.random 1 tree_disk).1

pub drawn_zero : create_file_with_random_uri offline.random 1 tree_disk ≡ (ok (lit "0"), drawn_disk)
unfolding create_file_with_random_uri hex str_eq
drawn_zero = refl

place_file-recursive_find_example :
    (s' : DaemonState offline) × (place_file offline 1 2 (lit "docs/new") (lit "a") false with_tree
      ≡ (ok (success (place (lit "a") (lit "0"))), s'))
    × (recursive_find offline 1 2 (lit "docs/new") s'
        ≡ (ok (success (file_entry (lit "a") (lit "0") (lit "new"))), s'))
unfolding str_eq split contains
place_file-recursive_find_example =
    place_file-recursive_find offline entry_codec-IsLawful 1 2 (lit "docs") (lit "new") with_tree
      (lit "0") drawn_disk tree with_tree-IsLocalTree drawn_zero docs docs_entries refl
      (omega arith) refl refl refl refl

place_file-taken_example :
    (s' : DaemonState offline) × (place_file offline 1 1 (lit "docs/plan") (lit "a") false with_tree
      ≡ (ok (failure (already_exists (entry_of (lit "plan") (lit "8")))), s'))
    × (s'.disk.files ≡ tree_disk.files)
unfolding str_eq split contains
place_file-taken_example =
    place_file-taken offline entry_codec-IsLawful 1 1 (lit "docs") (lit "plan") with_tree (lit "0")
      drawn_disk tree with_tree-IsLocalTree drawn_zero docs (entry_of (lit "plan") (lit "8"))
      docs_entries refl (omega arith) refl refl refl refl

place_file-orphan_example :
    (s' : DaemonState offline) × (place_file offline 1 1 (lit "x/new") (lit "a") false with_tree
      ≡ (ok (failure does_not_exist), s'))
    × (tree_disk.files (lit "0") ≡ none)
    × (fs_read (lit "0") s'.disk ≡ some [])
unfolding str_eq split contains
place_file-orphan_example =
    place_file-orphan offline entry_codec-IsLawful 1 1 (lit "x") (lit "new") with_tree (lit "0")
      drawn_disk tree with_tree-IsLocalTree drawn_zero does_not_exist refl (omega arith) refl

place_file-not_a_directory_example :
    (s' : DaemonState offline) × (place_file offline 1 2
        (lit "docs/plan/new")
        (lit "a")
        false
        with_tree
      ≡ (ok (success (place (lit "a") (lit "0"))), s'))
    × (fs_read (lit "8") s'.disk
        ≡ some (plan_bytes ++ entry_codec.to_vec (file_entry (lit "a") (lit "0") (lit "new"))))
unfolding str_eq split contains
place_file-not_a_directory_example =
    place_file-not_a_directory offline entry_codec-IsLawful 1 2 (lit "docs/plan") (lit "new")
      with_tree (lit "0") drawn_disk tree with_tree-IsLocalTree drawn_zero
      (entry_of (lit "plan") (lit "8")) plan_bytes refl (omega arith) refl refl refl refl
