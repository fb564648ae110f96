-- ===== src/Place/Failures.antt =====
-- Placing a file where its name is taken, or where the parent is missing or no directory.
use vpfs_iroh.Base.{
  eq_refl, ℕ, ◌≤◌, Str, ◌==◌, str_eq, true, false, Option, none, some, List, [], ◌∷◌, ◌++◌, length,
  success, failure, ok, after, pure, ◌≡◌, ap, ◌∙◌, arith, fun_ext, Bool-cases, inl, inr,
}
use vpfs_iroh.Messages.{Location, DirectoryEntry, VpfsError, already_exists}
use vpfs_iroh.Text.{slash, split}
use vpfs_iroh.Text.Split.{Lacks, rsplit_once-append}
use vpfs_iroh.Files.{
  Bytes, Disk, File, update, put_file, delete_file, fs_read, create_file_with_random_uri,
}
use vpfs_iroh.Files.Uris.{create_file_with_random_uri-new}
use vpfs_iroh.Codec.{IsLawful}
use vpfs_iroh.Directory.{append_dir_entry, append_bytes, search_directory_with_lock}
use vpfs_iroh.Directory.Search.{find_entry, search_directory_with_reader-answer}
use vpfs_iroh.Directory.Append.{append_dir_entry-taken}
use vpfs_iroh.Platform.{Platform}
use vpfs_iroh.State.{DaemonState}
use vpfs_iroh.Cache.{set_disk}
use vpfs_iroh.Find.Local.{Tree, resolve, IsLocalTree, resolve-closed, recursive_find-resolve}
use vpfs_iroh.Place.{parent_found, place_file, append_at, finish, place_in, remove_at, place_at}
use vpfs_iroh.Place.Local.{
  file_entry, created-IsLocalTree, place_uri-local, place_file-parent, parent_of-below,
}

-- A file that is new and deleted again leaves the files as they were.
pub update-none :
    (files : Str → Option File) (uri : Str) (file : Option File)
    → files uri ≡ none
    → update (update files uri file) uri none ≡ files
update-none files uri file free =
    fun_ext
      λ name. elim (Bool-cases (name == uri)) [ inl same ↦ ground arith | inr other ↦ ground arith ]

module _ (P : Platform) (lawful : IsLawful P.entry_codec) (draws fuel : ℕ) (parent name : Str)
    (s : DaemonState P) (uri : Str) (d : Disk) (tree : Tree) (T : IsLocalTree P tree s)
    (drawn : create_file_with_random_uri P.random draws s.disk ≡ (ok uri, d)) where
  place_in-taken :
      (directory existing : DirectoryEntry) (entries : List DirectoryEntry)
      → directory.location.node_name ≡ s.local.name
      → tree directory.location.uri ≡ some entries
      → find_entry name entries ≡ some existing
      → place_in P
          (record { node_name = s.local.name; uri = uri })
          false
          (success (directory.location, name))
          (set_disk P d s)
        ≡ (ok (failure (already_exists existing)), set_disk P (delete_file uri d) s)
  unfolding place_in append_at finish remove_at
  place_in-taken directory existing entries here held taken =
      let T1 = created-IsLocalTree P lawful draws fuel parent name s uri d tree T drawn in
      ground (
        arith,
        here,
        eq_refl s.local.name,
        append_dir_entry-taken P.entry_codec lawful directory.location.uri
            (file_entry s.local.name uri name) existing d entries T1.unpoisoned
            (T1.stored directory.location.uri entries held) taken,
      )

  -- With a lawful encoding of directory entries, where the daemon is the root and has the
  -- directories of a tree (IsLocalTree), a draw gives a free name, the fuel is at least the
  -- number of parts of the parent, and the tree resolves the parent to a directory that has the
  -- last name of the path, place_file of a file at this daemon fails with AlreadyExists and the
  -- existing entry, and the files of the daemon are what they were.
  pub place_file-taken :
      (directory existing : DirectoryEntry) (entries : List DirectoryEntry)
      → Lacks slash name
      → length (split slash parent) ≤ fuel
      → resolve tree (split slash parent) ≡ success directory
      → directory.is_dir ≡ true
      → tree directory.location.uri ≡ some entries
      → find_entry name entries ≡ some existing
      → (s' : DaemonState P) × (place_file P draws fuel
            (parent ++ slash ∷ name)
            s.local.name
            false
            s
          ≡ (ok (failure (already_exists existing)), s'))
        × (s'.disk.files ≡ s.disk.files)
  place_file-taken directory existing entries lacks enough there dir held taken =
      let here = (resolve-closed P lawful tree s T (split slash parent) directory there dir).0 in
      let new = create_file_with_random_uri-new P.random draws s.disk drawn in
      (
        set_disk P (delete_file uri d) s,
        place_file-parent P lawful draws fuel parent name s uri d tree T drawn directory lacks
              enough there
            ∙ place_in-taken directory existing entries here held taken,
        ap (λ files. update files uri none) new.1 ∙ update-none s.disk.files uri _ new.0,
      )

  -- With a lawful encoding of directory entries, where the daemon is the root and has the
  -- directories of a tree (IsLocalTree), a draw gives a free name, the fuel is at least the
  -- number of parts of the parent, and the tree has no entry at the parent, place_file fails with
  -- the error of the lookup, and an empty file is there that was not there before.
  pub place_file-orphan :
      (error : VpfsError)
      → Lacks slash name
      → length (split slash parent) ≤ fuel
      → resolve tree (split slash parent) ≡ failure error
      → (s' : DaemonState P) × (place_file P draws fuel
            (parent ++ slash ∷ name)
            s.local.name
            false
            s
          ≡ (ok (failure error), s'))
        × (s.disk.files uri ≡ none)
        × (fs_read uri s'.disk ≡ some [])
  unfolding place_file place_in
  place_file-orphan error lacks enough there =
      let new = create_file_with_random_uri-new P.random draws s.disk drawn in
      let T1 = created-IsLocalTree P lawful draws fuel parent name s uri d tree T drawn in
      let s1 = set_disk P d s in
      let loc : Location = record { node_name = s.local.name; uri = uri } in
      let found = recursive_find-resolve P lawful tree s1 T1 draws fuel parent enough in
      let below =
        parent_of-below P draws fuel (parent ++ slash ∷ name) parent name s1
          (rsplit_once-append slash parent name lacks)
        ∙ ap (after (λ r. pure (parent_found P name r))) (found ∙ ap (λ r. (ok r, s1)) there) in
      (
        s1,
        ap (after (place_at P draws fuel (parent ++ slash ∷ name) s.local.name false))
              (place_uri-local P lawful draws fuel parent name s uri d tree T drawn)
            ∙ ap (after (place_in P loc false)) below,
        new.0,
        ground (arith, new, eq_refl uri),
      )

  -- A file is extended as if it were a directory.
  place_in-file :
      (file : DirectoryEntry) (old : Bytes)
      → file.location.node_name ≡ s.local.name
      → fs_read file.location.uri d ≡ some old
      → P.entry_codec.from_reader old ≡ none
      → place_in P
          (record { node_name = s.local.name; uri = uri })
          false
          (success (file.location, name))
          (set_disk P d s)
        ≡ (
          ok (success (record { node_name = s.local.name; uri = uri })),
          set_disk P
              (put_file file.location.uri
                (old ++ P.entry_codec.to_vec (file_entry s.local.name uri name))
                d)
              s,
        )
  unfolding place_in append_at finish append_dir_entry append_bytes search_directory_with_lock
  place_in-file file old here bytes unread =
      let T1 = created-IsLocalTree P lawful draws fuel parent name s uri d tree T drawn in
      ground (
        arith,
        here,
        eq_refl s.local.name,
        T1.unpoisoned,
        search_directory_with_reader-answer P.entry_codec lawful name [] old unread,
      )

  -- With a lawful encoding of directory entries, where the daemon is the root and has the
  -- directories of a tree (IsLocalTree), a draw gives a free name, the fuel is at least the
  -- number of parts of the parent, and the tree resolves the parent to an entry of this daemon
  -- whose file has bytes that do not start with an entry, place_file succeeds and the bytes of
  -- the file are followed by the encoding of the new entry.
  pub place_file-not_a_directory :
      (file : DirectoryEntry) (old : Bytes)
      → Lacks slash name
      → length (split slash parent) ≤ fuel
      → resolve tree (split slash parent) ≡ success file
      → file.location.node_name ≡ s.local.name
      → fs_read file.location.uri s.disk ≡ some old
      → P.entry_codec.from_reader old ≡ none
      → (s' : DaemonState P) × (place_file P draws fuel
            (parent ++ slash ∷ name)
            s.local.name
            false
            s
          ≡ (ok (success (record { node_name = s.local.name; uri = uri })), s'))
        × (fs_read file.location.uri s'.disk
            ≡ some (old ++ P.entry_codec.to_vec (file_entry s.local.name uri name)))
  place_file-not_a_directory file old lacks enough there here bytes unread =
      let new = create_file_with_random_uri-new P.random draws s.disk drawn in
      let bytes' : fs_read file.location.uri d ≡ some old = ground (arith, new) in
      (
        set_disk P
            (put_file file.location.uri
              (old ++ P.entry_codec.to_vec (file_entry s.local.name uri name)) d)
            s,
        place_file-parent P lawful draws fuel parent name s uri d tree T drawn file lacks enough
              there
            ∙ place_in-file file old here bytes' unread,
        ground (arith, eq_refl file.location.uri),
      )
