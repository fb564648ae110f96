-- ===== src/Directory/Total.antt =====
-- What a search and an append do to any file that is there, whatever its bytes.
use vpfs_iroh.Base.{
  ℕ, zero, suc, ◌<◌, Str, ◌==◌, str_eq, false, some, ◌++◌, length, success, failure, ok, ◌≡◌, refl,
  arith, Option-cases, Bool-cases, Result-cases, ◌⊎◌, inl, inr,
}
use vpfs_iroh.Messages.{DirectoryEntry, does_not_exist, already_exists}
use vpfs_iroh.Codec.{Codec, IsLawful}
use vpfs_iroh.Files.{Bytes, File, Disk, put_file}
use vpfs_iroh.Directory.{
  EntryResult, search_loop, search_directory_with_reader, search_directory_with_lock, append_bytes,
  append_dir_entry,
}

module _ (codec : Codec DirectoryEntry) (lawful : IsLawful codec) where
  search_loop-ok :
      (fuel : ℕ) (file_name : Str) (bytes : Bytes)
      → length bytes < fuel
      → (r : EntryResult) × (search_loop codec fuel file_name bytes ≡ ok r)
  unfolding search_loop
  search_loop-ok zero file_name bytes enough = absurd (omega arith)
  search_loop-ok (suc fuel) file_name bytes enough = elim (Option-cases (codec.from_reader bytes)) [
    | inl unread ↦ (failure does_not_exist, rw (unread, search_loop) refl)
    | inr ((entry, rest), read) ↦
        let fewer = lawful.shorter bytes entry rest read in
        let (r, further) = search_loop-ok fuel file_name rest (omega arith) in
        elim (Bool-cases (entry.name == file_name)) [
          | inl same ↦ (success entry, rw (read, search_loop) (ground arith))
          | inr other ↦ (r, rw (read, search_loop) (ground arith))
        ]
  ]

  -- A search ends with an answer.
  pub search_directory_with_reader-ok :
      (file_name : Str) (bytes : Bytes)
      → (r : EntryResult) × (search_directory_with_reader codec file_name bytes ≡ ok r)
  unfolding search_directory_with_reader
  search_directory_with_reader-ok file_name bytes =
      search_loop-ok (suc (length bytes)) file_name bytes (omega arith)

  -- An append to a file that is there is refused, or its bytes are behind those of the file.
  pub append_dir_entry-cases :
      (uri : Str) (new : DirectoryEntry) (file : File) (d : Disk)
      → d.poisoned ≡ false
      → d.files uri ≡ some file
      → ((existing : DirectoryEntry) × (append_dir_entry codec uri new d
            ≡ (ok (failure (already_exists existing)), d)))
        ⊎ (append_dir_entry codec uri new d
            ≡ (ok (success tt), put_file uri (file.bytes ++ codec.to_vec new) d))
  unfolding append_dir_entry append_bytes search_directory_with_lock
  append_dir_entry-cases uri new file d clean there =
      let (r, ends) = search_directory_with_reader-ok new.name file.bytes in
      elim (Result-cases r) [
        | inl (existing, found) ↦ inl (existing, ground arith)
        | inr (error, missing) ↦ inr (ground arith)
      ]
