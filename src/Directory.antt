-- ===== src/Directory.antt =====
-- file_system.rs: directories. A directory is a file that holds its entries one after the other.
pub mod Search
pub mod Append
pub mod Poison
pub mod Total
use vpfs_iroh.Base.{
  ℕ, zero, suc, Str, ◌==◌, str_eq, Bool, Option, none, some, List, ◌++◌, length, if◌then◌else◌,
  Result, success, failure, Outcome, ok, panicked, unfinished, Exec, pure, panic, modify, ◌>>=◌,
  ◌>>◌,
}
use vpfs_iroh.Messages.{DirectoryEntry, VpfsError, does_not_exist, already_exists}
use vpfs_iroh.Codec.{Codec}
use vpfs_iroh.Files.{Bytes, File, Disk, put_file, fs_read, lock, holding_write}

abbrev pub EntryResult : Type 0
EntryResult = Result DirectoryEntry VpfsError

module _ (codec : Codec DirectoryEntry) where
  -- The loop: it ends at the entry of the name or where no further entry can be read. The fuel
  -- bounds the entries that are read.
  unfoldable pub search_loop : ℕ → Str → Bytes → Outcome EntryResult
  search_loop zero file_name bytes = unfinished
  search_loop (suc fuel) file_name bytes = elim (codec.from_reader bytes) [
    | none ↦ ok (failure does_not_exist)
    | some (entry, rest) ↦
        let further = search_loop fuel file_name rest in
        if entry.name == file_name then ok (success entry) else further
  ]

  unfoldable pub search_directory_with_reader : Str → Bytes → Outcome EntryResult
  unfolding search_loop
  search_directory_with_reader file_name bytes = search_loop (suc (length bytes)) file_name bytes

  -- The `unwrap` of `File::open` panics where the directory is missing.
  unfoldable pub search_directory_with_lock : Str → Str → Exec Disk EntryResult
  search_directory_with_lock file_name directory_uri d = elim (fs_read directory_uri d) [
    | none ↦ (panicked, d)
    | some bytes ↦ (search_directory_with_reader file_name bytes, d)
  ]

  unfoldable pub search_directory : Str → Str → Exec Disk EntryResult
  search_directory file_name directory_uri = do
    lock
    search_directory_with_lock file_name directory_uri

  -- The file is opened with `append(true)`, and `to_writer` adds the entry's bytes at its end.
  unfoldable pub append_bytes : Str → Bytes → Exec Disk (Unit {0})
  append_bytes uri bytes d = elim (fs_read uri d) [
    | none ↦ (panicked, d)
    | some old ↦ (ok tt, put_file uri (old ++ bytes) d)
  ]

  abbrev pub add_or_refuse :
      Str → DirectoryEntry → EntryResult → Exec Disk (Result (Unit {0}) VpfsError)
  add_or_refuse directory new_entry (success existing) = pure (failure (already_exists existing))
  add_or_refuse directory new_entry (failure e) = do
    append_bytes directory (codec.to_vec new_entry)
    pure (success tt)

  unfoldable pub append_dir_entry : Str → DirectoryEntry → Exec Disk (Result (Unit {0}) VpfsError)
  append_dir_entry directory new_entry = holding_write do
    found ← search_directory_with_lock new_entry.name directory
    add_or_refuse directory new_entry found
