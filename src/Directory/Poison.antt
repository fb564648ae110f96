-- ===== src/Directory/Poison.antt =====
-- A missing directory: the call panics while it holds the lock, and every later use panics.
use vpfs_iroh.Base.{Str, true, false, none, panicked, ◌≡◌, refl, arith}
use vpfs_iroh.Messages.{DirectoryEntry}
use vpfs_iroh.Codec.{Codec}
use vpfs_iroh.Files.{Bytes, Disk, read_local, write_local}
use vpfs_iroh.Directory.{search_directory_with_lock, search_directory, append_dir_entry}

module _ (codec : Codec DirectoryEntry) where
  -- Whatever asks for the lock panics, and the disk stays as it is.
  pub record IsDead (d : Disk) : Type 0 where
    pub reads : (uri : Str) → read_local uri d ≡ (panicked, d)
    pub writes : (uri : Str) (bytes : Bytes) → write_local uri bytes d ≡ (panicked, d)
    pub searches : (name uri : Str) → search_directory codec name uri d ≡ (panicked, d)
    pub appends :
        (uri : Str) (entry : DirectoryEntry) → append_dir_entry codec uri entry d ≡ (panicked, d)

  IsDead-poisoned : (d : Disk) → d.poisoned ≡ true → IsDead d
  unfolding read_local write_local search_directory append_dir_entry
  IsDead-poisoned d h = record {
    reads = λ uri. ground arith;
    writes = λ uri bytes. ground arith;
    searches = λ name uri. ground arith;
    appends = λ uri entry. ground arith;
  }

  append_dir_entry-missing :
      (directory : Str) (entry : DirectoryEntry) (d : Disk)
      → d.poisoned ≡ false
      → d.files directory ≡ none
      → append_dir_entry codec directory entry d ≡ (panicked, record d { poisoned = true })
  unfolding append_dir_entry search_directory_with_lock
  append_dir_entry-missing directory entry d clean missing = ground arith

  -- Where the lock is not poisoned, appending an entry to a directory that does not exist panics,
  -- and from then on every read, write, search and append of the daemon panics too.
  pub append_dir_entry-IsDead :
      (directory : Str) (entry : DirectoryEntry) (d : Disk)
      → d.poisoned ≡ false
      → d.files directory ≡ none
      → ((append_dir_entry codec directory entry d).0 ≡ panicked)
        × IsDead (append_dir_entry codec directory entry d).1
  append_dir_entry-IsDead directory entry d clean missing =
      rw (append_dir_entry-missing directory entry d clean missing)
        (refl, IsDead-poisoned (record d { poisoned = true }) refl)
