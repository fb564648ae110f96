-- ===== src/Directory/Append.antt =====
-- What `append_dir_entry` does to a directory, as its entries.
use vpfs_iroh.Base.{
  Str, ◌==◌, str_eq, false, none, some, List, [], ◌∷◌, ◌++◌, if◌then◌else◌, Result, success,
  failure, ok, ◌≡◌, ◌≢◌, refl, arith, ap, sym, append-nil, Option-cases, inl, inr, ◌∙◌,
}
use vpfs_iroh.Messages.{DirectoryEntry, VpfsError, already_exists}
use vpfs_iroh.Codec.{Codec, IsLawful}
use vpfs_iroh.Files.{Bytes, Disk, put_file, fs_read}
use vpfs_iroh.Directory.{
  search_directory_with_reader, search_directory_with_lock, search_directory, append_dir_entry,
  append_bytes,
}
use vpfs_iroh.Directory.Search.{
  find_entry, answer, encode, encode-append, search_directory_with_reader-answer,
}

-- No two entries have one name.
abbrev pub NodupNames : List DirectoryEntry → Type 0
NodupNames [] = Unit
NodupNames (entry ∷ entries) = (find_entry entry.name entries ≡ none) × NodupNames entries

-- A directory as a list of entries: a name that is taken is refused with the entry that has it.
abbrev pub insert_entry :
    DirectoryEntry → List DirectoryEntry → Result (Unit {0}) VpfsError × List DirectoryEntry
insert_entry new entries = elim (find_entry new.name entries) [
  | some existing ↦ (failure (already_exists existing), entries)
  | none ↦ (success tt, entries ++ new ∷ [])
]

pub find_entry-append :
    (name : Str) (entries : List DirectoryEntry) (new : DirectoryEntry)
    → find_entry new.name entries ≡ none
    → find_entry name (entries ++ new ∷ [])
      ≡ (if name == new.name then some new else find_entry name entries)
find_entry-append name [] new free = ground arith
find_entry-append name (entry ∷ entries) new free =
    ground (arith, find_entry-append name entries new)

NodupNames-append :
    (new : DirectoryEntry) (entries : List DirectoryEntry)
    → NodupNames entries
    → find_entry new.name entries ≡ none
    → NodupNames (entries ++ new ∷ [])
NodupNames-append new [] h free = (refl, tt)
NodupNames-append new (entry ∷ entries) h free =
    let below : find_entry new.name entries ≡ none = ground arith in
    (
      find_entry-append entry.name entries new below ∙ ground arith,
      NodupNames-append new entries h.1 below,
    )

module _ (codec : Codec DirectoryEntry) where
  -- `directory` is a file that holds just the given entries.
  abbrev pub Holds : Disk → Str → List DirectoryEntry → Type 0
  Holds d directory entries = fs_read directory d ≡ some (encode codec entries)

module _ (codec : Codec DirectoryEntry) (lawful : IsLawful codec) where
  reader_answer :
      (name : Str) (entries : List DirectoryEntry)
      → search_directory_with_reader codec name (encode codec entries)
        ≡ ok (answer (find_entry name entries))
  reader_answer name entries =
      rw append-nil at
        (search_directory_with_reader-answer codec lawful name entries [] lawful.at_end)

  pub search_directory_with_lock-answer :
      (name directory : Str) (d : Disk) (entries : List DirectoryEntry)
      → Holds codec d directory entries
      → search_directory_with_lock codec name directory d
        ≡ (ok (answer (find_entry name entries)), d)
  unfolding search_directory_with_lock
  search_directory_with_lock-answer name directory d entries holds =
      ground (arith, reader_answer name entries)

  -- The three ends of a call.
  pub append_dir_entry-taken :
      (directory : Str) (new existing : DirectoryEntry) (d : Disk) (entries : List DirectoryEntry)
      → d.poisoned ≡ false
      → Holds codec d directory entries
      → find_entry new.name entries ≡ some existing
      → append_dir_entry codec directory new d ≡ (ok (failure (already_exists existing)), d)
  unfolding append_dir_entry
  append_dir_entry-taken directory new existing d entries clean holds taken =
      ground (arith, search_directory_with_lock-answer new.name directory d entries holds)

  pub append_dir_entry-free :
      (directory : Str) (new : DirectoryEntry) (d : Disk) (entries : List DirectoryEntry)
      → d.poisoned ≡ false
      → Holds codec d directory entries
      → find_entry new.name entries ≡ none
      → append_dir_entry codec directory new d
        ≡ (ok (success tt), put_file directory (encode codec entries ++ codec.to_vec new) d)
  unfolding append_dir_entry append_bytes
  append_dir_entry-free directory new d entries clean holds free =
      ground (arith, search_directory_with_lock-answer new.name directory d entries holds)

  encode_snoc :
      (entries : List DirectoryEntry) (new : DirectoryEntry)
      → encode codec (entries ++ new ∷ []) ≡ encode codec entries ++ codec.to_vec new
  encode_snoc entries new = encode-append codec entries (new ∷ []) ∙ rw append-nil

  fs_read-put_file :
      (uri : Str) (bytes : Bytes) (d : Disk) → fs_read uri (put_file uri bytes d) ≡ some bytes
  fs_read-put_file uri bytes d = ground arith

  files-put_file :
      (uri name : Str) (bytes : Bytes) (d : Disk)
      → name ≢ uri
      → (put_file uri bytes d).files name ≡ d.files name
  files-put_file uri name bytes d other = ground arith

  -- With a lawful encoding of directory entries, where the lock is not poisoned and the directory
  -- holds the given entries, append_dir_entry returns what insertion into the list of entries
  -- returns, the directory then holds the entries after that insertion, distinct names stay
  -- distinct, and every other file, the lock and the random numbers are as they were.
  pub append_dir_entry-insert_entry :
      (directory : Str) (new : DirectoryEntry) (d : Disk) (entries : List DirectoryEntry)
      → d.poisoned ≡ false
      → Holds codec d directory entries
      → (d' : Disk) × (append_dir_entry codec directory new d
          ≡ (ok (insert_entry new entries).0, d'))
        × Holds codec d' directory (insert_entry new entries).1
        × ((name : Str) → name ≢ directory → d'.files name ≡ d.files name)
        × (d'.poisoned ≡ false)
        × (d'.drawn ≡ d.drawn)
        × (NodupNames entries → NodupNames (insert_entry new entries).1)
  append_dir_entry-insert_entry directory new d entries clean holds =
      elim (Option-cases (find_entry new.name entries)) [
        | inl free ↦
            rw (free, insert_entry)
              (
                put_file directory (encode codec entries ++ codec.to_vec new) d,
                append_dir_entry-free directory new d entries clean holds free,
                fs_read-put_file directory _ d ∙ ap some (sym (encode_snoc entries new)),
                λ name other. files-put_file directory name _ d other,
                clean,
                refl,
                λ h. NodupNames-append new entries h free,
              )
        | inr (existing, taken) ↦
            rw (taken, insert_entry)
              (
                d,
                append_dir_entry-taken directory new existing d entries clean holds taken,
                holds,
                λ name other. refl,
                clean,
                refl,
                λ h. h,
              )
      ]

  -- With a lawful encoding of directory entries, where the lock is not poisoned and the directory
  -- holds entries none of which has the new name, after append_dir_entry a search for the new
  -- name finds the new entry, and a search for another name finds what it found before.
  pub search_directory-append_dir_entry :
      (directory name : Str) (new : DirectoryEntry) (d : Disk) (entries : List DirectoryEntry)
      → d.poisoned ≡ false
      → Holds codec d directory entries
      → find_entry new.name entries ≡ none
      → (search_directory codec name directory (append_dir_entry codec directory new d).1).0 ≡ (
          if name == new.name
          then ok (success new)
          else (search_directory codec name directory d).0)
  unfolding search_directory
  search_directory-append_dir_entry directory name new d entries clean holds free =
      let d' = put_file directory (encode codec entries ++ codec.to_vec new) d in
      let holds' : Holds codec d' directory (entries ++ new ∷ []) =
        fs_read-put_file directory _ d ∙ ap some (sym (encode_snoc entries new)) in
      let before = search_directory_with_lock-answer name directory d entries holds in
      let later =
        search_directory_with_lock-answer name directory d' (entries ++ new ∷ []) holds' in
      rw (append_dir_entry-free directory new d entries clean holds free)
        (ground (arith, before, later, find_entry-append name entries new free))
