-- ===== src/Directory/Search.antt =====
-- The search of a directory finds what a search of its list of entries finds.
use vpfs_iroh.Base.{
  ℕ, zero, suc, ◌<◌, Str, ◌==◌, str_eq, Option, none, some, List, [], ◌∷◌, ◌++◌, length,
  if◌then◌else◌, success, failure, ok, unfinished, ◌≡◌, ◌≢◌, refl, arith, ap, append_assoc,
  Option-cases, inl, inr,
}
use vpfs_iroh.Messages.{DirectoryEntry, does_not_exist}
use vpfs_iroh.Codec.{Codec, IsLawful}
use vpfs_iroh.Files.{Bytes}
use vpfs_iroh.Directory.{EntryResult, search_loop, search_directory_with_reader}

-- The first entry of a name.
abbrev pub find_entry : Str → List DirectoryEntry → Option DirectoryEntry
find_entry file_name [] = none
find_entry file_name (entry ∷ entries) =
    if entry.name == file_name then some entry else find_entry file_name entries

-- The answer of a search that ends with the given entry.
abbrev pub answer : Option DirectoryEntry → EntryResult
answer none = failure does_not_exist
answer (some entry) = success entry

module _ (codec : Codec DirectoryEntry) where
  -- The bytes of a directory with the given entries.
  abbrev pub encode : List DirectoryEntry → Bytes
  encode [] = []
  encode (entry ∷ entries) = codec.to_vec entry ++ encode entries

  pub encode-append : (xs ys : List DirectoryEntry) → encode (xs ++ ys) ≡ encode xs ++ encode ys
  encode-append [] ys = refl
  encode-append (x ∷ xs) ys = rw (encode-append xs ys, append_assoc)

module _ (codec : Codec DirectoryEntry) (lawful : IsLawful codec) where
  -- One round, at an entry that can be read.
  search_loop-read :
      (fuel : ℕ) (file_name : Str) (bytes : Bytes) (entry : DirectoryEntry) (rest : Bytes)
      → codec.from_reader bytes ≡ some (entry, rest)
      → search_loop codec (suc fuel) file_name bytes ≡ (
          if entry.name == file_name
          then ok (success entry)
          else search_loop codec fuel file_name rest)
  unfolding search_loop
  search_loop-read fuel file_name bytes entry rest read = rw (read, search_loop)

  search_loop-unread :
      (fuel : ℕ) (file_name : Str) (bytes : Bytes)
      → codec.from_reader bytes ≡ none
      → search_loop codec (suc fuel) file_name bytes ≡ ok (failure does_not_exist)
  unfolding search_loop
  search_loop-unread fuel file_name bytes unread = rw (unread, search_loop)

  search_loop-answer :
      (fuel : ℕ) (file_name : Str) (entries : List DirectoryEntry) (torn : Bytes)
      → codec.from_reader torn ≡ none
      → length (encode codec entries ++ torn) < fuel
      → search_loop codec fuel file_name (encode codec entries ++ torn)
        ≡ ok (answer (find_entry file_name entries))
  search_loop-answer zero file_name entries torn unread enough = absurd (omega arith)
  search_loop-answer (suc fuel) file_name [] torn unread enough =
      search_loop-unread fuel file_name torn unread
  search_loop-answer (suc fuel) file_name (entry ∷ entries) torn unread enough =
      let rest = encode codec entries ++ torn in
      let regroup : encode codec (entry ∷ entries) ++ torn ≡ codec.to_vec entry ++ rest =
        append_assoc (codec.to_vec entry) (encode codec entries) torn in
      let read = lawful.read_back entry rest in
      let fewer = lawful.shorter (codec.to_vec entry ++ rest) entry rest read in
      let further =
        search_loop-answer fuel file_name entries torn unread (omega (arith, ap length regroup)) in
      rw
        (
          regroup,
          search_loop-read fuel file_name (codec.to_vec entry ++ rest) entry rest read,
          further,
        )
        (ground arith)

  search_loop-ne :
      (fuel : ℕ) (file_name : Str) (bytes : Bytes)
      → length bytes < fuel
      → search_loop codec fuel file_name bytes ≢ unfinished
  search_loop-ne zero file_name bytes enough = absurd (omega arith)
  search_loop-ne (suc fuel) file_name bytes enough = elim (Option-cases (codec.from_reader bytes)) [
    | inl unread ↦ rw (search_loop-unread fuel file_name bytes unread) (λ h. cc)
    | inr ((entry, rest), read) ↦
        let fewer = lawful.shorter bytes entry rest read in
        let further = search_loop-ne fuel file_name rest (omega arith) in
        rw (search_loop-read fuel file_name bytes entry rest read) (ground arith)
  ]

  -- With a lawful encoding of directory entries, a directory with the given entries, whatever
  -- unreadable bytes follow them, is searched as the list of its entries: the search ends, with
  -- the first entry of the name, or with DoesNotExist if no entry has it.
  pub search_directory_with_reader-answer :
      (file_name : Str) (entries : List DirectoryEntry) (torn : Bytes)
      → codec.from_reader torn ≡ none
      → search_directory_with_reader codec file_name (encode codec entries ++ torn)
        ≡ ok (answer (find_entry file_name entries))
  unfolding search_directory_with_reader
  search_directory_with_reader-answer file_name entries torn unread =
      search_loop-answer (suc (length (encode codec entries ++ torn))) file_name entries torn unread
        (omega arith)

  -- The search ends, whatever the bytes.
  pub search_directory_with_reader-ne :
      (file_name : Str) (bytes : Bytes)
      → search_directory_with_reader codec file_name bytes ≢ unfinished
  unfolding search_directory_with_reader
  search_directory_with_reader-ne file_name bytes =
      search_loop-ne (suc (length bytes)) file_name bytes (omega arith)
