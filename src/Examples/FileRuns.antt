-- ===== src/Examples/FileRuns.antt =====
-- The theorems on files and directories at the directory `listing`.
use vpfs_iroh.Base.{
  ◌+◌, Str, lit, str_eq, false, none, some, [], ◌∷◌, ◌++◌, ◌≡◌, ◌≢◌, refl, Outcome, ok, panicked,
  success, arith,
}
use vpfs_iroh.Files.{Disk, update, hex, create_file_with_random_uri}
use vpfs_iroh.Files.Uris.{create_file_with_random_uri-new, create_file_with_random_uri-total}
use vpfs_iroh.Directory.{search_directory_with_reader, search_directory, append_dir_entry}
use vpfs_iroh.Directory.Search.{
  find_entry, answer, encode, search_directory_with_reader-answer, search_directory_with_reader-ne,
}
use vpfs_iroh.Directory.Append.{
  insert_entry, NodupNames, Holds, append_dir_entry-insert_entry, search_directory-append_dir_entry,
}
use vpfs_iroh.Directory.Poison.{IsDead, append_dir_entry-IsDead}
use vpfs_iroh.Examples.Codecs.{entry_codec, entry_codec-IsLawful}
use vpfs_iroh.Examples.World.{listing, entry_of, blank, plain}

abbrev root_disk : Disk
root_disk = record blank {
  files = update blank.files (lit "root") (some (plain (encode entry_codec listing)));
}

root_Holds : Holds entry_codec root_disk (lit "root") listing
unfolding str_eq
root_Holds = refl

search_directory_with_reader-answer_example :
    search_directory_with_reader entry_codec
      (lit "notes")
      (encode entry_codec listing ++ 40 ∷ 1 ∷ [])
    ≡ ok (answer (find_entry (lit "notes") listing))
search_directory_with_reader-answer_example =
    search_directory_with_reader-answer entry_codec entry_codec-IsLawful (lit "notes") listing
      (40 ∷ 1 ∷ []) refl

search_directory_with_reader-ne_example :
    search_directory_with_reader entry_codec (lit "x") (4 ∷ 1 ∷ []) ≢ Outcome.unfinished
search_directory_with_reader-ne_example =
    search_directory_with_reader-ne entry_codec entry_codec-IsLawful (lit "x") (4 ∷ 1 ∷ [])

append_dir_entry-insert_entry_example :
    let new = entry_of (lit "notes") (lit "8") in
    (d' : Disk) × (append_dir_entry entry_codec (lit "root") new root_disk
      ≡ (ok (insert_entry new listing).0, d'))
    × Holds entry_codec d' (lit "root") (insert_entry new listing).1
    × ((name : Str) → name ≢ lit "root" → d'.files name ≡ root_disk.files name)
    × (d'.poisoned ≡ false)
    × (d'.drawn ≡ 0)
    × (NodupNames listing → NodupNames (insert_entry new listing).1)
append_dir_entry-insert_entry_example =
    append_dir_entry-insert_entry entry_codec entry_codec-IsLawful (lit "root")
      (entry_of (lit "notes") (lit "8")) root_disk listing refl root_Holds

search_directory-append_dir_entry_example :
    (search_directory entry_codec
      (lit "todo")
      (lit "root")
      (append_dir_entry entry_codec (lit "root") (entry_of (lit "todo") (lit "8")) root_disk).1).0
    ≡ ok (success (entry_of (lit "todo") (lit "8")))
unfolding str_eq
search_directory-append_dir_entry_example =
    search_directory-append_dir_entry entry_codec entry_codec-IsLawful (lit "root") (lit "todo")
      (entry_of (lit "todo") (lit "8")) root_disk listing refl root_Holds refl

append_dir_entry-IsDead_example :
    ((append_dir_entry entry_codec (lit "gone") (entry_of (lit "a") (lit "8")) root_disk).0
      ≡ panicked)
    × IsDead entry_codec
        (append_dir_entry entry_codec (lit "gone") (entry_of (lit "a") (lit "8")) root_disk).1
unfolding str_eq
append_dir_entry-IsDead_example =
    append_dir_entry-IsDead entry_codec (lit "gone") (entry_of (lit "a") (lit "8")) root_disk refl
      refl

create_file_with_random_uri-total_example :
    (uri : Str) × (d' : Disk) × (create_file_with_random_uri (λ n. n + 10) 1 root_disk
      ≡ (ok uri, d'))
unfolding str_eq hex
create_file_with_random_uri-total_example =
    create_file_with_random_uri-total (λ n. n + 10) 1 0 root_disk refl (omega arith)

create_file_with_random_uri-new_example :
    let d' = (create_file_with_random_uri (λ n. n + 10) 1 root_disk).1 in
    (root_disk.files (lit "a") ≡ none)
    × (d'.files ≡ update root_disk.files (lit "a") (some (record { bytes = []; modified = 9 })))
    × (◌≢◌ {A = Str} (lit "a") (lit "root"))
    × (◌≢◌ {A = Str} (lit "a") (lit "cache"))
    × (d'.poisoned ≡ false)
    × (d'.clock ≡ 9)
unfolding create_file_with_random_uri str_eq hex
create_file_with_random_uri-new_example =
    create_file_with_random_uri-new (λ n. n + 10) 1 root_disk refl
