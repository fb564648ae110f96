-- ===== src/Client/Stored.antt =====
-- What a client stores at a root daemon is what it fetches.
use vpfs_iroh.Base.{
  ℕ, Str, str_eq, eq_refl, false, some, List, success, failure, ok, after, ◌≡◌, refl, ap, ◌∙◌,
  arith, Option-cases, inl, inr,
}
use vpfs_iroh.Messages.{DirectoryEntry, already_exists}
use vpfs_iroh.Text.{slash, split}
use vpfs_iroh.Files.{Bytes, Disk, put_file, read_local, write_local, create_file_with_random_uri}
use vpfs_iroh.Codec.{IsLawful}
use vpfs_iroh.Directory.Search.{find_entry}
use vpfs_iroh.Platform.{Platform}
use vpfs_iroh.State.{DaemonState}
use vpfs_iroh.Cache.{set_disk}
use vpfs_iroh.Find.Local.{Tree, resolve, recursive_find-resolve}
use vpfs_iroh.Service.{fuel_of}
use vpfs_iroh.Client.{write, fetch, fetch_entry, store, store_at}
use vpfs_iroh.Client.Dialogue.{serving, quiet, IsServable}
use vpfs_iroh.Client.Calls.{
  find-recursive_find, place-place_file, read-read_local, write-write_local,
}
use vpfs_iroh.Alone.{IsWhole, IsWhole-IsLocalTree}
use vpfs_iroh.Alone.Growth.{IsWhole-put_file}
use vpfs_iroh.Alone.Found.{resolve-IsPlaced}
use vpfs_iroh.Alone.Parents.{IsIn}
use vpfs_iroh.Alone.Stores.{place_file-free, place_file-refused}

module _ (P : Platform) (lawful : IsLawful P.entry_codec) (C : IsServable P) (draws : ℕ) where
  -- The file of an entry that a path leads to is written and then fetched by the path.
  write-fetch :
      (tree : Tree) (d : DaemonState P) (path : Str) (entry : DirectoryEntry) (buf : Bytes)
      → IsWhole P tree d
      → resolve tree (split slash path) ≡ success entry
      → entry.is_dir ≡ false
      → (d' : DaemonState P) × (write (serving P draws) entry.location buf (quiet P d)
          ≡ (ok (success tt), quiet P d'))
        × (fetch (serving P draws) path (quiet P d') ≡ (ok (success buf), quiet P d'))
  unfolding fetch read_local write_local
  write-fetch tree d path entry buf W there plain =
      let N = resolve-IsPlaced P tree d W (split slash path) entry there in
      let (file, old) = N.present in
      let d' = set_disk P (put_file entry.location.uri buf d.disk) d in
      let W' = IsWhole-put_file P tree d W entry.location.uri buf (N.apart plain) in
      let found =
        recursive_find-resolve P lawful tree d' (IsWhole-IsLocalTree P tree d' W') draws
          (fuel_of P path) path (omega arith)
        ∙ ap (λ r. (ok r, d')) there in
      (
        d',
        write-write_local P C draws entry.location buf d d'.disk N.here
            (ground (arith, W.unpoisoned)),
        ap (after (fetch_entry (serving P draws)))
              (find-recursive_find P C draws path (success entry) d' d' found)
            ∙ read-read_local P C draws entry.location buf d' d'.disk N.here
                (ground (arith, W.unpoisoned, eq_refl entry.location.uri)),
      )

  -- With lawful encodings of directory entries, of client requests and of client responses, over
  -- a connection to a daemon that is whole (IsWhole) on which nothing is under way, where a draw
  -- gives a free name, the path leads to a last name in a directory of the tree, and an entry
  -- that the directory has by the last name, if it has one, is not a directory, store of the path
  -- at the daemon succeeds, nothing is under way on the connection afterwards, and fetch of the
  -- path then returns the bytes that were stored.
  pub store-fetch :
      (tree : Tree) (d : DaemonState P) (W : IsWhole P tree d) (path directory name uri : Str)
      (disk : Disk) (entries : List DirectoryEntry) (buf : Bytes)
      → create_file_with_random_uri P.random draws d.disk ≡ (ok uri, disk)
      → IsIn tree path directory name
      → tree directory ≡ some entries
      → ((entry : DirectoryEntry) → find_entry name entries ≡ some entry → entry.is_dir ≡ false)
      → (d' : DaemonState P) × (store (serving P draws) d.local.name path buf (quiet P d)
          ≡ (ok (success tt), quiet P d'))
        × (fetch (serving P draws) path (quiet P d') ≡ (ok (success buf), quiet P d'))
  unfolding store
  store-fetch tree d W path directory name uri disk entries buf drawn h held plain =
      elim (Option-cases (find_entry name entries)) [
        | inl free ↦
            let E =
              place_file-free P lawful draws (fuel_of P path) tree d W path directory name uri disk
                entries drawn (omega arith) h held free in
            let entry : DirectoryEntry = record {
              location = record { node_name = d.local.name; uri = uri };
              name = name;
              is_dir = false;
            } in
            let (d', wrote, fetched) =
              write-fetch E.tree' E.last path entry buf E.whole E.there refl in
            (
              d',
              ap (after (store_at (serving P draws) buf)) (
                    place-place_file P C draws path d.local.name (success entry.location) d E.last
                      E.runs)
                  ∙ wrote,
              fetched,
            )
        | inr (entry, taken) ↦
            let E =
              place_file-refused P lawful draws (fuel_of P path) tree d W path directory name uri
                disk entries drawn (omega arith) h held entry taken in
            let (d', wrote, fetched) =
              write-fetch E.tree' E.last path entry buf E.whole E.there (plain entry taken) in
            (
              d',
              ap (after (store_at (serving P draws) buf)) (
                    place-place_file P C draws path d.local.name (failure (already_exists entry)) d
                      E.last E.runs)
                  ∙ wrote,
              fetched,
            )
      ]
