-- ===== src/Shell/Listing.antt =====
-- applications/sh.rs: what `run_ls` prints at a whole daemon.
use vpfs_iroh.Base.{
  ℕ, zero, suc, ◌<◌, Str, lit, str_eq, true, false, none, some, List, [], ◌∷◌, ◌++◌, length,
  success, ok, after, ◌≡◌, refl, ap, ◌∙◌, arith,
}
use vpfs_iroh.Messages.{DirectoryEntry}
use vpfs_iroh.Text.{slash, split}
use vpfs_iroh.Codec.{Codec, IsLawful}
use vpfs_iroh.Files.{Disk, read_local}
use vpfs_iroh.Directory.Search.{encode}
use vpfs_iroh.Platform.{Platform}
use vpfs_iroh.State.{DaemonState}
use vpfs_iroh.Find.Local.{Tree, resolve, recursive_find-resolve}
use vpfs_iroh.Service.{fuel_of}
use vpfs_iroh.Client.{fetch, fetch_entry}
use vpfs_iroh.Client.Dialogue.{serving, quiet, IsServable}
use vpfs_iroh.Client.Calls.{find-recursive_find, read-read_local}
use vpfs_iroh.Alone.{IsWhole, IsWhole-IsLocalTree}
use vpfs_iroh.Alone.Found.{resolve-IsPlaced}
use vpfs_iroh.Alone.Starts.{root_links, start-IsWhole}
use vpfs_iroh.Start.{Opt, start}
use vpfs_iroh.Shell.Terminal.{System, Message, Console}
use vpfs_iroh.Shell.Dispatch.{list_loop, listed_path, run_ls}

-- The line of an entry.
abbrev pub line_of : DirectoryEntry → Message
line_of entry = Message.listed entry.is_dir entry.name entry.location.node_name

abbrev pub lines_of : List DirectoryEntry → List Message
lines_of [] = []
lines_of (entry ∷ entries) = line_of entry ∷ lines_of entries

module _ (codec : Codec DirectoryEntry) (lawful : IsLawful codec) where
  list_loop-encode :
      (fuel : ℕ) (entries : List DirectoryEntry)
      → length (encode codec entries) < fuel
      → list_loop codec fuel (encode codec entries) ≡ ok (lines_of entries)
  unfolding list_loop
  list_loop-encode zero entries enough = absurd (omega arith)
  list_loop-encode (suc fuel) [] enough = ground (arith, lawful.at_end)
  list_loop-encode (suc fuel) (entry ∷ entries) enough =
      let read_one = lawful.read_back entry (encode codec entries) in
      let fewer =
        lawful.shorter (codec.to_vec entry ++ encode codec entries) entry (encode codec entries)
          read_one in
      ground (arith, read_one, list_loop-encode fuel entries (omega arith))

module _ (P : Platform) (lawful : IsLawful P.entry_codec) (C : IsServable P) (draws : ℕ) where
  -- A directory that a path leads to is fetched as the encoding of its entries.
  fetch-encode :
      (tree : Tree) (d : DaemonState P) (path : Str) (entry : DirectoryEntry)
      (entries : List DirectoryEntry)
      → IsWhole P tree d
      → resolve tree (split slash path) ≡ success entry
      → tree entry.location.uri ≡ some entries
      → fetch (serving P draws) path (quiet P d)
        ≡ (ok (success (encode P.entry_codec entries)), quiet P d)
  unfolding fetch read_local
  fetch-encode tree d path entry entries W there held =
      let N = resolve-IsPlaced P tree d W (split slash path) entry there in
      let found =
        recursive_find-resolve P lawful tree d (IsWhole-IsLocalTree P tree d W) draws
          (fuel_of P path) path (omega arith)
        ∙ ap (λ r. (ok r, d)) there in
      ap (after (fetch_entry (serving P draws)))
        (find-recursive_find P C draws path (success entry) d d found)
      ∙ read-read_local P C draws entry.location (encode P.entry_codec entries) d d.disk N.here
          (ground (arith, W.unpoisoned, W.stored entry.location.uri entries held))

  module _ (S : System) where
    -- With lawful encodings of directory entries, of client requests and of client responses, on
    -- a connection to a daemon that is whole (IsWhole) on which nothing is under way, where the
    -- tree resolves the working directory, or . if that is empty, to an entry, and has a
    -- directory with some entries there, run_ls ends without a panic, prints one line for each of
    -- these entries in order, and changes nothing else.
    pub run_ls-lines_of :
        (tree : Tree) (d : DaemonState P) (entry : DirectoryEntry) (entries : List DirectoryEntry)
        (s : Console (serving P draws) S)
        → s.vpfs ≡ quiet P d
        → IsWhole P tree d
        → resolve tree (split slash (listed_path (serving P draws) S P.entry_codec s.cwd))
          ≡ success entry
        → tree entry.location.uri ≡ some entries
        → run_ls (serving P draws) S P.entry_codec s
          ≡ (ok tt, record s { printed = s.printed ++ lines_of entries })
    unfolding run_ls
    run_ls-lines_of tree d entry entries s linked W there held =
        let path = listed_path (serving P draws) S P.entry_codec s.cwd in
        let came = fetch-encode tree d path entry entries W there held in
        let lines =
          list_loop-encode P.entry_codec lawful (suc (length (encode P.entry_codec entries)))
            entries (omega arith) in
        ground (arith, came, lines, linked)

    -- With lawful encodings of directory entries, of client requests and of client responses,
    -- where the options give no root and the files of the daemon have neither root nor cache and
    -- a lock that is not poisoned, start goes on to serve clients, and run_ls in the root
    -- directory, on a connection to that daemon on which nothing is under way, ends without a
    -- panic, prints the lines of . and .. with the name of the daemon and nothing else, and
    -- changes nothing else.
    pub run_ls-start :
        (opt : Opt P) (endpoint_id : P.PublicKey) (disk : Disk) (net : P.Net)
        (s : Console (serving P draws) S)
        → opt.root_id ≡ none
        → disk.poisoned ≡ false
        → disk.files (lit "root") ≡ none
        → disk.files (lit "cache") ≡ none
        → s.cwd ≡ []
        → (d : DaemonState P) × (start P opt endpoint_id disk net ≡ (ok true, d))
          × (run_ls (serving P draws) S P.entry_codec (record s { vpfs = quiet P d }) ≡ (
            ok tt,
            record s {
              vpfs = quiet P d;
              printed =
                  s.printed
                  ++ Message.listed true (lit ".") opt.name
                    ∷ Message.listed true (lit "..") opt.name
                    ∷ [];
            },
          ))
    unfolding split
    run_ls-start opt endpoint_id disk net s alone clean no_root no_cache at_root =
        let (d, runs, (tree, W, held), named, known) =
          start-IsWhole P lawful opt endpoint_id disk net alone clean no_root no_cache in
        let self : DirectoryEntry = record {
          location = record { node_name = opt.name; uri = lit "root" };
          name = lit ".";
          is_dir = true;
        } in
        (
          d,
          runs,
          run_ls-lines_of tree d self (root_links opt.name) (record s { vpfs = quiet P d }) refl W
              (ground (arith, held, at_root)) held,
        )
