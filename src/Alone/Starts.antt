-- ===== src/Alone/Starts.antt =====
-- A root daemon that starts on an empty directory is whole.
use vpfs_iroh.Base.{
  Str, lit, ◌==◌, str_eq, eq_refl, true, false, none, some, List, [], ◌∷◌, if◌then◌else◌, ok, ◌≡◌,
  refl, ap, arith,
}
use vpfs_iroh.Messages.{Location, DirectoryEntry}
use vpfs_iroh.Files.{Disk, put_file}
use vpfs_iroh.Codec.{IsLawful}
use vpfs_iroh.Directory.Append.{append_dir_entry-free}
use vpfs_iroh.Platform.{Platform}
use vpfs_iroh.State.{DaemonState}
use vpfs_iroh.Cache.{restore_cache}
use vpfs_iroh.Find.Local.{Tree}
use vpfs_iroh.Place.Trees.{grow}
use vpfs_iroh.Start.{Opt, initial_state, self_link, become_root, start}
use vpfs_iroh.Alone.{IsWhole}
use vpfs_iroh.Alone.Growth.{appended, IsPlaced-directory, IsWhole-grow}

-- A tree with an empty root directory alone.
abbrev pub bare : Tree
bare uri = if uri == lit "root" then some [] else none

-- The entries `.` and `..` of the root directory of a node.
abbrev pub root_links : Str → List DirectoryEntry
root_links node_name =
    let self : Location = record { node_name = node_name; uri = lit "root" } in
    record { location = self; name = lit "."; is_dir = true }
    ∷ record { location = self; name = lit ".."; is_dir = true }
    ∷ []

module _ (P : Platform) (lawful : IsLawful P.entry_codec) (s : DaemonState P)
    (root : s.root ≡ some s.local) (clean : s.disk.poisoned ≡ false)
    (empty : s.disk.files (lit "root") ≡ none) where
  abbrev bare_root : DaemonState P
  bare_root = record s { known_hosts = some []; disk = put_file (lit "root") [] s.disk }

  bare_root-IsWhole : IsWhole P bare bare_root
  bare_root-IsWhole = record {
    root_here = root;
    unpoisoned = clean;
    stored = λ uri entries held. ground arith;
    top = ([], rw (eq_refl (lit "root")) refl);
    placed = λ uri name entries entry held found.
        let none_there : entries ≡ [] = ground arith in absurd (ground arith);
  }

  -- The directory `root` gets its two entries.
  pub become_root-IsWhole :
      (s' : DaemonState P) × (become_root P s ≡ (ok tt, s'))
      × ((tree : Tree) × IsWhole P tree s' × (tree (lit "root") ≡ some (root_links s.local.name)))
      × (s'.local ≡ s.local)
      × (s'.known_hosts ≡ some [])
  unfolding become_root
  become_root-IsWhole =
      let dot = self_link P s (lit ".") in
      let dot_dot = self_link P s (lit "..") in
      let W0 = bare_root-IsWhole in
      let held0 : bare (lit "root") ≡ some [] = rw (eq_refl (lit "root")) refl in
      let tree1 = grow bare (lit "root") [] dot in
      let s1 = appended P (lit "root") [] dot bare_root in
      let W1 : IsWhole P tree1 s1 =
        IsWhole-grow P bare bare_root (lit "root") [] dot held0 W0
          (IsPlaced-directory P bare bare_root W0 dot [] refl held0 refl) in
      let held1 : tree1 (lit "root") ≡ some (dot ∷ []) = rw (eq_refl (lit "root")) refl in
      let W2 =
        IsWhole-grow P tree1 s1 (lit "root") (dot ∷ []) dot_dot held1 W1
          (IsPlaced-directory P tree1 s1 W1 dot_dot (dot ∷ []) refl held1 refl) in
      let add1 =
        append_dir_entry-free P.entry_codec lawful (lit "root") dot bare_root.disk [] clean
          (W0.stored (lit "root") [] held0) refl in
      let add2 =
        append_dir_entry-free P.entry_codec lawful (lit "root") dot_dot s1.disk (dot ∷ []) clean
          (W1.stored (lit "root") (dot ∷ []) held1) (unfold str_eq in refl) in
      (
        appended P (lit "root") (dot ∷ []) dot_dot s1,
        ground (arith, empty, add1, add2),
        (grow tree1 (lit "root") (dot ∷ []) dot_dot, W2, rw (eq_refl (lit "root")) refl),
        refl,
        refl,
      )

-- A root daemon that starts on an empty directory.
module _ (P : Platform) (lawful : IsLawful P.entry_codec) (opt : Opt P) (endpoint_id : P.PublicKey)
    (disk : Disk) (net : P.Net) where
  -- With a lawful encoding of directory entries, where the options give no root and the files of
  -- the daemon have neither root nor cache and a lock that is not poisoned, start goes on to
  -- serve clients, and the daemon, named as the options say and with no known hosts, is whole for
  -- a tree whose root directory has the entries . and .., both of which lead to it.
  pub start-IsWhole :
      opt.root_id ≡ none
      → disk.poisoned ≡ false
      → disk.files (lit "root") ≡ none
      → disk.files (lit "cache") ≡ none
      → (s' : DaemonState P) × (start P opt endpoint_id disk net ≡ (ok true, s'))
        × ((tree : Tree) × IsWhole P tree s' × (tree (lit "root") ≡ some (root_links opt.name)))
        × (s'.local.name ≡ opt.name)
        × (s'.known_hosts ≡ some [])
  unfolding start restore_cache initial_state
  start-IsWhole alone clean no_root no_cache =
      let s = initial_state P opt endpoint_id disk net in
      let (s', runs, whole, same, known) =
        become_root-IsWhole P lawful s (rw (alone) refl) clean no_root in
      (s', ground (arith, alone, no_cache, runs), whole, ap (λ n. n.name) same, known)
