-- ===== src/Alone/Stores.antt =====
-- Placing a file in a directory of a whole daemon, where its name is free and where it is taken.
use vpfs_iroh.Base.{
  ℕ, ◌≤◌, Str, str_eq, eq_refl, false, none, some, List, length, Result, success, failure, ok,
  after, ◌≡◌, refl, ap, ◌∙◌, arith,
}
use vpfs_iroh.Messages.{Location, DirectoryEntry, VpfsError, already_exists}
use vpfs_iroh.Text.{slash, split}
use vpfs_iroh.Files.{Disk, delete_file, create_file_with_random_uri}
use vpfs_iroh.Codec.{IsLawful}
use vpfs_iroh.Directory.Search.{find_entry}
use vpfs_iroh.Platform.{Platform}
use vpfs_iroh.State.{DaemonState}
use vpfs_iroh.Cache.{set_disk}
use vpfs_iroh.Find.Local.{Tree, resolve}
use vpfs_iroh.Place.{place_file, finish, place_in}
use vpfs_iroh.Place.Trees.{grow, find_entry-new, resolve-grow}
use vpfs_iroh.Alone.{IsPlaced, IsWhole, IsWhole-IsLocalTree}
use vpfs_iroh.Alone.Growth.{appended, IsWhole-grow}
use vpfs_iroh.Alone.Parents.{IsIn, at_root, below, resolve-IsIn, parent_of-IsIn}
use vpfs_iroh.Alone.Appends.{append_at-taken, append_at-free}
use vpfs_iroh.Alone.Places.{
  created-IsWhole, removed-IsWhole, place_file-place_in, finish-failure, new_file, uri-none,
}

-- A path that is in a directory is in it in a larger tree.
IsIn-grow :
    (tree : Tree) (path directory name uri : Str) (entries : List DirectoryEntry)
    (new : DirectoryEntry)
    → tree uri ≡ some entries
    → IsIn tree path directory name
    → IsIn (grow tree uri entries new) path directory name
IsIn-grow tree path directory name uri entries new held (at_root lacks top same) =
    at_root lacks top same
IsIn-grow tree path directory name uri entries new held
      (below parent entry lacks e there dir same) =
    below parent entry lacks e
      (resolve-grow tree uri entries new held (split slash parent) entry there) dir same

module _ (P : Platform) (lawful : IsLawful P.entry_codec) (draws fuel : ℕ) (tree : Tree)
    (s : DaemonState P) (W : IsWhole P tree s) (path directory name uri : Str) (d : Disk)
    (entries : List DirectoryEntry)
    (drawn : create_file_with_random_uri P.random draws s.disk ≡ (ok uri, d))
    (enough : length (split slash path) ≤ fuel) (h : IsIn tree path directory name)
    (held : tree directory ≡ some entries) where
  -- The daemon after a file was placed, and what a lookup finds then.
  pub record IsStored (result : Result Location VpfsError) (entry : DirectoryEntry) : Type 0 where
    pub last : DaemonState P
    pub tree' : Tree
    pub runs : place_file P draws fuel path s.local.name false s ≡ (ok result, last)
    pub whole : IsWhole P tree' last
    pub same : last.local ≡ s.local
    pub there : resolve tree' (split slash path) ≡ success entry

  abbrev place_of : Location
  place_of = record { node_name = s.local.name; uri = uri }

  abbrev new_entry : DirectoryEntry
  new_entry = record { location = place_of; name = name; is_dir = false }

  abbrev L : Location
  L = record { node_name = s.local.name; uri = directory }

  W1 : IsWhole P tree (set_disk P d s)
  W1 = created-IsWhole P lawful draws fuel tree s W path false uri d drawn enough

  -- The placing, once the parent is known.
  place_file-known :
      place_file P draws fuel path s.local.name false s
      ≡ place_in P place_of false (success (L, name)) (set_disk P d s)
  place_file-known =
      place_file-place_in P lawful draws fuel tree s W path false uri d drawn enough
        (success (L, name))
        (parent_of-IsIn P lawful draws fuel tree (set_disk P d s)
          (IsWhole-IsLocalTree P tree (set_disk P d s) W1) path directory name h enough)

  -- A name that is free is found after it was placed.
  pub place_file-free : find_entry name entries ≡ none → IsStored (success place_of) new_entry
  unfolding place_in finish
  place_file-free free =
      let s' = appended P directory entries new_entry (set_disk P d s) in
      let added =
        append_at-free P lawful tree (set_disk P d s) W1 L refl new_entry entries held free in
      let there = new_file P lawful draws fuel tree s W path false uri d drawn enough in
      let N : IsPlaced P tree (set_disk P d s) new_entry = record {
        here = refl;
        present = there;
        below = λ dir. absurd (ground arith);
        apart = λ _. uri-none P lawful draws fuel tree s W path false uri d drawn enough;
      } in
      record {
        last = s';
        tree' = grow tree directory entries new_entry;
        runs = place_file-known ∙ ap (after (finish P place_of L new_entry)) added;
        whole = IsWhole-grow P tree (set_disk P d s) directory entries new_entry held W1 N;
        same = refl;
        there =
            resolve-IsIn (grow tree directory entries new_entry) path directory name
              (IsIn-grow tree path directory name directory entries new_entry held h)
            ∙ rw (eq_refl directory, find_entry-new entries new_entry free) refl;
      }

  -- A name that is taken is found as before.
  pub place_file-refused :
      (existing : DirectoryEntry)
      → find_entry name entries ≡ some existing
      → IsStored (failure (already_exists existing)) existing
  unfolding place_in
  place_file-refused existing taken =
      let refused =
        append_at-taken P lawful tree (set_disk P d s) W1 L refl new_entry entries existing held
          taken in
      record {
        last = set_disk P (delete_file uri d) s;
        tree' = tree;
        runs =
            place_file-known
            ∙ ap (after (finish P place_of L new_entry)) refused
            ∙ finish-failure P lawful draws fuel tree s W path false uri d drawn enough L new_entry
                (already_exists existing);
        whole = removed-IsWhole P lawful draws fuel tree s W path false uri d drawn enough;
        same = refl;
        there = resolve-IsIn tree path directory name h ∙ rw (held, taken) refl;
      }
