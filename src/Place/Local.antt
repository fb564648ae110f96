-- ===== src/Place/Local.antt =====
-- Placing a file where the daemon is the root and has all directories.
use vpfs_iroh.Base.{
  eq_refl, ℕ, ◌≤◌, ◌<◌, Str, str_eq, true, false, none, some, List, [], ◌∷◌, ◌++◌, length,
  length-append, success, ok, after, pure, ◌≡◌, refl, sym, ap, ◌∙◌, arith,
}
use vpfs_iroh.Messages.{DirectoryEntry}
use vpfs_iroh.Text.{slash, split, rsplit_once}
use vpfs_iroh.Text.Split.{Lacks, split-cons, split-append, split-Lacks, rsplit_once-append}
use vpfs_iroh.Files.{Disk, put_file, create_file_with_random_uri}
use vpfs_iroh.Files.Uris.{create_file_with_random_uri-new}
use vpfs_iroh.Codec.{IsLawful}
use vpfs_iroh.Directory.Search.{find_entry, encode}
use vpfs_iroh.Directory.Append.{append_dir_entry-free}
use vpfs_iroh.Platform.{Platform}
use vpfs_iroh.State.{DaemonState}
use vpfs_iroh.Cache.{set_disk}
use vpfs_iroh.Find.{recursive_find}
use vpfs_iroh.Find.Local.{
  resolve-closed, Tree, resolve, descend, IsLocalTree, recursive_find-resolve,
}
use vpfs_iroh.Place.{
  parent_found, place_file, place_uri, parent_of, append_at, finish, place_in, place_at,
}
use vpfs_iroh.Place.Grown.{IsLocalTree-grow}
use vpfs_iroh.Place.Trees.{grow, find_entry-new, descend_all-append, resolve-grow}

-- The entry of a new file.
abbrev pub file_entry : Str → Str → Str → DirectoryEntry
file_entry node uri name = record {
  location = record { node_name = node; uri = uri };
  name = name;
  is_dir = false;
}

pub parent_of-below :
    (P : Platform) (draws fuel : ℕ) (path parent name : Str) (s : DaemonState P)
    → rsplit_once slash path ≡ some (parent, name)
    → parent_of P draws fuel path s
      ≡ after (λ found. pure (parent_found P name found)) (recursive_find P draws fuel parent s)
unfolding parent_of
parent_of-below P draws fuel path parent name s parts = rw (parts, parent_of) refl

module _ (P : Platform) (lawful : IsLawful P.entry_codec) (draws fuel : ℕ) (parent name : Str)
    (s : DaemonState P) (uri : Str) (d : Disk) (tree : Tree) (T : IsLocalTree P tree s)
    (drawn : create_file_with_random_uri P.random draws s.disk ≡ (ok uri, d)) where
  -- The new file is none of the directories.
  pub created-IsLocalTree : IsLocalTree P tree (set_disk P d s)
  created-IsLocalTree =
      let new = create_file_with_random_uri-new P.random draws s.disk drawn in
      record {
        root_here = T.root_here;
        unpoisoned = ground (arith, new, T.unpoisoned);
        stored = λ directory entries held. ground (arith, new, T.stored directory entries held);
        top = T.top;
        closed = T.closed;
      }

  pub place_uri-local : place_uri P draws s.local.name s ≡ (ok (some uri), set_disk P d s)
  unfolding place_uri
  place_uri-local = ground (arith, eq_refl s.local.name, drawn)

  parent_of-local :
      (directory : DirectoryEntry)
      → Lacks slash name
      → length (split slash parent) ≤ fuel
      → resolve tree (split slash parent) ≡ success directory
      → parent_of P draws fuel (parent ++ slash ∷ name) (set_disk P d s)
        ≡ (ok (success (directory.location, name)), set_disk P d s)
  parent_of-local directory lacks enough there =
      let found =
        recursive_find-resolve P lawful tree (set_disk P d s) created-IsLocalTree draws fuel parent
          enough in
      parent_of-below P draws fuel (parent ++ slash ∷ name) parent name (set_disk P d s)
        (rsplit_once-append slash parent name lacks)
      ∙ ap (after (λ r. pure (parent_found P name r)))
          (found ∙ ap (λ r. (ok r, set_disk P d s)) there)

  -- Up to the attempt to add the entry.
  pub place_file-parent :
      (directory : DirectoryEntry)
      → Lacks slash name
      → length (split slash parent) ≤ fuel
      → resolve tree (split slash parent) ≡ success directory
      → place_file P draws fuel (parent ++ slash ∷ name) s.local.name false s
        ≡ place_in P
            (record { node_name = s.local.name; uri = uri })
            false
            (success (directory.location, name))
            (set_disk P d s)
  unfolding place_file
  place_file-parent directory lacks enough there =
      let run : place_file P draws fuel (parent ++ slash ∷ name) s.local.name false s
          ≡ place_at P draws fuel (parent ++ slash ∷ name) s.local.name false (some uri)
              (set_disk P d s) =
        ap (after (place_at P draws fuel (parent ++ slash ∷ name) s.local.name false))
          place_uri-local in
      run
      ∙ ap (after (place_in P (record { node_name = s.local.name; uri = uri }) false))
          (parent_of-local directory lacks enough there)

  -- The entry is added to the directory.
  place_in-free :
      (directory : DirectoryEntry) (entries : List DirectoryEntry)
      → directory.location.node_name ≡ s.local.name
      → tree directory.location.uri ≡ some entries
      → find_entry name entries ≡ none
      → place_in P
          (record { node_name = s.local.name; uri = uri })
          false
          (success (directory.location, name))
          (set_disk P d s)
        ≡ (
          ok (success (record { node_name = s.local.name; uri = uri })),
          set_disk P
              (put_file directory.location.uri
                (encode P.entry_codec entries
                  ++ P.entry_codec.to_vec (file_entry s.local.name uri name))
                d)
              s,
        )
  unfolding place_in append_at finish
  place_in-free directory entries here held free =
      let T1 = created-IsLocalTree in
      ground (
        arith,
        here,
        eq_refl s.local.name,
        append_dir_entry-free P.entry_codec lawful directory.location.uri
            (file_entry s.local.name uri name) d entries T1.unpoisoned
            (T1.stored directory.location.uri entries held) free,
      )

  resolve-placed :
      (directory : DirectoryEntry) (entries : List DirectoryEntry)
      → Lacks slash name
      → resolve tree (split slash parent) ≡ success directory
      → directory.is_dir ≡ true
      → tree directory.location.uri ≡ some entries
      → find_entry name entries ≡ none
      → resolve
          (grow tree directory.location.uri entries (file_entry s.local.name uri name))
          (split slash (parent ++ slash ∷ name))
        ≡ success (file_entry s.local.name uri name)
  resolve-placed directory entries lacks there dir held free =
      let new = file_entry s.local.name uri name in
      let tree' = grow tree directory.location.uri entries new in
      let (first, names, parts) = split-cons slash parent in
      let all : split slash (parent ++ slash ∷ name) ≡ first ∷ names ++ name ∷ [] =
        split-append slash parent name ∙ rw (parts, split-Lacks slash name lacks) refl in
      let before : resolve tree' (first ∷ names) ≡ success directory =
        resolve-grow tree directory.location.uri entries new held (first ∷ names) directory
          (ap (resolve tree) (sym parts) ∙ there) in
      let last : resolve tree' (first ∷ names ++ name ∷ [])
          ≡ descend tree' name (resolve tree' (first ∷ names)) =
        descend_all-append tree' names name (resolve tree' (first ∷ [])) in
      ap (resolve tree') all
      ∙ last
      ∙ ap (descend tree' name) before
      ∙ rw (dir, eq_refl directory.location.uri, find_entry-new entries new free) refl

  -- With a lawful encoding of directory entries, where the daemon is the root and has the
  -- directories of a tree (IsLocalTree), a draw gives a free name, the path has a parent that the
  -- tree resolves to a directory without the last name of the path, and the fuel is above the
  -- number of parts of the parent, place_file of a file at this daemon succeeds with the drawn
  -- name, and recursive_find of the path then finds the new entry and leaves the daemon as it is.
  pub place_file-recursive_find :
      (directory : DirectoryEntry) (entries : List DirectoryEntry)
      → Lacks slash name
      → length (split slash parent) < fuel
      → resolve tree (split slash parent) ≡ success directory
      → directory.is_dir ≡ true
      → tree directory.location.uri ≡ some entries
      → find_entry name entries ≡ none
      → (s' : DaemonState P) × (place_file P draws fuel
            (parent ++ slash ∷ name)
            s.local.name
            false
            s
          ≡ (ok (success (record { node_name = s.local.name; uri = uri })), s'))
        × (recursive_find P draws fuel (parent ++ slash ∷ name) s'
            ≡ (ok (success (file_entry s.local.name uri name)), s'))
  place_file-recursive_find directory entries lacks enough there dir held free =
      let new = file_entry s.local.name uri name in
      let here = (resolve-closed P lawful tree s T (split slash parent) directory there dir).0 in
      let T1 = created-IsLocalTree in
      let s' =
        set_disk P
          (put_file directory.location.uri
            (encode P.entry_codec entries ++ P.entry_codec.to_vec new) d)
          s in
      let T2 =
        IsLocalTree-grow P tree (set_disk P d s) T1 directory.location.uri entries new held refl in
      let parts : split slash (parent ++ slash ∷ name) ≡ split slash parent ++ name ∷ [] =
        split-append slash parent name ∙ rw (split-Lacks slash name lacks) refl in
      let longer : length (split slash (parent ++ slash ∷ name)) ≤ fuel =
        omega (arith, ap length parts, length-append (split slash parent) (name ∷ [])) in
      (
        s',
        place_file-parent directory lacks (omega arith) there
            ∙ place_in-free directory entries here held free,
        recursive_find-resolve P lawful (grow tree directory.location.uri entries new) s' T2 draws
              fuel (parent ++ slash ∷ name) longer
            ∙ ap (λ r. (ok r, s')) (resolve-placed directory entries lacks there dir held free),
      )
