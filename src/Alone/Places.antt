-- ===== src/Alone/Places.antt =====
-- Placing a file or a directory leaves a whole daemon whole, whatever the path.
use vpfs_iroh.Base.{
  ℕ, ◌≤◌, Str, str_eq, eq_refl, Bool, true, false, none, some, List, [], ◌∷◌, ◌++◌, length, if-elim,
  Result, success, failure, ok, Exec, after, pure, ◌≡◌, ◌≢◌, refl, ap, ◌∙◌, arith, Option-cases,
  Bool-cases, inl, inr,
}
use vpfs_iroh.Messages.{Location, DirectoryEntry, VpfsError, already_exists}
use vpfs_iroh.Text.{slash, split}
use vpfs_iroh.Files.{File, Disk, update, put_file, delete_file, create_file_with_random_uri}
use vpfs_iroh.Files.Uris.{create_file_with_random_uri-new}
use vpfs_iroh.Codec.{IsLawful}
use vpfs_iroh.Directory.Search.{find_entry}
use vpfs_iroh.Platform.{Platform}
use vpfs_iroh.State.{DaemonState}
use vpfs_iroh.Cache.{set_disk}
use vpfs_iroh.Find.Local.{Tree}
use vpfs_iroh.Place.{
  PlaceResult, parent_found, place_file, place_uri, parent_of, append_at, add_dots, remove_at,
  finish, place_in,
}
use vpfs_iroh.Place.Trees.{grow}
use vpfs_iroh.Place.Failures.{update-none}
use vpfs_iroh.Alone.{IsPlaced, IsWhole, IsWhole-IsLocalTree}
use vpfs_iroh.Alone.Growth.{
  put_file-some, appended, free-none, IsPlaced-directory, IsWhole-grow, IsWhole-put_file,
  IsWhole-same,
}
use vpfs_iroh.Alone.Created.{add, IsWhole-create, IsWhole-add}
use vpfs_iroh.Alone.Parents.{
  ParentCase, in_directory, in_file, in_nothing, parent-cases, parent_of-resolve, parent_of-IsIn,
  IsIn-held,
}
use vpfs_iroh.Alone.Found.{resolve-IsPlaced}
use vpfs_iroh.Alone.Dots.{add_dots-file, add_dots-directory}
use vpfs_iroh.Alone.Appends.{
  EndsWhole, append_at-taken, append_at-free, append_at-file, EndsWhole-bind, EndsWhole-pure,
}

module _ (P : Platform) (lawful : IsLawful P.entry_codec) where
  module _ (draws fuel : ℕ) (tree : Tree) (s : DaemonState P) (W : IsWhole P tree s) (path : Str)
      (is_dir : Bool) (uri : Str) (d : Disk)
      (drawn : create_file_with_random_uri P.random draws s.disk ≡ (ok uri, d))
      (enough : length (split slash path) ≤ fuel) where
    abbrev new_place : Location
    new_place = record { node_name = s.local.name; uri = uri }

    abbrev created : DaemonState P
    created = set_disk P d s

    pub created-IsWhole : IsWhole P tree created
    created-IsWhole =
        let new = create_file_with_random_uri-new P.random draws s.disk drawn in
        IsWhole-create P tree s created W uri _ new.0 new.1 (new.4 ∙ W.unpoisoned) refl refl

    -- Once the parent is known.
    pub place_file-place_in :
        (r : Result (Location × Str) VpfsError)
        → parent_of P draws fuel path created ≡ (ok r, created)
        → place_file P draws fuel path s.local.name is_dir s ≡ place_in P new_place is_dir r created
    unfolding place_file place_uri
    place_file-place_in r known = ground (arith, eq_refl s.local.name, drawn, known)

    -- Where the new file is removed again.
    pub removed-IsWhole : IsWhole P tree (set_disk P (delete_file uri d) s)
    removed-IsWhole =
        let new = create_file_with_random_uri-new P.random draws s.disk drawn in
        IsWhole-same P tree s W (set_disk P (delete_file uri d) s)
          (ap (λ files. update files uri none) new.1 ∙ update-none s.disk.files uri _ new.0)
          (new.4 ∙ W.unpoisoned) W.root_here refl

    pub finish-failure :
        (parent : Location) (entry : DirectoryEntry) (error : VpfsError)
        → finish P new_place parent entry (failure error) created
          ≡ (ok (failure error), set_disk P (delete_file uri d) s)
    unfolding finish remove_at
    finish-failure parent entry error = ground (arith, eq_refl s.local.name)

    -- The entry that is to be added.
    abbrev entry_of : Str → DirectoryEntry
    entry_of name = record { location = new_place; name = name; is_dir = is_dir }

    place_in-refused :
        (parent : Location) (name : Str) (error : VpfsError)
        → append_at P parent (entry_of name) created ≡ (ok (failure error), created)
        → EndsWhole P (place_in P new_place is_dir (success (parent, name))) created
    unfolding place_in
    place_in-refused parent name error refused = record {
      result = failure error;
      last = set_disk P (delete_file uri d) s;
      tree = tree;
      runs =
          ap (after (finish P new_place parent (entry_of name))) refused
          ∙ finish-failure parent (entry_of name) error;
      whole = removed-IsWhole;
      same = refl;
    }

    -- The new file has no directory of the tree.
    pub uri-none : tree uri ≡ none
    uri-none =
        let new = create_file_with_random_uri-new P.random draws s.disk drawn in
        free-none P tree s W uri new.0

    pub new_file : (file : File) × (d.files uri ≡ some file)
    new_file =
        let new = create_file_with_random_uri-new P.random draws s.disk drawn in
        (
          record { bytes = []; modified = s.disk.clock },
          ap (λ f. f uri) new.1 ∙ rw (eq_refl uri) refl,
        )

    -- What follows an entry that was added.
    finish-success :
        (parent : Location) (name : Str) (tree' : Tree) (s' : DaemonState P)
        → IsWhole P tree' s'
        → (is_dir ≡ true → EndsWhole P (add_dots P new_place parent (entry_of name)) s')
        → EndsWhole P (finish P new_place parent (entry_of name) (success tt)) s'
    unfolding finish
    finish-success parent name tree' s' W' dots =
        if-elim (λ (m : Exec (DaemonState P) PlaceResult). EndsWhole P m s') is_dir
          (λ dir.
            let E = dots dir in
            EndsWhole-bind P (add_dots P new_place parent (entry_of name))
              (λ _. pure (success new_place)) s' E
              (EndsWhole-pure P (success new_place) E.tree E.last E.whole))
          (λ plain. EndsWhole-pure P (success new_place) tree' s' W')

    -- An entry is added to a directory: the new file is a directory of the tree, or a file.
    place_in-added :
        (directory name : Str) (entries : List DirectoryEntry) (tree' : Tree)
        → IsWhole P tree' created
        → tree' directory ≡ some entries
        → IsPlaced P tree' created (entry_of name)
        → (is_dir ≡ true → tree' uri ≡ some [])
        → directory ≢ uri
        → find_entry name entries ≡ none
        → EndsWhole P
            (place_in P new_place is_dir
              (success (record { node_name = s.local.name; uri = directory }, name)))
            created
    unfolding place_in
    place_in-added directory name entries tree' W' held N empty other free =
        let L : Location = record { node_name = s.local.name; uri = directory } in
        let s' = appended P directory entries (entry_of name) created in
        let W2 = IsWhole-grow P tree' created directory entries (entry_of name) held W' N in
        EndsWhole-bind P (append_at P L (entry_of name)) (finish P new_place L (entry_of name))
          created
          (record {
            result = success tt;
            last = s';
            tree = grow tree' directory entries (entry_of name);
            runs =
                append_at-free P lawful tree' created W' L refl (entry_of name) entries held free;
            whole = W2;
            same = refl;
          })
          (finish-success L name (grow tree' directory entries (entry_of name)) s' W2 (λ dir.
            add_dots-directory P lawful (grow tree' directory entries (entry_of name)) s' W2
              new_place L (entry_of name) (entries ++ entry_of name ∷ []) refl refl refl dir
              (ground (arith, empty dir)) (rw (eq_refl directory) refl)))

    -- Below a file, the bytes of the file are extended.
    place_in-file :
        (parent : DirectoryEntry) (name : Str)
        → IsPlaced P tree created parent
        → parent.is_dir ≡ false
        → EndsWhole P (place_in P new_place is_dir (success (parent.location, name))) created
    unfolding place_in
    place_in-file parent name N plain =
        let (file, there) = N.present in
        elim (append_at-file P lawful tree created created-IsWhole parent.location N.here
          (entry_of name) file there) [
            | inl (existing, refused) ↦
                place_in-refused parent.location name (already_exists existing) refused
            | inr added ↦
                let bytes = file.bytes ++ P.entry_codec.to_vec (entry_of name) in
                let s' = set_disk P (put_file parent.location.uri bytes d) s in
                let W' =
                  IsWhole-put_file P tree created created-IsWhole parent.location.uri bytes
                    (N.apart plain) in
                let (file', there') =
                  put_file-some d parent.location.uri uri bytes new_file.0 new_file.1 in
                EndsWhole-bind P (append_at P parent.location (entry_of name))
                  (finish P new_place parent.location (entry_of name)) created
                  (record {
                    result = success tt;
                    last = s';
                    tree = tree;
                    runs = added;
                    whole = W';
                    same = refl;
                  })
                  (finish-success parent.location name tree s' W' (λ dir.
                    add_dots-file P lawful tree s' W' new_place parent.location (entry_of name)
                      file' refl there' uri-none))
          ]

    -- In a directory, the entry is added or refused.
    place_in-directory :
        (directory name : Str) (entries : List DirectoryEntry)
        → tree directory ≡ some entries
        → EndsWhole P
            (place_in P new_place is_dir
              (success (record { node_name = s.local.name; uri = directory }, name)))
            created
    unfolding place_in
    place_in-directory directory name entries held = elim (Option-cases (find_entry name entries)) [
      | inr (existing, taken) ↦
          place_in-refused (record { node_name = s.local.name; uri = directory }) name
            (already_exists existing)
            (append_at-taken P lawful tree created created-IsWhole
              (record { node_name = s.local.name; uri = directory }) refl (entry_of name) entries
              existing held taken)
      | inl free ↦
          let other : directory ≢ uri =
            λ e. let found = ap tree e ∙ uri-none in absurd (ground arith) in
          elim (Bool-cases is_dir) [
            | inl dir ↦
                let new = create_file_with_random_uri-new P.random draws s.disk drawn in
                let W' =
                  IsWhole-add P tree s created W uri
                    (record { bytes = []; modified = s.disk.clock }) new.0 new.1
                    (new.4 ∙ W.unpoisoned) refl refl refl in
                let empty : add tree uri uri ≡ some [] = rw (eq_refl uri) refl in
                place_in-added directory name entries (add tree uri) W' (ground (arith, held))
                  (IsPlaced-directory P (add tree uri) created W' (entry_of name) [] refl empty dir)
                  (λ _. empty) other free
            | inr plain ↦
                place_in-added directory name entries tree created-IsWhole held
                  (record {
                    here = refl;
                    present = new_file;
                    below = λ dir. absurd (ground arith);
                    apart = λ _. uri-none;
                  })
                  (λ dir. absurd (ground arith)) other free
          ]
    ]

    place_in-cases :
        (c : ParentCase tree path)
        → (r : Result (Location × Str) VpfsError) × (parent_of P draws fuel path created
            ≡ (ok r, created))
          × EndsWhole P (place_in P new_place is_dir r) created
    unfolding place_in
    place_in-cases (in_directory directory name h) =
        let T = IsWhole-IsLocalTree P tree created created-IsWhole in
        let (entries, held) = IsIn-held P lawful draws fuel tree created T path directory name h in
        (
          success (record { node_name = s.local.name; uri = directory }, name),
          parent_of-IsIn P lawful draws fuel tree created T path directory name h enough,
          place_in-directory directory name entries held,
        )
    place_in-cases (in_file parent name entry parts there plain) =
        let T = IsWhole-IsLocalTree P tree created created-IsWhole in
        (
          success (entry.location, name),
          parent_of-resolve P lawful draws fuel tree created T path parent name parts enough
              ∙ ap (λ r. (ok (parent_found P name r), created)) there,
          place_in-file entry name
              (resolve-IsPlaced P tree created created-IsWhole (split slash parent) entry there)
              plain,
        )
    place_in-cases (in_nothing parent name error parts there) =
        let T = IsWhole-IsLocalTree P tree created created-IsWhole in
        (
          failure error,
          parent_of-resolve P lawful draws fuel tree created T path parent name parts enough
              ∙ ap (λ r. (ok (parent_found P name r), created)) there,
          EndsWhole-pure P (failure error) tree created created-IsWhole,
        )

    -- With a lawful encoding of directory entries, where a daemon is whole for a tree (it is the
    -- root, its lock is not poisoned, its files hold the directories of the tree, and what their
    -- entries name is there: a directory of the tree where the entry says so, else a file that is
    -- no directory of the tree), a draw gives a free name and the fuel is above the number of
    -- parts of the path, place_file at this daemon of a file or a directory, whatever the path,
    -- ends without a panic, with a daemon that is whole for some tree and is the same node.
    pub place_file-EndsWhole : EndsWhole P (place_file P draws fuel path s.local.name is_dir) s
    place_file-EndsWhole =
        let (r, known, E) = place_in-cases (parent-cases tree path) in
        record {
          result = E.result;
          last = E.last;
          tree = E.tree;
          runs = place_file-place_in r known ∙ E.runs;
          whole = E.whole;
          same = E.same;
        }
