-- ===== src/Place.antt =====
-- file_system.rs: `place_file`. The argument `draws` is the fuel of `create_file_with_random_uri`,
-- `fuel` that of `recursive_find`.
pub mod Trees
pub mod Grown
pub mod Local
pub mod Failures
use vpfs_iroh.Base.{
  ℕ, Str, lit, ◌==◌, str_eq, Bool, true, false, Option, none, some, if◌then◌else◌, Result, success,
  failure, Outcome, ok, Exec, pure, gets, modify, ◌>>=◌, ◌>>◌,
}
use vpfs_iroh.Messages.{
  Location, DirectoryEntry, VpfsError, not_accessible, other, DaemonRequest, DaemonResponse,
}
use vpfs_iroh.Text.{slash, rsplit_once}
use vpfs_iroh.Files.{delete_file, create_file_with_random_uri}
use vpfs_iroh.Directory.{EntryResult, append_dir_entry}
use vpfs_iroh.Platform.{Platform}
use vpfs_iroh.State.{DaemonState, on_disk}
use vpfs_iroh.Cache.{set_disk}
use vpfs_iroh.Remote.{send_and_receive}
use vpfs_iroh.Find.{recursive_find}

abbrev pub Appended : Type 0
Appended = Result (Unit {0}) VpfsError

abbrev pub PlaceResult : Type 0
PlaceResult = Result Location VpfsError

module _ (P : Platform) where
  abbrev placed_uri : Option (DaemonResponse P.PublicKey) → Option Str
  placed_uri (some (DaemonResponse.place uri)) = some uri
  placed_uri _ = none

  -- An empty file at the node, if the node can be reached.
  unfoldable pub place_uri : ℕ → Str → Exec (DaemonState P) (Option Str)
  place_uri draws at s =
      if at == s.local.name
      then (do uri ← on_disk P (create_file_with_random_uri P.random draws); pure (some uri)) s
      else (do response ← send_and_receive P at DaemonRequest.place; pure (placed_uri response)) s

  abbrev pub parent_found : Str → EntryResult → Result (Location × Str) VpfsError
  parent_found name (success parent) = success (parent.location, name)
  parent_found name (failure error) = failure error

  -- The directory that a path is in, and the name that it has there.
  unfoldable pub parent_of : ℕ → ℕ → Str → Exec (DaemonState P) (Result (Location × Str) VpfsError)
  parent_of draws fuel path s = elim (rsplit_once slash path) [
    | some (parent, name) ↦
        (do found ← recursive_find P draws fuel parent; pure (parent_found name found)) s
    | none ↦ elim s.root [
      | none ↦ (ok (failure not_accessible), s)
      | some root ↦ (ok (success (record { node_name = root.name; uri = lit "root" }, path)), s)
    ]
  ]

  abbrev append_answer : Option (DaemonResponse P.PublicKey) → Appended
  append_answer (some (DaemonResponse.append_directory_entry result)) = result
  append_answer (some _) = failure (other (lit "Bad response"))
  append_answer none = failure (other (lit "Connection closed"))

  unfoldable pub append_at : Location → DirectoryEntry → Exec (DaemonState P) Appended
  append_at directory entry s =
      if directory.node_name == s.local.name
      then on_disk P (append_dir_entry P.entry_codec directory.uri entry) s
      else (do
        response ←
            send_and_receive P directory.node_name
              (DaemonRequest.append_directory_entry directory.uri entry)
        pure (append_answer response))
          s

  -- The entries `.` and `..` of a new directory; the results are not looked at.
  unfoldable pub add_dots : Location → Location → DirectoryEntry → Exec (DaemonState P) (Unit {0})
  add_dots new parent entry = do
    dot ← append_at new (record entry { name = lit "." })
    dot_dot ← append_at new (record { location = parent; name = lit ".."; is_dir = true })
    pure tt

  -- `fs::remove_file`, whose result is not looked at, or a request to the node.
  unfoldable pub remove_at : Location → Exec (DaemonState P) (Unit {0})
  remove_at location s =
      if location.node_name == s.local.name
      then (ok tt, set_disk P (delete_file location.uri s.disk) s)
      else (do
        response ← send_and_receive P location.node_name (DaemonRequest.remove location.uri)
        pure tt)
          s

  -- What follows the attempt to add the entry.
  unfoldable pub finish :
      Location → Location → DirectoryEntry → Appended → Exec (DaemonState P) PlaceResult
  finish new parent entry (success _) =
      if entry.is_dir
      then (do add_dots new parent entry; pure (success new))
      else pure (success new)
  finish new parent entry (failure error) = do remove_at new; pure (failure error)

  unfoldable pub place_in :
      Location → Bool → Result (Location × Str) VpfsError → Exec (DaemonState P) PlaceResult
  place_in new is_dir (failure error) = pure (failure error)
  place_in new is_dir (success (parent, name)) = do
    let entry : DirectoryEntry = record { location = new; name = name; is_dir = is_dir }
    added ← append_at parent entry
    finish new parent entry added

  abbrev pub place_at : ℕ → ℕ → Str → Str → Bool → Option Str → Exec (DaemonState P) PlaceResult
  place_at draws fuel path at is_dir none = pure (failure not_accessible)
  place_at draws fuel path at is_dir (some uri) = do
    parent ← parent_of draws fuel path
    place_in (record { node_name = at; uri = uri }) is_dir parent

  unfoldable pub place_file : ℕ → ℕ → Str → Str → Bool → Exec (DaemonState P) PlaceResult
  place_file draws fuel path at is_dir = do
    uri ← place_uri draws at
    place_at draws fuel path at is_dir uri
