-- ===== src/Examples/ReadRuns.antt =====
-- What the daemon of FindRuns sends of `docs/plan` after a write and after a removal.
use vpfs_iroh.Base.{
  ◌>>=◌, pure, lit, str_eq, true, none, some, [], ◌∷◌, success, failure, ok, ◌≡◌, refl, arith,
}
use vpfs_iroh.Messages.{does_not_exist, not_modified, DaemonRequest, DaemonResponse}
use vpfs_iroh.Files.{Bytes, Disk, write_local}
use vpfs_iroh.State.{DaemonState}
use vpfs_iroh.Cache.{set_disk}
use vpfs_iroh.Wire.{send_message}
use vpfs_iroh.Protocol.{handle_request, remove_local, reply}
use vpfs_iroh.Protocol.Reads.{
  handle_request-write_local, handle_request-not_modified, handle_request-remove_local,
}
use vpfs_iroh.Examples.World.{offline}
use vpfs_iroh.Examples.FindRuns.{tree_disk, with_tree}

abbrev new_bytes : Bytes
new_bytes = 1 ∷ 2 ∷ []

abbrev written_disk : Disk
written_disk = (write_local (lit "8") new_bytes tree_disk).1

was_written : write_local (lit "8") new_bytes tree_disk ≡ (ok true, written_disk)
unfolding write_local str_eq
was_written = refl

abbrev written : DaemonState offline
written = set_disk offline written_disk with_tree

handle_request-write_local_example :
    handle_request offline 0 4 (DaemonRequest.read (lit "8") none) written
    ≡ (reply offline 4 (DaemonResponse.read (success tt)) >>= λ _.
          send_message offline offline.bytes_codec 4 new_bytes >>= λ _. pure tt)
        written
handle_request-write_local_example =
    handle_request-write_local offline 0 4 (lit "8") with_tree written_disk new_bytes none
      was_written (λ t h. cc)

handle_request-not_modified_example :
    handle_request offline 0 4 (DaemonRequest.read (lit "8") (some 12)) written
    ≡ reply offline 4 (DaemonResponse.read (failure not_modified)) written
handle_request-not_modified_example =
    handle_request-not_modified offline 0 4 (lit "8") with_tree written_disk new_bytes 12
      was_written (omega arith)

abbrev removed_disk : Disk
removed_disk = (remove_local (lit "8") tree_disk).1

was_removed : remove_local (lit "8") tree_disk ≡ (ok true, removed_disk)
unfolding remove_local str_eq
was_removed = refl

handle_request-remove_local_example :
    handle_request offline 0 4
      (DaemonRequest.read (lit "8") (some 12))
      (set_disk offline removed_disk with_tree)
    ≡ reply offline 4
        (DaemonResponse.read (failure does_not_exist))
        (set_disk offline removed_disk with_tree)
handle_request-remove_local_example =
    handle_request-remove_local offline 0 4 (lit "8") with_tree removed_disk (some 12) was_removed
