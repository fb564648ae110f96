-- ===== src/Protocol/Reads.antt =====
-- What a daemon sends of a file that was written or removed before.
use vpfs_iroh.Base.{
  ℕ, ◌≤◌, ◌<◌, Str, str_eq, eq_refl, true, Option, none, some, success, failure, ok, pure, ◌>>=◌,
  ◌≡◌, refl, arith,
}
use vpfs_iroh.Messages.{SystemTime, does_not_exist, not_modified, DaemonRequest, DaemonResponse}
use vpfs_iroh.Files.{Bytes, Disk, write_local, read_local}
use vpfs_iroh.Platform.{Platform}
use vpfs_iroh.State.{DaemonState}
use vpfs_iroh.Cache.{set_disk}
use vpfs_iroh.Wire.{send_message}
use vpfs_iroh.Protocol.{handle_request, handle_read, remove_local, reply}

module _ (P : Platform) (draws : ℕ) (stream : P.Stream) (uri : Str) (s : DaemonState P)
    (d : Disk) where
  -- After a write_local that succeeds, the answer to a Read by a daemon that has no copy, or one
  -- whose time is not after that of the write, is a success, followed by the bytes that were
  -- written.
  pub handle_request-write_local :
      (bytes : Bytes) (last : Option SystemTime)
      → write_local uri bytes s.disk ≡ (ok true, d)
      → ((t : SystemTime) → last ≡ some t → t ≤ s.disk.clock)
      → handle_request P draws stream (DaemonRequest.read uri last) (set_disk P d s)
        ≡ (reply P stream (DaemonResponse.read (success tt)) >>= λ _.
              send_message P P.bytes_codec stream bytes >>= λ _. pure tt)
            (set_disk P d s)
  unfolding handle_request handle_read write_local read_local
  handle_request-write_local bytes none wrote older = ground (arith, eq_refl uri)
  handle_request-write_local bytes (some t) wrote older = ground (arith, eq_refl uri, older t refl)

  -- After a write_local that succeeds, the answer to a Read by a daemon whose copy has a time
  -- after that of the write is NotModified, and no bytes follow.
  pub handle_request-not_modified :
      (bytes : Bytes) (t : SystemTime)
      → write_local uri bytes s.disk ≡ (ok true, d)
      → s.disk.clock < t
      → handle_request P draws stream (DaemonRequest.read uri (some t)) (set_disk P d s)
        ≡ reply P stream (DaemonResponse.read (failure not_modified)) (set_disk P d s)
  unfolding handle_request handle_read write_local read_local
  handle_request-not_modified bytes t wrote newer = ground (arith, eq_refl uri)

  -- After a removal that succeeds, the answer to a Read is DoesNotExist, whatever copy the other
  -- daemon has.
  pub handle_request-remove_local :
      (last : Option SystemTime)
      → remove_local uri s.disk ≡ (ok true, d)
      → handle_request P draws stream (DaemonRequest.read uri last) (set_disk P d s)
        ≡ reply P stream (DaemonResponse.read (failure does_not_exist)) (set_disk P d s)
  unfolding handle_request handle_read remove_local read_local
  handle_request-remove_local none removed = ground (arith, eq_refl uri)
  handle_request-remove_local (some t) removed = ground (arith, eq_refl uri)
