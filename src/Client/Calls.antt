-- ===== src/Client/Calls.antt =====
-- A call of the client library is the operation of the daemon that serves it.
use vpfs_iroh.Base.{
  ℕ, Str, str_eq, eq_refl, true, false, some, [], ◌++◌, length, append-nil, Result, success, ok,
  ◌≡◌, ◌≢◌, arith,
}
use vpfs_iroh.Messages.{Location, DirectoryEntry, VpfsError, ClientRequest, ClientResponse}
use vpfs_iroh.Files.{Bytes, Disk, read_local, write_local}
use vpfs_iroh.Platform.{Platform}
use vpfs_iroh.State.{DaemonState}
use vpfs_iroh.Cache.{set_disk}
use vpfs_iroh.Find.{read_remote, recursive_find}
use vpfs_iroh.Place.{place_file}
use vpfs_iroh.Service.{
  fuel_of, send_message_tcp, handle_client_request, handle_client_find, handle_client_place,
  handle_client_mkdir, handle_client_read, handle_client_write,
}
use vpfs_iroh.Client.{send_request_async, find, place, mkdir, read, write}
use vpfs_iroh.Client.Dialogue.{
  serving, quiet, IsServable, fill-length, drop-length, receive_response_async-handle,
  send_request-handle,
}

module _ (P : Platform) (C : IsServable P) (draws : ℕ) where
  pub find-recursive_find :
      (path : Str) (found : Result DirectoryEntry VpfsError) (d d' : DaemonState P)
      → recursive_find P draws (fuel_of P path) path d ≡ (ok found, d')
      → find (serving P draws) path (quiet P d) ≡ (ok found, quiet P d')
  unfolding find handle_client_request handle_client_find send_message_tcp
  find-recursive_find path found d d' run = ground (
    arith,
    send_request-handle P C draws (ClientRequest.find path) (ClientResponse.find found) d d'
        (ground (arith, run)),
  )

  pub place-place_file :
      (path at : Str) (placed : Result Location VpfsError) (d d' : DaemonState P)
      → place_file P draws (fuel_of P path) path at false d ≡ (ok placed, d')
      → place (serving P draws) path at (quiet P d) ≡ (ok placed, quiet P d')
  unfolding place handle_client_request handle_client_place send_message_tcp
  place-place_file path at placed d d' run = ground (
    arith,
    send_request-handle P C draws (ClientRequest.place path at) (ClientResponse.place placed) d d'
        (ground (arith, run)),
  )

  pub mkdir-place_file :
      (path at : Str) (placed : Result Location VpfsError) (d d' : DaemonState P)
      → place_file P draws (fuel_of P path) path at true d ≡ (ok placed, d')
      → mkdir (serving P draws) path at (quiet P d) ≡ (ok placed, quiet P d')
  unfolding mkdir handle_client_request handle_client_mkdir send_message_tcp
  mkdir-place_file path at placed d d' run = ground (
    arith,
    send_request-handle P C draws (ClientRequest.mkdir path at) (ClientResponse.mkdir placed) d d'
        (ground (arith, run)),
  )

  -- The bytes behind a response arrive whole.
  read-bytes :
      (location : Location) (bytes : Bytes) (d d' : DaemonState P)
      → handle_client_request P draws (ClientRequest.read location) (quiet P d) ≡ (
        ok tt,
        record (quiet P d') {
          outgoing =
              P.client_response_codec.to_vec (ClientResponse.read (success (length bytes)))
              ++ bytes;
        },
      )
      → read (serving P draws) location (quiet P d) ≡ (ok (success bytes), quiet P d')
  unfolding read send_request_async
  read-bytes location bytes d d' handled =
      let come =
        receive_response_async-handle P C draws (ClientRequest.read location)
          (ClientResponse.read (success (length bytes))) [] [] bytes d d' handled in
      let come' = rw append-nil at come in
      ground (arith, come', fill-length bytes, drop-length bytes)

  pub read-read_local :
      (location : Location) (bytes : Bytes) (d : DaemonState P) (disk : Disk)
      → location.node_name ≡ d.local.name
      → read_local location.uri d.disk ≡ (ok (some bytes), disk)
      → read (serving P draws) location (quiet P d)
        ≡ (ok (success bytes), quiet P (set_disk P disk d))
  unfolding handle_client_request handle_client_read send_message_tcp
  read-read_local location bytes d disk here run =
      read-bytes location bytes d (set_disk P disk d) (ground (arith, eq_refl d.local.name, run))

  pub read-read_remote :
      (location : Location) (bytes : Bytes) (d d' : DaemonState P)
      → location.node_name ≢ d.local.name
      → read_remote P draws location d ≡ (ok (success bytes), d')
      → read (serving P draws) location (quiet P d) ≡ (ok (success bytes), quiet P d')
  unfolding handle_client_request handle_client_read send_message_tcp
  read-read_remote location bytes d d' away run =
      read-bytes location bytes d d' (ground (arith, run))

  pub write-write_local :
      (location : Location) (bytes : Bytes) (d : DaemonState P) (disk : Disk)
      → location.node_name ≡ d.local.name
      → write_local location.uri bytes d.disk ≡ (ok true, disk)
      → write (serving P draws) location bytes (quiet P d)
        ≡ (ok (success tt), quiet P (set_disk P disk d))
  unfolding write send_request_async handle_client_request handle_client_write send_message_tcp
  write-write_local location bytes d disk here run =
      let handled : handle_client_request P draws (ClientRequest.write location (length bytes))
            (record (quiet P d) { incoming = bytes })
          ≡ (
            ok tt,
            record (quiet P (set_disk P disk d)) {
              outgoing =
                  P.client_response_codec.to_vec (ClientResponse.write (success (length bytes)))
                  ++ [];
            },
          ) =
        ground (
          arith,
          eq_refl d.local.name,
          run,
          fill-length bytes,
          drop-length bytes,
          append-nil
              (P.client_response_codec.to_vec (ClientResponse.write (success (length bytes)))),
        ) in
      ground (
        arith,
        receive_response_async-handle P C draws (ClientRequest.write location (length bytes))
            (ClientResponse.write (success (length bytes))) bytes [] [] d (set_disk P disk d)
            handled,
      )
