-- ===== src/Service.antt =====
-- daemon.rs: what a daemon does for a client program, over a TCP connection. The argument `draws` is
-- the fuel of `create_file_with_random_uri`; that of a lookup is the number of parts of the path.
pub mod Torn
use vpfs_iroh.Base.{
  ℕ, zero, suc, ◌-◌, Str, str_eq, ◌==◌, Bool, true, false, Option, none, some, [], ◌∷◌, ◌++◌,
  length, take, drop, leb, if◌then◌else◌, success, failure, ok, panicked, unfinished, Exec, pure,
  panic, gets, ◌>>=◌, ◌>>◌,
}
use vpfs_iroh.Messages.{
  Location, does_not_exist, not_accessible, Hello, HelloResponse, DaemonRequest, DaemonResponse,
  ClientRequest, ClientResponse,
}
use vpfs_iroh.Text.{slash, split}
use vpfs_iroh.Codec.{Codec}
use vpfs_iroh.Files.{Bytes, read_local, write_local}
use vpfs_iroh.Platform.{Platform}
use vpfs_iroh.State.{DaemonState, on_disk}
use vpfs_iroh.Wire.{on_net, send_message, receive_message}
use vpfs_iroh.Remote.{stream_for}
use vpfs_iroh.Find.{ReadResult, read_remote, recursive_find}
use vpfs_iroh.Place.{place_file}

-- `vec![0u8; n]`
abbrev pub zeros : ℕ → Bytes
zeros zero = []
zeros (suc n) = 0 ∷ zeros n

-- The buffer of a `read_exact`: where too few bytes come, the rest of it stays as it was.
abbrev pub fill : ℕ → Bytes → Bytes
fill n bytes = take n bytes ++ zeros (n - length bytes)

module _ (P : Platform) where
  -- The daemon and one connection: the bytes that the client sends, those that it gets, and
  -- whether writing fails.
  pub record Session : Type 0 where
    pub daemon : DaemonState P
    pub incoming : Bytes
    pub outgoing : Bytes
    pub broken : Bool

  -- An operation of the daemon.
  abbrev pub on_daemon {ℓ} : {A : Type ℓ} → Exec (DaemonState P) A → Exec Session A
  on_daemon m s = let (r, daemon) = m s.daemon in (r, record s { daemon = daemon })

  abbrev pub fuel_of : Str → ℕ
  fuel_of path = suc (length (split slash path))

  -- The `unwrap` panics where the connection is broken.
  unfoldable pub send_message_tcp : {A : Type 0} → Codec A → A → Exec Session (Unit {0})
  send_message_tcp codec message s =
      if s.broken
      then (panicked, s)
      else (ok tt, record s { outgoing = s.outgoing ++ codec.to_vec message })

  unfoldable pub receive_message_tcp : {A : Type 0} → Codec A → Exec Session (Option A)
  receive_message_tcp codec s = elim (codec.from_reader s.incoming) [
    | none ↦ (ok none, s)
    | some (message, rest) ↦ (ok (some message), record s { incoming = rest })
  ]

  -- `write_all`, whose result is not looked at.
  abbrev pub write_all : Bytes → Exec Session (Unit {0})
  write_all bytes s =
      if s.broken then (ok tt, s) else (ok tt, record s { outgoing = s.outgoing ++ bytes })

  -- `read_exact`: whether it succeeds, and the buffer.
  abbrev pub read_exact : ℕ → Exec Session (Bool × Bytes)
  read_exact n s =
      (ok (leb n (length s.incoming), fill n s.incoming), record s { incoming = drop n s.incoming })

  abbrev pub respond : ClientResponse → Exec Session (Unit {0})
  respond response = send_message_tcp P.client_response_codec response

  module _ (draws : ℕ) where
    unfoldable pub handle_client_find : Str → Exec Session (Unit {0})
    handle_client_find file = do
      found ← on_daemon (recursive_find P draws (fuel_of file) file)
      respond (ClientResponse.find found)

    unfoldable pub handle_client_place : Str → Str → Exec Session (Unit {0})
    handle_client_place file node_name = do
      placed ← on_daemon (place_file P draws (fuel_of file) file node_name false)
      respond (ClientResponse.place placed)

    unfoldable pub handle_client_mkdir : Str → Str → Exec Session (Unit {0})
    handle_client_mkdir directory node_name = do
      placed ← on_daemon (place_file P draws (fuel_of directory) directory node_name true)
      respond (ClientResponse.mkdir placed)

    -- The length, and the bytes behind it.
    abbrev pub send_file : Bytes → Exec Session (Unit {0})
    send_file bytes = do respond (ClientResponse.read (success (length bytes))); write_all bytes

    abbrev send_local : Option Bytes → Exec Session (Unit {0})
    send_local none = respond (ClientResponse.read (failure does_not_exist))
    send_local (some bytes) = send_file bytes

    abbrev send_remote : ReadResult → Exec Session (Unit {0})
    send_remote (success bytes) = send_file bytes
    send_remote (failure error) = respond (ClientResponse.read (failure error))

    unfoldable pub handle_client_read : Location → Exec Session (Unit {0})
    handle_client_read location s =
        if location.node_name == s.daemon.local.name
        then (do bytes ← on_daemon (on_disk P (read_local location.uri)); send_local bytes) s
        else (do bytes ← on_daemon (read_remote P draws location); send_remote bytes) s

    -- The `unwrap` of `read_exact` panics where the client sends too little.
    abbrev write_here : Str → Bool × Bytes → Exec Session (Unit {0})
    write_here uri (false, bytes) = panic
    write_here uri (true, bytes) = do
      written ← on_daemon (on_disk P (write_local uri bytes))
      respond (
          ClientResponse.write (if written then success (length bytes) else failure does_not_exist))

    -- Any other response is not passed on.
    abbrev pass_on : Option (DaemonResponse P.PublicKey) → Exec Session (Unit {0})
    pass_on (some (DaemonResponse.write result)) = respond (ClientResponse.write result)
    pass_on _ = pure tt

    -- Here the result of `read_exact` is not looked at.
    abbrev pub write_on : Str → ℕ → Option P.Stream → Exec Session (Unit {0})
    write_on uri file_len none = pure tt
    write_on uri file_len (some stream) = do
      (whole, bytes) ← read_exact file_len
      sent ← on_daemon (send_message P P.request_codec stream (DaemonRequest.write uri))
      sent' ← on_daemon (send_message P P.bytes_codec stream bytes)
      response ← on_daemon (receive_message P P.response_codec stream)
      pass_on response

    abbrev pub write_over : Str → ℕ → Option P.Connection → Exec Session (Unit {0})
    write_over uri file_len none = respond (ClientResponse.write (failure not_accessible))
    write_over uri file_len (some connection) = do
      stream ← on_daemon (on_net P (P.open_bi connection))
      write_on uri file_len stream

    unfoldable pub handle_client_write : Location → ℕ → Exec Session (Unit {0})
    handle_client_write location file_len s =
        if location.node_name == s.daemon.local.name
        then (do bytes ← read_exact file_len; write_here location.uri bytes) s
        else (do
          connection ← on_daemon (stream_for P location.node_name)
          write_over location.uri file_len connection)
            s

    unfoldable pub handle_client_request : ClientRequest → Exec Session (Unit {0})
    handle_client_request (ClientRequest.find file) = handle_client_find file
    handle_client_request (ClientRequest.place file node_name) = handle_client_place file node_name
    handle_client_request (ClientRequest.mkdir directory node_name) =
        handle_client_mkdir directory node_name
    handle_client_request (ClientRequest.read location) = handle_client_read location
    handle_client_request (ClientRequest.write location len) = handle_client_write location len

    -- The loop, to the request that is not there. The fuel bounds the requests.
    unfoldable pub handle_client : ℕ → Exec Session (Unit {0})
    handle_client zero = λ s. (unfinished, s)
    handle_client (suc fuel) = do
      request ← receive_message_tcp P.client_request_codec
      elim request [ none ↦ pure tt | some r ↦ handle_client_request r >> handle_client fuel ]

    abbrev greet_client : ℕ → Option (Hello P.PublicKey) → Exec Session (Unit {0})
    greet_client fuel (some Hello.client_hello) = do
      name ← gets (λ s. s.daemon.local.name)
      send_message_tcp P.hello_response_codec (HelloResponse.client_hello name)
      handle_client fuel
    greet_client fuel _ = pure tt

    unfoldable pub handle_connection : ℕ → Exec Session (Unit {0})
    handle_connection fuel = do hello ← receive_message_tcp P.hello_codec; greet_client fuel hello
