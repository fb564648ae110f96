-- ===== src/Protocol.antt =====
-- protocol.rs: what a daemon does on a stream that another daemon opened: `handle_request` is a
-- round of the loop of `handle_daemon`, `handle_hello` the first round in `handle_connection`. The
-- argument `draws` is the fuel of `create_file_with_random_uri`.
pub mod Reads
use vpfs_iroh.Base.{
  ℕ, Str, str_eq, Bool, true, false, Option, none, some, if◌then◌else◌, leb, length, Result,
  success, failure, Outcome, ok, panicked, Exec, pure, panic, gets, ◌>>=◌, ◌>>◌,
}
use vpfs_iroh.Messages.{
  VpfsError, does_not_exist, not_modified, SystemTime, Hello, HelloResponse, DaemonRequest,
  DaemonResponse,
}
use vpfs_iroh.Files.{
  Bytes, Disk, lock, delete_file, modified_of, read_local, write_local, create_file_with_random_uri,
}
use vpfs_iroh.Directory.{append_dir_entry}
use vpfs_iroh.Lru.{lookup, touch}
use vpfs_iroh.Platform.{Platform}
use vpfs_iroh.State.{DaemonState, on_disk}
use vpfs_iroh.Wire.{send_message, receive_message}

-- Whether the file is as new as the copy that the other daemon has; without a copy, or without the
-- time of the file, it is sent.
abbrev pub is_fresh : Str → Option SystemTime → Exec Disk Bool
is_fresh uri none = pure true
is_fresh uri (some remote) = do
  lock
  λ d. (ok (elim (modified_of uri d) [ none ↦ true | some here ↦ leb remote here ]), d)

-- `fs::remove_file`
abbrev remove_file : Str → Exec Disk Bool
remove_file uri d = elim (d.files uri) [
  | none ↦ (ok false, d)
  | some _ ↦ (ok true, delete_file uri d)
]

unfoldable pub remove_local : Str → Exec Disk Bool
remove_local uri = do lock; remove_file uri

module _ (P : Platform) where
  -- What was sent, or not, is not looked at.
  abbrev pub reply : P.Stream → DaemonResponse P.PublicKey → Exec (DaemonState P) (Unit {0})
  reply stream response = do sent ← send_message P P.response_codec stream response; pure tt

  abbrev send_file : P.Stream → Option Bytes → Exec (DaemonState P) (Unit {0})
  send_file stream none = reply stream (DaemonResponse.read (failure does_not_exist))
  send_file stream (some bytes) = do
    reply stream (DaemonResponse.read (success tt))
    sent ← send_message P P.bytes_codec stream bytes
    pure tt

  abbrev read_if : P.Stream → Str → Bool → Exec (DaemonState P) (Unit {0})
  read_if stream uri false = reply stream (DaemonResponse.read (failure not_modified))
  read_if stream uri true = do bytes ← on_disk P (read_local uri); send_file stream bytes

  unfoldable pub handle_read : P.Stream → Str → Option SystemTime → Exec (DaemonState P) (Unit {0})
  handle_read stream uri last_modified = do
    fresh ← on_disk P (is_fresh uri last_modified)
    read_if stream uri fresh

  -- The `unwrap` of the message with the bytes panics.
  abbrev write_received : P.Stream → Str → Option Bytes → Exec (DaemonState P) (Unit {0})
  write_received stream uri none = panic
  write_received stream uri (some bytes) = do
    written ← on_disk P (write_local uri bytes)
    reply stream
        (DaemonResponse.write (if written then success (length bytes) else failure does_not_exist))

  unfoldable pub handle_write : P.Stream → Str → Exec (DaemonState P) (Unit {0})
  handle_write stream uri = do
    bytes ← receive_message P P.bytes_codec stream
    write_received stream uri bytes

  abbrev known_address : Str → DaemonState P → Option P.PublicKey
  known_address name s = elim s.known_hosts [ none ↦ none | some hosts ↦ lookup name hosts ]

  unfoldable pub handle_request : ℕ → P.Stream → DaemonRequest → Exec (DaemonState P) (Unit {0})
  handle_request draws stream DaemonRequest.place = do
    uri ← on_disk P (create_file_with_random_uri P.random draws)
    reply stream (DaemonResponse.place uri)
  handle_request draws stream (DaemonRequest.read uri last_modified) =
      handle_read stream uri last_modified
  handle_request draws stream (DaemonRequest.write uri) = handle_write stream uri
  handle_request draws stream (DaemonRequest.append_directory_entry directory new_entry) = do
    added ← on_disk P (append_dir_entry P.entry_codec directory new_entry)
    reply stream (DaemonResponse.append_directory_entry added)
  handle_request draws stream (DaemonRequest.remove uri) = do
    removed ← on_disk P (remove_local uri)
    reply stream (DaemonResponse.remove (if removed then success tt else failure does_not_exist))
  handle_request draws stream (DaemonRequest.address_for name) = do
    address ← gets (known_address name)
    reply stream (DaemonResponse.address_for address)

  abbrev answer_hello : P.Stream → HelloResponse P.PublicKey → Exec (DaemonState P) Bool
  answer_hello stream response = do
    sent ← send_message P P.hello_response_codec stream response
    pure true

  -- The node is known from here on, also where the `unwrap` of the root panics.
  abbrev welcome : P.Stream → P.PublicKey → Str → Exec (DaemonState P) Bool
  welcome stream remote_id name s = elim s.known_hosts [
    | none ↦ (panicked, s)
    | some hosts ↦
        let hosts' = touch name remote_id hosts in
        let s' = record s { known_hosts = some hosts' } in
        elim s.root [
          | none ↦ (panicked, s')
          | some root ↦ answer_hello stream (HelloResponse.root_hello root hosts') s'
        ]
  ]

  -- The result tells whether the requests of a daemon follow.
  unfoldable pub handle_hello :
      P.Stream → P.PublicKey → Option (Hello P.PublicKey) → Exec (DaemonState P) Bool
  handle_hello stream remote_id (some Hello.daemon_hello) =
      answer_hello stream HelloResponse.daemon_hello
  handle_hello stream remote_id (some (Hello.root_hello node)) = welcome stream remote_id node.name
  handle_hello stream remote_id _ = pure false
