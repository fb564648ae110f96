-- ===== src/Remote.antt =====
-- remote_communication.rs: connections to other daemons, by name.
pub mod Kept
use vpfs_iroh.Base.{
  Str, ◌==◌, str_eq, Bool, ◌&&◌, Option, none, some, if◌then◌else◌, ok, panicked, Exec, pure, panic,
  ◌>>=◌,
}
use vpfs_iroh.Messages.{Hello, HelloResponse, DaemonRequest, DaemonResponse, address_for}
use vpfs_iroh.Lru.{lookup, touch}
use vpfs_iroh.Platform.{Platform}
use vpfs_iroh.State.{DaemonState, Node}
use vpfs_iroh.Wire.{on_net, send_message, receive_message}

module _ (P : Platform) where
  -- The derived `==` of `VPFSNode`.
  unfoldable pub same_node : Node P → Node P → Bool
  same_node a b = a.name == b.name && (◌==◌ ⦃e = P.key_eq⦄ a.endpoint_id b.endpoint_id)

  -- The `unwrap` of the response.
  abbrev pub greeted :
      P.Connection → Option (HelloResponse P.PublicKey) → Exec (DaemonState P) (Option P.Connection)
  greeted connection none = panic
  greeted connection (some _) = pure (some connection)

  abbrev pub greet : P.Connection → Option P.Stream → Exec (DaemonState P) (Option P.Connection)
  greet connection none = pure none
  greet connection (some stream) = do
    sent ← send_message P P.hello_codec stream Hello.daemon_hello
    response ← receive_message P P.hello_response_codec stream
    greeted connection response

  abbrev pub open_and_greet : Option P.Connection → Exec (DaemonState P) (Option P.Connection)
  open_and_greet none = pure none
  open_and_greet (some connection) = do
    stream ← on_net P (P.open_bi connection)
    greet connection stream

  -- The hello on a new connection must be answered by some hello.
  unfoldable pub establish_connection : P.PublicKey → Exec (DaemonState P) (Option P.Connection)
  establish_connection remote_id = do
    connection ← on_net P (P.connect remote_id)
    open_and_greet connection

  abbrev pub remember : Str → P.Connection → Exec (DaemonState P) (Option P.Connection)
  remember name connection s =
      (ok (some connection), record s { connections = touch name connection s.connections })

  abbrev pub remembered : Str → Option P.Connection → Exec (DaemonState P) (Option P.Connection)
  remembered name none = pure none
  remembered name (some connection) = remember name connection

  abbrev pub connect_known : Str → Option P.PublicKey → Exec (DaemonState P) (Option P.Connection)
  connect_known name none = pure none
  connect_known name (some remote_id) = do
    connection ← establish_connection remote_id
    remembered name connection

  -- The answer of the root to `AddressFor`.
  abbrev pub connect_answer :
      Str → Option (DaemonResponse P.PublicKey) → Exec (DaemonState P) (Option P.Connection)
  connect_answer name (some (address_for (some remote_id))) = connect_known name (some remote_id)
  connect_answer name _ = pure none

  abbrev pub ask_on : Str → Option P.Stream → Exec (DaemonState P) (Option P.Connection)
  ask_on name none = pure none
  ask_on name (some stream) = do
    sent ← send_message P P.request_codec stream (DaemonRequest.address_for name)
    response ← receive_message P P.response_codec stream
    connect_answer name response

  abbrev pub ask_over : Str → Option P.Connection → Exec (DaemonState P) (Option P.Connection)
  ask_over name none = pure none
  ask_over name (some connection) = do stream ← on_net P (P.open_bi connection); ask_on name stream

  -- The part that asks the root, unless this daemon is the root.
  unfoldable pub ask_root : Str → Exec (DaemonState P) (Option P.Connection)
  ask_root name s = elim s.root [
    | none ↦ (ok none, s)
    | some root ↦
        if same_node s.local root
        then (ok none, s)
        else ask_over name (lookup root.name s.connections) s
  ]

  abbrev pub or_ask_root : Str → Option P.Connection → Exec (DaemonState P) (Option P.Connection)
  or_ask_root name none = ask_root name
  or_ask_root name (some connection) = pure (some connection)

  -- The unwrap of `known_hosts` panics before they are known.
  abbrev pub connect_new : Str → Exec (DaemonState P) (Option P.Connection)
  connect_new name s = elim s.known_hosts [
    | none ↦ (panicked, s)
    | some hosts ↦ (connect_known name (lookup name hosts) >>= or_ask_root name) s
  ]

  -- The connection that is there, or a new one that is kept.
  unfoldable pub stream_for : Str → Exec (DaemonState P) (Option P.Connection)
  stream_for name s = elim (lookup name s.connections) [
    | some connection ↦ (ok (some connection), s)
    | none ↦ connect_new name s
  ]

  abbrev exchange :
      DaemonRequest → Option P.Stream → Exec (DaemonState P) (Option (DaemonResponse P.PublicKey))
  exchange message none = pure none
  exchange message (some stream) = do
    sent ← send_message P P.request_codec stream message
    receive_message P P.response_codec stream

  abbrev exchange_over :
      DaemonRequest
      → Option P.Connection
      → Exec (DaemonState P) (Option (DaemonResponse P.PublicKey))
  exchange_over message none = pure none
  exchange_over message (some connection) = do
    stream ← on_net P (P.open_bi connection)
    exchange message stream

  -- `none` is an `Err`.
  unfoldable pub send_and_receive :
      Str → DaemonRequest → Exec (DaemonState P) (Option (DaemonResponse P.PublicKey))
  send_and_receive name message = do connection ← stream_for name; exchange_over message connection
