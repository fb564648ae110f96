-- ===== src/Client.antt =====
-- lib.rs: the client library, over what a TCP connection to a daemon does.
pub mod Dialogue
pub mod Calls
pub mod Stored
use vpfs_iroh.Base.{
  ℕ, Str, str_eq, ◌==◌, eqb, Bool, true, false, Option, none, some, length, if◌then◌else◌, Result,
  success, failure, Outcome, ok, panicked, Exec, pure, panic, gets, ◌>>=◌, ◌>>◌,
}
use vpfs_iroh.Messages.{
  Location, DirectoryEntry, VpfsError, only_in_cache, cache_needed_for_traversal, not_modified,
  does_not_exist, not_found, not_accessible, not_a_directory, already_exists, other, Hello,
  HelloResponse, ClientRequest, ClientResponse,
}
use vpfs_iroh.Codec.{Codec}
use vpfs_iroh.Files.{Bytes}

-- A connection, with all that is behind it. `read_value` is `serde_bare::from_reader`, `write_value`
-- is `serde_bare::to_writer`, and `read_exact` gives its buffer, whose bytes are not specified where
-- it fails.
pub record Transport : Type 1 where
  pub State : Type 0
  pub PublicKey : Type 0
  pub write_value : {A : Type 0} → Codec A → A → State → Bool × State
  pub read_value : {A : Type 0} → Codec A → State → Option A × State
  pub write_all : Bytes → State → Bool × State
  pub read_exact : ℕ → State → (Bool × Bytes) × State
  pub hello_codec : Codec (Hello PublicKey)
  pub hello_response_codec : Codec (HelloResponse PublicKey)
  pub client_request_codec : Codec ClientRequest
  pub client_response_codec : Codec ClientResponse

module _ (T : Transport) where
  -- An operation on the connection.
  abbrev pub on_stream : {A : Type 0} → (T.State → A × T.State) → Exec T.State A
  on_stream f s = let (a, s') = f s in (ok a, s')

  -- The `unwrap` of the write.
  abbrev written : Bool → Exec T.State (Unit {0})
  written true = pure tt
  written false = panic

  -- The `unwrap` of the read.
  abbrev received : Option ClientResponse → Exec T.State ClientResponse
  received none = panic
  received (some response) = pure response

  unfoldable pub send_request_async : ClientRequest → Exec T.State (Unit {0})
  send_request_async request = do
    sent ← on_stream (T.write_value T.client_request_codec request)
    written sent

  unfoldable pub receive_response_async : Exec T.State ClientResponse
  receive_response_async = do
    response ← on_stream (T.read_value T.client_response_codec)
    received response

  unfoldable pub send_request : ClientRequest → Exec T.State ClientResponse
  unfolding send_request_async receive_response_async
  send_request request = do send_request_async request; receive_response_async

  abbrev hello_name : Option (HelloResponse T.PublicKey) → Exec T.State (Option Str)
  hello_name (some (HelloResponse.client_hello name)) = pure (some name)
  hello_name _ = panic

  abbrev await_hello : Bool → Exec T.State (Option Str)
  await_hello false = pure none
  await_hello true = do
    response ← on_stream (T.read_value T.hello_response_codec)
    hello_name response

  -- `connect` on a TCP connection that is there: the name of the daemon, or `none` for an `Err`.
  unfoldable pub connect : Exec T.State (Option Str)
  connect = do sent ← on_stream (T.write_value T.hello_codec Hello.client_hello); await_hello sent

  abbrev find_response : ClientResponse → Exec T.State (Result DirectoryEntry VpfsError)
  find_response (ClientResponse.find result) = pure result
  find_response _ = panic

  unfoldable pub find : Str → Exec T.State (Result DirectoryEntry VpfsError)
  find path = do response ← send_request (ClientRequest.find path); find_response response

  abbrev place_response : ClientResponse → Exec T.State (Result Location VpfsError)
  place_response (ClientResponse.place result) = pure result
  place_response _ = panic

  unfoldable pub place : Str → Str → Exec T.State (Result Location VpfsError)
  place path at = do response ← send_request (ClientRequest.place path at); place_response response

  abbrev mkdir_response : ClientResponse → Exec T.State (Result Location VpfsError)
  mkdir_response (ClientResponse.mkdir result) = pure result
  mkdir_response _ = panic

  unfoldable pub mkdir : Str → Str → Exec T.State (Result Location VpfsError)
  mkdir path at = do response ← send_request (ClientRequest.mkdir path at); mkdir_response response

  -- Whether all the bytes came is not looked at.
  abbrev read_response : ClientResponse → Exec T.State (Result Bytes VpfsError)
  read_response (ClientResponse.read (success len)) = do
    (whole, bytes) ← on_stream (T.read_exact len)
    pure (success bytes)
  read_response (ClientResponse.read (failure error)) = pure (failure error)
  read_response _ = panic

  unfoldable pub read : Location → Exec T.State (Result Bytes VpfsError)
  unfolding send_request_async receive_response_async
  read what = do
    send_request_async (ClientRequest.read what)
    response ← receive_response_async
    read_response response

  -- The `assert` on the length.
  abbrev write_response : ℕ → ClientResponse → Exec T.State (Result (Unit {0}) VpfsError)
  write_response size (ClientResponse.write (success len)) =
      if eqb len size then pure (success tt) else panic
  write_response size (ClientResponse.write (failure error)) = pure (failure error)
  write_response size _ = panic

  -- Whether the bytes could be written is not looked at.
  unfoldable pub write : Location → Bytes → Exec T.State (Result (Unit {0}) VpfsError)
  unfolding send_request_async receive_response_async
  write what buf = do
    send_request_async (ClientRequest.write what (length buf))
    sent ← on_stream (T.write_all buf)
    response ← receive_response_async
    write_response (length buf) response

  abbrev pub fetch_entry : Result DirectoryEntry VpfsError → Exec T.State (Result Bytes VpfsError)
  fetch_entry (success entry) = read entry.location
  fetch_entry (failure error) = pure (failure error)

  unfoldable pub fetch : Str → Exec T.State (Result Bytes VpfsError)
  fetch name = do entry ← find name; fetch_entry entry

  -- Where the name is taken, its file is written.
  abbrev pub store_at :
      Bytes → Result Location VpfsError → Exec T.State (Result (Unit {0}) VpfsError)
  store_at buf (success location) = write location buf
  store_at buf (failure (already_exists entry)) = write entry.location buf
  store_at buf (failure error) = pure (failure error)

  -- `local` is the name that `connect` gave.
  unfoldable pub store : Str → Str → Bytes → Exec T.State (Result (Unit {0}) VpfsError)
  store local name buf = do location ← place name local; store_at buf location
