-- ===== src/Wire.antt =====
-- remote_communication.rs: messages on a stream. A message is its length in eight bytes, the most
-- significant first, and its encoding. A panic of the network's own code is not modelled.
pub mod Numbers
pub mod Frames
use vpfs_iroh.Base.{
  ℕ, zero, suc, ◌+◌, ◌*◌, ◌/◌, ◌%◌, ◌^◌, Bool, true, false, Option, none, some, List, [], ◌∷◌, ◌++◌,
  length, if◌then◌else◌, Outcome, ok, panicked, unfinished, Exec, pure, ◌>>=◌, ◌>>◌,
}
use vpfs_iroh.Codec.{Codec}
use vpfs_iroh.Files.{Bytes}
use vpfs_iroh.Platform.{Platform}
use vpfs_iroh.State.{DaemonState}

-- `to_be_bytes`, for the given number of bytes.
unfoldable pub to_be_bytes : ℕ → ℕ → Bytes
to_be_bytes zero n = []
to_be_bytes (suc size) n = to_be_bytes size (n / 256) ++ n % 256 ∷ []

-- `from_be_bytes`
unfoldable pub from_be_bytes : ℕ → Bytes → ℕ
from_be_bytes acc [] = acc
from_be_bytes acc (byte ∷ bytes) = from_be_bytes (acc * 256 + byte) bytes

module _ (P : Platform) where
  -- An operation on the network, on the daemon that makes it.
  abbrev pub on_net {ℓ} : {A : Type ℓ} → (P.Net → A × P.Net) → Exec (DaemonState P) A
  on_net f s = let (a, net) = f s.net in (ok a, record s { net = net })

  abbrev pub if_written : Bool → Exec (DaemonState P) Bool → Exec (DaemonState P) Bool
  if_written true m = m
  if_written false m = pure false

  -- The result tells `Ok` from `Err`.
  unfoldable pub send_message : {A : Type 0} → Codec A → P.Stream → A → Exec (DaemonState P) Bool
  send_message codec stream message = do
    let bytes = codec.to_vec message
    written ← on_net (P.write_all stream (to_be_bytes 8 (length bytes)))
    if_written written (on_net (P.write_all stream bytes))

  abbrev decode_read : {A : Type 0} → Codec A → Option Bytes → Option A
  decode_read codec none = none
  decode_read codec (some bytes) = codec.from_slice bytes

  abbrev pub receive_payload :
      {A : Type 0} → Codec A → P.Stream → Option Bytes → Exec (DaemonState P) (Option A)
  receive_payload codec stream none = pure none
  receive_payload codec stream (some size) = do
    read ← on_net (P.read_exact stream (from_be_bytes 0 size))
    pure (decode_read codec read)

  -- `none` is an `Err`: the stream ended, or the bytes are no message.
  unfoldable pub receive_message :
      {A : Type 0} → Codec A → P.Stream → Exec (DaemonState P) (Option A)
  receive_message codec stream = do
    size ← on_net (P.read_exact stream 8)
    receive_payload codec stream size
