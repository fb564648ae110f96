-- ===== src/Platform.antt =====
-- What the sources take from other packages: iroh's keys, connections and streams, the lru crate's
-- cache, the rand crate's numbers, and serde_bare's encoding of each type that is written.
use vpfs_iroh.Base.{ℕ, Bool, Option, Eq}
use vpfs_iroh.Messages.{
  Location, DirectoryEntry, CacheEntry, VpfsNode, Hello, HelloResponse, DaemonRequest,
  DaemonResponse, ClientRequest, ClientResponse,
}
use vpfs_iroh.Files.{Bytes}
use vpfs_iroh.Codec.{Codec}
use vpfs_iroh.Lru.{LruCache}

-- `Net` is the state of the network with all that the other nodes do to it, also while a call waits for
-- them.
pub record Platform : Type 1 where
  pub PublicKey : Type 0
  pub key_eq : Eq PublicKey
  pub Connection : Type 0
  pub Stream : Type 0
  pub Net : Type 0
  pub connect : PublicKey → Net → Option Connection × Net
  pub open_bi : Connection → Net → Option Stream × Net
  pub write_all : Stream → Bytes → Net → Bool × Net
  pub read_exact : Stream → ℕ → Net → Option Bytes × Net
  pub lru : LruCache Location CacheEntry
  -- The numbers that `rng.random::<u64>()` gives, in order.
  pub random : ℕ → ℕ
  pub entry_codec : Codec DirectoryEntry
  pub location_codec : Codec Location
  pub cache_entry_codec : Codec CacheEntry
  pub usize_codec : Codec ℕ
  pub root_codec : Codec (Option (VpfsNode PublicKey))
  pub hello_codec : Codec (Hello PublicKey)
  pub hello_response_codec : Codec (HelloResponse PublicKey)
  pub request_codec : Codec DaemonRequest
  pub response_codec : Codec (DaemonResponse PublicKey)
  pub bytes_codec : Codec Bytes
  pub client_request_codec : Codec ClientRequest
  pub client_response_codec : Codec ClientResponse
