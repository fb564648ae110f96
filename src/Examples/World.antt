-- ===== src/Examples/World.antt =====
-- A platform whose network is down and whose random numbers count up, and daemons on it.
use vpfs_iroh.Base.{ℕ, Str, lit, false, none, some, List, [], ◌∷◌, str_eq}
use native.Mathlib.Decide.{ℕ_discrete}
use vpfs_iroh.Messages.{Location, DirectoryEntry, CacheEntry, VpfsNode, location_eq}
use vpfs_iroh.Files.{Bytes, File, Disk, update}
use vpfs_iroh.Lru.{list_lru}
use vpfs_iroh.Platform.{Platform}
use vpfs_iroh.State.{DaemonState}
use vpfs_iroh.Examples.Codecs
use vpfs_iroh.Examples.ClientCodecs.{client_request_codec, client_response_codec}

abbrev pub offline : Platform
offline = record {
  PublicKey = ℕ;
  key_eq = record { dec = ℕ_discrete };
  Connection = ℕ;
  Stream = ℕ;
  Net = Unit;
  connect = λ key net. (none, net);
  open_bi = λ connection net. (none, net);
  write_all = λ stream bytes net. (false, net);
  read_exact = λ stream n net. (none, net);
  lru = list_lru;
  random = λ n. n;
  entry_codec = Codecs.entry_codec;
  location_codec = Codecs.location_codec;
  cache_entry_codec = Codecs.cache_entry_codec;
  usize_codec = Codecs.usize_codec;
  root_codec = Codecs.option_codec Codecs.node_codec;
  hello_codec = Codecs.no_codec;
  hello_response_codec = Codecs.no_codec;
  request_codec = Codecs.no_codec;
  response_codec = Codecs.no_codec;
  bytes_codec = Codecs.no_codec;
  client_request_codec = client_request_codec;
  client_response_codec = client_response_codec;
}

abbrev pub place : Str → Str → Location
place node uri = record { node_name = node; uri = uri }

abbrev pub entry_of : Str → Str → DirectoryEntry
entry_of name uri = record { location = place (lit "a") uri; name = name; is_dir = false }

-- A directory `root` with two entries, and a cached file of three bytes.
abbrev pub listing : List DirectoryEntry
listing = entry_of (lit ".") (lit "root") ∷ entry_of (lit "notes") (lit "7") ∷ []

abbrev pub plain : Bytes → File
plain bytes = record { bytes = bytes; modified = 5 }

abbrev pub blank : Disk
blank = record { files = λ _. none; clock = 9; poisoned = false; drawn = 0 }

abbrev pub node : VpfsNode ℕ
node = record { name = lit "a"; endpoint_id = 3 }

-- A daemon with the given entries, files, bound and count.
abbrev pub daemon : List (Location × CacheEntry) → Disk → ℕ → ℕ → DaemonState offline
daemon items disk bound used = record {
  root = some node;
  local = node;
  connections = [];
  known_hosts = some [];
  cache = items;
  max_cache_size = bound;
  used_cache_bytes = used;
  disk = disk;
  net = tt;
}

abbrev pub cached_item : Location × CacheEntry
cached_item = (place (lit "b") (lit "root"), record { uri = lit "c0" })

abbrev pub cached_disk : Disk
cached_disk = record blank { files = update blank.files (lit "c0") (some (plain (1 ∷ 2 ∷ 3 ∷ []))) }

-- The cache holds `root` of the node `b`, in three of its eight bytes.
abbrev pub caching : DaemonState offline
caching = daemon (cached_item ∷ []) cached_disk 8 3

-- The cache holds nothing.
abbrev pub starting : DaemonState offline
starting = daemon [] blank 8 0
