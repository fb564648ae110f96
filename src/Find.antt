-- ===== src/Find.antt =====
-- file_system.rs: `read_remote` and `recursive_find`. The argument `draws` is the fuel of
-- `create_file_with_random_uri`.
pub mod Walk
pub mod Local
pub mod Cached
pub mod Answers
pub mod Copies
use vpfs_iroh.Base.{
  ℕ, zero, suc, Str, lit, ◌==◌, str_eq, Bool, true, false, not, Option, none, some, List, [], ◌∷◌,
  if◌then◌else◌, Result, success, failure, Outcome, ok, panicked, unfinished, Exec, pure, panic,
  gets, modify, unwrap, ◌>>=◌, ◌>>◌,
}
use vpfs_iroh.Messages.{
  Location, DirectoryEntry, CacheEntry, VpfsError, only_in_cache, cache_needed_for_traversal,
  not_modified, not_accessible, not_a_directory, SystemTime, DaemonRequest, DaemonResponse,
}
use vpfs_iroh.Text.{slash, rsplit_once}
use vpfs_iroh.Files.{Bytes, fs_read, modified_of, lock}
use vpfs_iroh.Directory.{EntryResult, search_directory_with_reader, search_directory}
use vpfs_iroh.Platform.{Platform}
use vpfs_iroh.State.{DaemonState, Node, on_disk}
use vpfs_iroh.Cache.{set_disk, add_cache_entry}
use vpfs_iroh.Wire.{on_net, send_message, receive_message}
use vpfs_iroh.Remote.{same_node, stream_for}

abbrev pub ReadResult : Type 0
ReadResult = Result Bytes VpfsError

module _ (P : Platform) where
  abbrev poison : {A : Type 0} → Outcome A × DaemonState P → Outcome A × DaemonState P
  poison (panicked, s) = (panicked, set_disk P (record s.disk { poisoned = true }) s)
  poison (ok a, s) = (ok a, s)
  poison (unfinished, s) = (unfinished, s)

  -- The body runs while `file_access_lock` is held for writing.
  abbrev pub holding_files : {A : Type 0} → Exec (DaemonState P) A → Exec (DaemonState P) A
  holding_files m = do on_disk P lock; λ s. poison (m s)

  -- When the cached file was written.
  abbrev pub cached_time : Option CacheEntry → DaemonState P → Option SystemTime
  cached_time none s = none
  cached_time (some entry) s = modified_of entry.uri s.disk

  -- A file that has not been modified is read from the cache.
  abbrev from_cache : Option CacheEntry → Exec (DaemonState P) ReadResult
  from_cache none = panic
  from_cache (some entry) = do
    bytes ← gets (λ s. fs_read entry.uri s.disk)
    elim bytes [ none ↦ panic | some b ↦ pure (success b) ]

  abbrev take_over : ℕ → Location → Option Bytes → Exec (DaemonState P) ReadResult
  take_over draws location none = panic
  take_over draws location (some bytes) = do
    add_cache_entry P draws location bytes
    pure (success bytes)

  -- What the owner's response to `Read` leads to.
  abbrev pub receive_read :
      ℕ
      → Location
      → Option CacheEntry
      → P.Stream
      → Option (DaemonResponse P.PublicKey)
      → Exec (DaemonState P) ReadResult
  receive_read draws location entry stream (some (DaemonResponse.read (success _))) = do
    bytes ← receive_message P P.bytes_codec stream
    take_over draws location bytes
  receive_read draws location entry stream (some (DaemonResponse.read (failure not_modified))) =
      from_cache entry
  receive_read draws location entry stream (some (DaemonResponse.read (failure error))) =
      pure (failure error)
  receive_read draws location entry stream _ = panic

  abbrev read_on :
      ℕ
      → Location
      → Option CacheEntry
      → Option SystemTime
      → Option P.Stream
      → Exec (DaemonState P) ReadResult
  read_on draws location entry time none = pure (failure not_accessible)
  read_on draws location entry time (some stream) = do
    sent ← send_message P P.request_codec stream (DaemonRequest.read location.uri time)
    response ← receive_message P P.response_codec stream
    receive_read draws location entry stream response

  -- Without a connection a cached file is named, but not read.
  abbrev pub unreachable : Option CacheEntry → Exec (DaemonState P) ReadResult
  unreachable none = pure (failure not_accessible)
  unreachable (some entry) =
      gets (λ s. failure (only_in_cache (record { node_name = s.local.name; uri = entry.uri })))

  abbrev read_over :
      ℕ
      → Location
      → Option CacheEntry
      → Option SystemTime
      → Option P.Connection
      → Exec (DaemonState P) ReadResult
  read_over draws location entry time none = unreachable entry
  read_over draws location entry time (some connection) = do
    stream ← on_net P (P.open_bi connection)
    read_on draws location entry time stream

  -- The lock of the files is held from here to the end, also while the owner is waited for.
  unfoldable pub read_remote : ℕ → Location → Exec (DaemonState P) ReadResult
  read_remote draws location s =
      let (entry, cache) = P.lru.get location s.cache in
      holding_files
        (do
          time ← gets (cached_time entry)
          connection ← stream_for P location.node_name
          read_over draws location entry time connection)
        (record s { cache = cache })

  -- `Ok(dir_entry)` becomes `Err(CacheNeededForTraversal(dir_entry))`.
  abbrev pub cache_needed : EntryResult → EntryResult
  cache_needed (success entry) = failure (cache_needed_for_traversal entry)
  cache_needed (failure error) = failure error

  abbrev pub search_local : Str → Str → Exec (DaemonState P) EntryResult
  search_local name uri = on_disk P (search_directory P.entry_codec name uri)

  abbrev search_bytes : Str → Bytes → Exec (DaemonState P) EntryResult
  search_bytes name bytes s = (search_directory_with_reader P.entry_codec name bytes, s)

  abbrev search_cached : Str → Location → Exec (DaemonState P) EntryResult
  search_cached name place = do found ← search_local name place.uri; pure (cache_needed found)

  -- A directory of another node, from that node or from the cache.
  abbrev search_read : Str → ReadResult → Exec (DaemonState P) EntryResult
  search_read name (success bytes) = search_bytes name bytes
  search_read name (failure (only_in_cache place)) = search_cached name place
  search_read name (failure error) = pure (failure error)

  unfoldable pub find_remote : ℕ → Str → Location → Exec (DaemonState P) EntryResult
  find_remote draws name location = do read ← read_remote draws location; search_read name read

  -- The name in a directory, on whatever node it is.
  unfoldable pub find_in : ℕ → Str → Location → Exec (DaemonState P) EntryResult
  find_in draws name location s =
      if location.node_name == s.local.name
      then search_local name location.uri s
      else find_remote draws name location s

  -- The same below a directory that was reached through the cache.
  abbrev search_read_below : Str → ReadResult → Exec (DaemonState P) EntryResult
  search_read_below name (success bytes) = do
    found ← search_bytes name bytes
    pure (cache_needed found)
  search_read_below name (failure (only_in_cache place)) = search_cached name place
  search_read_below name (failure error) = pure (failure error)

  unfoldable pub find_below_cache : ℕ → Str → Location → Exec (DaemonState P) EntryResult
  find_below_cache draws name location s =
      if location.node_name == s.local.name
      then search_cached name location s
      else (read_remote draws location >>= search_read_below name) s

  -- What a lookup of the parent leads to.
  unfoldable pub find_from : ℕ → Str → EntryResult → Exec (DaemonState P) EntryResult
  find_from draws name (success parent) =
      if not parent.is_dir
      then pure (failure not_a_directory)
      else find_in draws name parent.location
  find_from draws name (failure (cache_needed_for_traversal parent)) =
      if not parent.is_dir
      then pure (failure not_a_directory)
      else find_below_cache draws name parent.location
  find_from draws name (failure error) = pure (failure error)

  -- A name in the root directory.
  unfoldable pub find_at_root : ℕ → Str → Exec (DaemonState P) EntryResult
  find_at_root draws name s = elim s.root [
    | none ↦ (ok (failure not_accessible), s)
    | some root ↦
        if same_node P root s.local
        then search_local name (lit "root") s
        else find_remote draws name (record { node_name = root.name; uri = lit "root" }) s
  ]

  -- The fuel bounds the `/` of the path.
  unfoldable pub recursive_find : ℕ → ℕ → Str → Exec (DaemonState P) EntryResult
  recursive_find draws zero path s = (unfinished, s)
  recursive_find draws (suc fuel) path s = elim (rsplit_once slash path) [
    | none ↦ find_at_root draws path s
    | some (parent, name) ↦ (recursive_find draws fuel parent >>= find_from draws name) s
  ]
