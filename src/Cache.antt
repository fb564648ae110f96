-- ===== src/Cache.antt =====
-- file_system.rs: the cache of files of other nodes. A cached file is a file of this daemon's own,
-- under a random name, and the file `cache` lists the entries.
pub mod Add
pub mod Evict
pub mod Store
pub mod Restore
pub mod Overcount
pub mod Sizes
pub mod Accounts
use vpfs_iroh.Base.{
  ℕ, zero, suc, ◌+◌, ◌-◌, ◌^◌, Str, lit, Bool, true, false, Option, none, some, List, [], ◌∷◌, ◌++◌,
  length, ltb, leb, if◌then◌else◌, Outcome, ok, panicked, unfinished, Exec, pure, panic, gets,
  modify, unwrap, ◌>>=◌, ◌>>◌,
}
use vpfs_iroh.Messages.{Location, CacheEntry}
use vpfs_iroh.Codec.{Codec}
use vpfs_iroh.Files.{Bytes, File, Disk, put_file, delete_file, fs_read, create_file_with_random_uri}
use vpfs_iroh.Platform.{Platform}
use vpfs_iroh.State.{DaemonState, Node, on_disk}

-- One more than the greatest `usize`.
abbrev pub usize_mod : ℕ
usize_mod = 2 ^ 64

abbrev pub CacheItem : Type 0
CacheItem = Location × CacheEntry

module _ (P : Platform) where
  abbrev pub set_disk : Disk → DaemonState P → DaemonState P
  set_disk d s = record s { disk = d }

  abbrev fill_entry : ℕ → Location → Bytes → Option CacheEntry → Exec (DaemonState P) (Unit {0})
  fill_entry fuel location bytes (some entry) =
      modify λ s. set_disk (put_file entry.uri bytes s.disk) s
  fill_entry fuel location bytes none = do
    uri ← on_disk P (create_file_with_random_uri P.random fuel)
    modify λ s. set_disk (put_file uri bytes s.disk) s
    modify λ s. record s { cache = P.lru.put location (record { uri = uri }) s.cache }

  -- The entry of the location, an old one or a new one, gets the bytes.
  unfoldable pub store_entry : ℕ → Location → Bytes → Exec (DaemonState P) (Unit {0})
  store_entry fuel location bytes s =
      let (entry, cache) = P.lru.get location s.cache in
      fill_entry fuel location bytes entry (record s { cache = cache })

  -- `*used_cache += n`, which panics on overflow.
  unfoldable pub add_used : ℕ → Exec (DaemonState P) (Unit {0})
  add_used n s =
      if ltb (s.used_cache_bytes + n) usize_mod
      then (ok tt, record s { used_cache_bytes = s.used_cache_bytes + n })
      else (panicked, s)

  -- One eviction: the file must be there, and `*used_cache -= file_size` panics below 0.
  unfoldable pub drop_file : CacheEntry → Exec (DaemonState P) (Unit {0})
  drop_file entry s = elim (fs_read entry.uri s.disk) [
    | none ↦ (panicked, s)
    | some bytes ↦
        let s' = set_disk (delete_file entry.uri s.disk) s in
        if leb (length bytes) s.used_cache_bytes
        then (ok tt, record s' { used_cache_bytes = s.used_cache_bytes - length bytes })
        else (panicked, s')
  ]

  -- `while *used_cache > state.max_cache_size`. The fuel bounds the evictions.
  unfoldable pub evict_loop : ℕ → Exec (DaemonState P) (Unit {0})
  evict_loop zero s = (unfinished, s)
  evict_loop (suc fuel) s =
      let (popped, cache) = P.lru.pop_lru s.cache in
      let s' = record s { cache = cache } in
      elim (ltb s.max_cache_size s.used_cache_bytes) [
        | false ↦ (ok tt, s)
        | true ↦ elim popped [
          | none ↦ (ok tt, s')
          | some (_, entry) ↦ (drop_file entry >>= λ _. evict_loop fuel) s'
        ]
      ]

  -- The entries, key and value of each in turn.
  abbrev pub encode_items : List CacheItem → Bytes
  encode_items [] = []
  encode_items ((location, entry) ∷ items) =
      P.location_codec.to_vec location ++ (P.cache_entry_codec.to_vec entry ++ encode_items items)

  -- What is written to the file `cache`.
  abbrev pub cache_bytes : DaemonState P → Bytes
  cache_bytes s =
      P.root_codec.to_vec s.root
      ++ (P.usize_codec.to_vec s.used_cache_bytes ++ encode_items (P.lru.iter s.cache))

  unfoldable pub save_cache : Exec (DaemonState P) (Unit {0})
  save_cache = modify λ s. set_disk (put_file (lit "cache") (cache_bytes s) s.disk) s

  unfoldable pub evict : Exec (DaemonState P) (Unit {0})
  evict s = evict_loop (suc (length (P.lru.iter s.cache))) s

  -- The fuel bounds the draws of the name of a new file.
  unfoldable pub add_cache_entry : ℕ → Location → Bytes → Exec (DaemonState P) (Unit {0})
  add_cache_entry fuel location bytes = do
    store_entry fuel location bytes
    add_used (length bytes)
    evict
    save_cache

  -- The loop that reads the entries back. The fuel bounds the entries.
  unfoldable pub restore_loop : ℕ → Bytes → P.lru.Cache → Outcome P.lru.Cache
  restore_loop zero bytes cache = unfinished
  restore_loop (suc fuel) bytes cache = elim (P.location_codec.from_reader bytes) [
    | none ↦ ok cache
    | some (key, rest) ↦ elim (P.cache_entry_codec.from_reader rest) [
      | none ↦ panicked
      | some (value, rest') ↦ restore_loop fuel rest' (P.lru.demote key (P.lru.put key value cache))
    ]
  ]

  abbrev restored : DaemonState P → Outcome P.lru.Cache → Outcome (Unit {0}) × DaemonState P
  restored s (ok cache) = (ok tt, record s { cache = cache })
  restored s panicked = (panicked, s)
  restored s unfinished = (unfinished, s)

  abbrev restore_from : Bytes → Exec (DaemonState P) (Unit {0})
  restore_from bytes s = elim (P.root_codec.from_reader bytes) [
    | none ↦ (panicked, s)
    | some (root, rest) ↦ elim (P.usize_codec.from_reader rest) [
      | none ↦ (panicked, record s { root = root })
      | some (used, rest') ↦
          let s' = record s { root = root; used_cache_bytes = used } in
          restored s' (restore_loop (suc (length rest')) rest' s.cache)
    ]
  ]

  -- Without the file `cache` nothing is restored.
  unfoldable pub restore_cache : Exec (DaemonState P) (Unit {0})
  restore_cache s = elim (fs_read (lit "cache") s.disk) [
    | none ↦ (ok tt, s)
    | some bytes ↦ restore_from bytes s
  ]
