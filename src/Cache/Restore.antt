-- ===== src/Cache/Restore.antt =====
-- A cache that was saved is restored as it was: the entries, their order, the root and the count.
use vpfs_iroh.Base.{
  ℕ, zero, suc, ◌+◌, ◌<◌, lit, str_eq, none, some, List, [], ◌∷◌, ◌++◌, length, length-append,
  append-nil, append_assoc, ◌≡◌, ◌≢◌, refl, sym, ap, ◌∙◌, arith, All, All-join, ok,
}
use vpfs_iroh.Messages.{Location, CacheEntry, location_eq}
use vpfs_iroh.Codec.{IsLawful}
use vpfs_iroh.Files.{Bytes, fs_read}
use vpfs_iroh.Lru.{IsLru, lookup, sink}
use vpfs_iroh.Lru.Keys.{
  NodupKeys, NodupKeys-touch, NodupKeys-prefix, All-absent_nil, sink-touch, lookup-append_none,
  keys-ne,
}
use vpfs_iroh.Platform.{Platform}
use vpfs_iroh.State.{DaemonState}
use vpfs_iroh.Cache.{
  CacheItem, encode_items, cache_bytes, restore_loop, restore_cache, add_cache_entry, usize_mod,
}
use vpfs_iroh.Cache.Evict.{items, Accounted}
use vpfs_iroh.Cache.Store.{HasFreeUri}
use vpfs_iroh.Cache.Add.{add_cache_entry-IsAdded}

-- What the restoring relies on of serde_bare.
pub record IsReadable (P : Platform) : Type 0 where
  pub locations : IsLawful P.location_codec
  pub cache_entries : IsLawful P.cache_entry_codec
  pub roots : IsLawful P.root_codec
  pub counts : IsLawful P.usize_codec

module _ (P : Platform) where
  -- What a restart finds in the file `cache`.
  pub record IsRestored (t s' : DaemonState P) : Type 0 where
    pub entries : items P s' ≡ items P t
    pub root : s'.root ≡ t.root
    pub used_cache_bytes : s'.used_cache_bytes ≡ t.used_cache_bytes
    pub disk : s'.disk ≡ t.disk

module _ (P : Platform) (L : IsLru P.lru) (R : IsReadable P) where
  restore_loop-read :
      (fuel : ℕ) (k : Location) (v : CacheEntry) (rest : Bytes) (c : P.lru.Cache)
      → restore_loop P
          (suc fuel)
          (P.location_codec.to_vec k ++ (P.cache_entry_codec.to_vec v ++ rest))
          c
        ≡ restore_loop P fuel rest (P.lru.demote k (P.lru.put k v c))
  unfolding restore_loop
  restore_loop-read fuel k v rest c = ground (
    arith,
    R.locations.read_back k (P.cache_entry_codec.to_vec v ++ rest),
    R.cache_entries.read_back v rest,
  )

  restore_loop-end : (fuel : ℕ) (c : P.lru.Cache) → restore_loop P (suc fuel) [] c ≡ ok c
  unfolding restore_loop
  restore_loop-end fuel c = ground (arith, R.locations.at_end)

  -- Each entry that is read goes behind those that were read before it.
  restore_loop-items :
      (fuel : ℕ) (rest : List CacheItem) (c : P.lru.Cache)
      → NodupKeys rest
      → All (λ item. lookup item.0 (P.lru.iter c) ≡ none) rest
      → length (encode_items P rest) < fuel
      → (c' : P.lru.Cache) × (restore_loop P fuel (encode_items P rest) c ≡ ok c')
        × (P.lru.iter c' ≡ P.lru.iter c ++ rest)
  restore_loop-items zero rest c nodup apart enough = absurd (omega arith)
  restore_loop-items (suc fuel) [] c nodup apart enough =
      (c, restore_loop-end fuel c, sym (append-nil (P.lru.iter c)))
  restore_loop-items (suc fuel) ((k, v) ∷ rest) c nodup apart enough =
      let c1 = P.lru.demote k (P.lru.put k v c) in
      let behind : P.lru.iter c1 ≡ P.lru.iter c ++ (k, v) ∷ [] =
        L.iter-demote k (P.lru.put k v c)
        ∙ ap (sink k) (L.iter-put k v c)
        ∙ sink-touch k v (P.lru.iter c) apart.0 in
      let others =
        All-join (λ item. lookup item.0 (P.lru.iter c) ≡ none) (λ item. item.0 ≢ k)
          (λ item. lookup item.0 (P.lru.iter c1) ≡ none)
          (λ item absent differs.
            rw behind (lookup-append_none item.0 k v (P.lru.iter c) absent differs))
          rest apart.1 (keys-ne k rest nodup.0) in
      let tail = encode_items P rest in
      let shorter =
        R.locations.shorter _ k (P.cache_entry_codec.to_vec v ++ tail)
          (R.locations.read_back k (P.cache_entry_codec.to_vec v ++ tail)) in
      let (c', runs, order) =
        restore_loop-items fuel rest c1 nodup.1 others
          (omega (arith, shorter, length-append (P.cache_entry_codec.to_vec v) tail)) in
      (
        c',
        restore_loop-read fuel k v tail c ∙ runs,
        order
            ∙ ap (λ (l : List CacheItem). l ++ rest) behind
            ∙ append_assoc (P.lru.iter c) ((k, v) ∷ []) rest,
      )

  restore_cache-found :
      (s t : DaemonState P) (c : P.lru.Cache)
      → fs_read (lit "cache") s.disk ≡ some (cache_bytes P t)
      → restore_loop P
          (suc (length (encode_items P (items P t))))
          (encode_items P (items P t))
          s.cache
        ≡ ok c
      → restore_cache P s
        ≡ (ok tt, record s { root = t.root; used_cache_bytes = t.used_cache_bytes; cache = c })
  unfolding restore_cache
  restore_cache-found s t c saved looped =
      let counted = P.usize_codec.to_vec t.used_cache_bytes ++ encode_items P (items P t) in
      ground (
        arith,
        R.roots.read_back t.root counted,
        R.counts.read_back t.used_cache_bytes (encode_items P (items P t)),
      )

  -- A daemon with an empty cache that starts on the files of a daemon whose file `cache` describes
  -- it gets its entries in their order, its root and its count of bytes.
  pub restore_cache-IsRestored :
      (s t : DaemonState P)
      → items P s ≡ []
      → s.disk ≡ t.disk
      → fs_read (lit "cache") t.disk ≡ some (cache_bytes P t)
      → NodupKeys (items P t)
      → (s' : DaemonState P) × (restore_cache P s ≡ (ok tt, s')) × IsRestored P t s'
  restore_cache-IsRestored s t empty same saved nodup =
      let rest = items P t in
      let (c, looped, order) =
        restore_loop-items (suc (length (encode_items P rest))) rest s.cache nodup
          (rw empty (All-absent_nil rest)) (omega arith) in
      (
        record s { root = t.root; used_cache_bytes = t.used_cache_bytes; cache = c },
        restore_cache-found s t c (rw same saved) looped,
        record {
          entries = order ∙ ap (λ (l : List CacheItem). l ++ rest) empty;
          root = refl;
          used_cache_bytes = refl;
          disk = same;
        },
      )

  -- With a cache that meets IsLru and lawful encodings, if the books of the cache are in order,
  -- one of the next draws gives a free name, the count does not overflow and the keys are
  -- distinct, a daemon that stops after add_cache_entry and starts again with an empty cache on
  -- the same files has the entries, their order, the root and the count of bytes that it had, and
  -- the keys are distinct.
  pub restore_cache-add_cache_entry :
      (fuel : ℕ) (location : Location) (bytes : Bytes) (s fresh : DaemonState P)
      → Accounted P s
      → NodupKeys (items P s)
      → HasFreeUri P fuel s.disk
      → s.used_cache_bytes + length bytes < usize_mod
      → items P fresh ≡ []
      → (t : DaemonState P) × (s' : DaemonState P) × (add_cache_entry P fuel location bytes s
          ≡ (ok tt, t))
        × (restore_cache P (record fresh { disk = t.disk }) ≡ (ok tt, s'))
        × IsRestored P t s'
        × NodupKeys (items P t)
  restore_cache-add_cache_entry fuel location bytes s fresh h nodup free fits empty =
      let (t, adds, added) = add_cache_entry-IsAdded P L fuel location bytes s h free fits in
      let (entry, dropped, order, held) = added.newest in
      let nodup' =
        NodupKeys-prefix (items P t) dropped
          (rw (← order) (NodupKeys-touch location entry (items P s) nodup)) in
      let (s', restores, done) =
        restore_cache-IsRestored (record fresh { disk = t.disk }) t empty refl added.saved nodup' in
      (t, s', adds, restores, done, nodup')
