-- ===== src/Cache/Evict.antt =====
-- The evictions end with the cache inside its bound.
use vpfs_iroh.Base.{
  ℕ, zero, suc, ◌-◌, ◌≤◌, ◌<◌, Str, str_eq, true, false, none, some, List, [], ◌∷◌, ◌++◌, length,
  length-append, append-nil, append_assoc, ltb, ◌≡◌, ◌≢◌, refl, sym, ap, ◌∙◌, arith, All,
  All-prefix, All-join, All-intro, Bool-cases, inl, inr, ◌⊎◌, ok, ◌>>=◌,
}
use vpfs_iroh.Messages.{CacheEntry, location_eq}
use vpfs_iroh.Files.{File, delete_file}
use vpfs_iroh.Lru.{IsLru, last?, init, last-cases}
use vpfs_iroh.Platform.{Platform}
use vpfs_iroh.State.{DaemonState}
use vpfs_iroh.Cache.{CacheItem, drop_file, evict_loop}
use vpfs_iroh.Cache.Sizes.{Fresh, Distinct-last, All-init}
use vpfs_iroh.Cache.Accounts.{IsAccounted, IsAccounted-evict}

module _ (P : Platform) where
  abbrev pub items : DaemonState P → List CacheItem
  items s = P.lru.iter s.cache

  -- The books of a daemon.
  abbrev pub Accounted : DaemonState P → Type 0
  Accounted s = IsAccounted s.disk.files (items s) s.used_cache_bytes

  drop_file_lem :
      (s : DaemonState P) (entry : CacheEntry) (file : File)
      → s.disk.files entry.uri ≡ some file
      → length file.bytes ≤ s.used_cache_bytes
      → drop_file P entry s ≡ (
        ok tt,
        record s {
          disk = delete_file entry.uri s.disk;
          used_cache_bytes = s.used_cache_bytes - length file.bytes;
        },
      )
  unfolding drop_file
  drop_file_lem s entry file there fits = ground arith

  pub evict_loop-within :
      (fuel : ℕ) (s : DaemonState P)
      → ltb s.max_cache_size s.used_cache_bytes ≡ false
      → evict_loop P (suc fuel) s ≡ (ok tt, s)
  unfolding evict_loop
  evict_loop-within fuel s h = ground arith

  evict_loop-empty :
      (fuel : ℕ) (s : DaemonState P)
      → ltb s.max_cache_size s.used_cache_bytes ≡ true
      → (P.lru.pop_lru s.cache).0 ≡ none
      → evict_loop P (suc fuel) s ≡ (ok tt, record s { cache = (P.lru.pop_lru s.cache).1 })
  unfolding evict_loop
  evict_loop-empty fuel s h empty = ground arith

  evict_loop-drop :
      (fuel : ℕ) (s : DaemonState P) (item : CacheItem)
      → ltb s.max_cache_size s.used_cache_bytes ≡ true
      → (P.lru.pop_lru s.cache).0 ≡ some item
      → evict_loop P (suc fuel) s
        ≡ (drop_file P item.1 >>= λ _. evict_loop P fuel)
            (record s { cache = (P.lru.pop_lru s.cache).1 })
  unfolding evict_loop
  evict_loop-drop fuel s item h full = ground arith

  -- What holds after the evictions.
  pub record IsEvicted (s s' : DaemonState P) : Type 0 where
    pub accounted : Accounted s'
    pub within : (s'.used_cache_bytes ≤ s.max_cache_size) ⊎ (items s' ≡ [])
    -- A prefix of the entries stays, in its order.
    pub newest : (dropped : List CacheItem) × (items s ≡ items s' ++ dropped)
    -- The files of these entries, and those that were no entry's, are as they were.
    pub kept : All (λ item. s'.disk.files item.1.uri ≡ s.disk.files item.1.uri) (items s')
    pub frame : (uri : Str) → Fresh uri (items s) → s'.disk.files uri ≡ s.disk.files uri
    pub root : s'.root ≡ s.root
    pub max_cache_size : s'.max_cache_size ≡ s.max_cache_size
    pub poisoned : s'.disk.poisoned ≡ s.disk.poisoned

module _ (P : Platform) (L : IsLru P.lru) where
  -- The state after one eviction.
  abbrev dropped_state : DaemonState P → CacheItem → File → DaemonState P
  dropped_state s last file = record s {
    cache = (P.lru.pop_lru s.cache).1;
    disk = delete_file last.1.uri s.disk;
    used_cache_bytes = s.used_cache_bytes - length file.bytes;
  }

  -- One round with an entry to drop.
  evict_loop-round :
      (s : DaemonState P) (others : List CacheItem) (last : CacheItem)
      → Accounted P s
      → ltb s.max_cache_size s.used_cache_bytes ≡ true
      → items P s ≡ others ++ last ∷ []
      → last? (items P s) ≡ some last
      → init (items P s) ≡ others
      → (file : File) × ((fuel : ℕ)
          → evict_loop P (suc fuel) s ≡ evict_loop P fuel (dropped_state s last file))
        × Accounted P (dropped_state s last file)
        × (items P (dropped_state s last file) ≡ others)
  evict_loop-round s others last h over e is_last is_init =
      let popped = L.pop_lru-last s.cache ∙ is_last in
      let left = L.iter-pop_lru s.cache ∙ is_init in
      let (file, there, fits, accounted) =
        IsAccounted-evict s.disk.files others last s.used_cache_bytes (rw e at h) in
      let s1 = record s { cache = (P.lru.pop_lru s.cache).1 } in
      (
        file,
        λ fuel.
            evict_loop-drop P fuel s last over popped
            ∙ rw (drop_file_lem P s1 last.1 file there fits),
        rw left accounted,
        left,
      )

  deleted_ne :
      (s : DaemonState P) (gone uri : Str)
      → uri ≢ gone
      → (delete_file gone s.disk).files uri ≡ s.disk.files uri
  deleted_ne s gone uri apart = ground arith

  kept_after :
      (s s' : DaemonState P) (others : List CacheItem) (last : CacheItem) (file : File)
      → Accounted P s
      → items P s ≡ others ++ last ∷ []
      → IsEvicted P (dropped_state s last file) s'
      → items P (dropped_state s last file) ≡ others
      → All (λ item. s'.disk.files item.1.uri ≡ s.disk.files item.1.uri) (items P s')
  kept_after s s' others last file h e done left =
      let (fresh, distinct) = Distinct-last others last (rw e at h.distinct) in
      let fresh' =
        All-prefix (λ item. item.1.uri ≢ last.1.uri) (items P s') done.newest.0
          (rw (← done.newest.1, left) fresh) in
      All-join
        (λ item. s'.disk.files item.1.uri ≡ (dropped_state s last file).disk.files item.1.uri)
        (λ item. item.1.uri ≢ last.1.uri)
        (λ item. s'.disk.files item.1.uri ≡ s.disk.files item.1.uri)
        (λ item same apart. same ∙ deleted_ne s last.1.uri item.1.uri apart) (items P s') done.kept
        fresh'

  pub evict_loop-IsEvicted :
      (fuel : ℕ) (s : DaemonState P)
      → Accounted P s
      → length (items P s) < fuel
      → (s' : DaemonState P) × (evict_loop P fuel s ≡ (ok tt, s')) × IsEvicted P s s'
  evict_loop-IsEvicted zero s h enough = absurd (omega arith)
  evict_loop-IsEvicted (suc fuel) s h enough =
      elim (Bool-cases (ltb s.max_cache_size s.used_cache_bytes)) [
        | inr within ↦ (
          s,
          evict_loop-within P fuel s within,
          record {
            accounted = h;
            within = inl (ground arith);
            newest = ([], sym (append-nil (items P s)));
            kept =
                All-intro (λ item. s.disk.files item.1.uri ≡ s.disk.files item.1.uri) (λ item. refl)
                  (items P s);
            frame = λ uri fresh. refl;
            root = refl;
            max_cache_size = refl;
            poisoned = refl;
          },
        )
        | inl over ↦ elim (last-cases (items P s)) [
          | inl empty ↦
              let left = L.iter-pop_lru s.cache ∙ ap init empty in
              (
                record s { cache = (P.lru.pop_lru s.cache).1 },
                evict_loop-empty P fuel s over (L.pop_lru-last s.cache ∙ ap last? empty),
                record {
                  accounted = rw (left, ← empty) h;
                  within = inr left;
                  newest = ([], rw (left, empty));
                  kept = rw left tt;
                  frame = λ uri fresh. refl;
                  root = refl;
                  max_cache_size = refl;
                  poisoned = refl;
                },
              )
          | inr (others, last, e, is_last, is_init) ↦
              let (file, goes, accounted, left) =
                evict_loop-round s others last h over e is_last is_init in
              let s1 = dropped_state s last file in
              let (s', runs, done) =
                evict_loop-IsEvicted fuel s1 accounted
                  (omega (arith, ap length e, ap length left, length-append others (last ∷ []))) in
              (
                s',
                goes fuel ∙ runs,
                record {
                  accounted = done.accounted;
                  within = done.within;
                  newest = (
                    done.newest.0 ++ last ∷ [],
                    e
                        ∙ ap (λ r. r ++ last ∷ []) (sym left ∙ done.newest.1)
                        ∙ append_assoc (items P s') done.newest.0 (last ∷ []),
                  );
                  kept = kept_after s s' others last file h e done left;
                  frame = λ uri fresh.
                      let (fresh', apart) =
                        All-init (λ item. item.1.uri ≢ uri) others last (rw e at fresh) in
                      done.frame uri (rw left fresh')
                      ∙ deleted_ne s last.1.uri uri (λ same. apart (sym same));
                  root = done.root;
                  max_cache_size = done.max_cache_size;
                  poisoned = done.poisoned;
                },
              )
        ]
      ]
