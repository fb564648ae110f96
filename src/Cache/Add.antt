-- ===== src/Cache/Add.antt =====
-- What `add_cache_entry` promises.
use vpfs_iroh.Base.{
  ℕ, suc, ◌+◌, ◌≤◌, ◌<◌, Str, lit, str_eq, some, List, [], ◌∷◌, ◌++◌, length, ◌≡◌, ◌≢◌, refl, sym,
  ◌∙◌, arith, All, All-join, inl, inr, ◌⊎◌, ok,
}
use vpfs_iroh.Messages.{Location, CacheEntry, location_eq}
use vpfs_iroh.Files.{Bytes, File, put_file, fs_read}
use vpfs_iroh.Lru.{IsLru, erase}
use vpfs_iroh.Platform.{Platform}
use vpfs_iroh.State.{DaemonState}
use vpfs_iroh.Cache.{
  CacheItem, usize_mod, cache_bytes, store_entry, add_used, evict, save_cache, add_cache_entry,
}
use vpfs_iroh.Cache.Sizes.{Fresh, total, total-update}
use vpfs_iroh.Cache.Accounts.{IsAccounted-update}
use vpfs_iroh.Cache.Evict.{items, Accounted, IsEvicted, evict_loop-IsEvicted}
use vpfs_iroh.Cache.Store.{HasFreeUri, IsStored, store_entry-IsStored}

module _ (P : Platform) where
  -- What holds after a call.
  pub record IsAdded (s : DaemonState P) (location : Location) (bytes : Bytes) (s' : DaemonState P)
      : Type 0 where
    pub accounted : Accounted P s'
    -- The bytes of the cached files are within the bound.
    pub within : total s'.disk.files (items P s') ≤ s.max_cache_size
    -- The entries are the new one and the old ones in order, without some of the last.
    pub newest :
        (entry : CacheEntry) × (dropped : List CacheItem) × ((location, entry)
            ∷ erase location (items P s)
          ≡ items P s' ++ dropped)
        × ((items P s' ≡ []) ⊎ (fs_read entry.uri s'.disk ≡ some bytes))
    -- The file `cache` describes the state.
    pub saved : fs_read (lit "cache") s'.disk ≡ some (cache_bytes P s')
    -- A file that is no entry's, nor the file `cache`, is as it was.
    pub frame :
        (uri : Str) (file : File)
        → Fresh uri (items P s)
        → uri ≢ lit "cache"
        → s.disk.files uri ≡ some file
        → s'.disk.files uri ≡ some file
    pub max_cache_size : s'.max_cache_size ≡ s.max_cache_size
    pub root : s'.root ≡ s.root
    pub poisoned : s'.disk.poisoned ≡ s.disk.poisoned

  pub add_used_lem :
      (n : ℕ) (s : DaemonState P)
      → s.used_cache_bytes + n < usize_mod
      → add_used P n s ≡ (ok tt, record s { used_cache_bytes = s.used_cache_bytes + n })
  unfolding add_used
  add_used_lem n s fits = ground arith

  abbrev pub saved_state : DaemonState P → DaemonState P
  saved_state s = record s { disk = put_file (lit "cache") (cache_bytes P s) s.disk }

  pub save_cache_lem : (s : DaemonState P) → save_cache P s ≡ (ok tt, saved_state s)
  unfolding save_cache
  save_cache_lem s = refl

module _ (P : Platform) (L : IsLru P.lru) where
  -- The four parts of a call, one after the other.
  pub add_cache_entry-parts :
      (fuel : ℕ) (location : Location) (bytes : Bytes) (s s1 s2 s3 : DaemonState P)
      → store_entry P fuel location bytes s ≡ (ok tt, s1)
      → add_used P (length bytes) s1 ≡ (ok tt, s2)
      → evict P s2 ≡ (ok tt, s3)
      → add_cache_entry P fuel location bytes s ≡ save_cache P s3
  unfolding add_cache_entry
  add_cache_entry-parts fuel location bytes s s1 s2 s3 stored added evicted =
      rw (stored, added, evicted)

  -- What holds of every entry that stays holds of the first one, if one stays.
  first_stays :
      (Q : CacheItem → Type 0) (item : CacheItem) (rest kept dropped : List CacheItem)
      → item ∷ rest ≡ kept ++ dropped
      → All Q kept
      → (kept ≡ []) ⊎ Q item
  first_stays Q item rest [] dropped e h = inl refl
  first_stays Q item rest (other ∷ kept) dropped e h =
      let same : item ≡ other = cc in inr (rw same h.0)

  fs_read-saved :
      (s1 s3 : DaemonState P) (uri : Str) (bytes : Bytes)
      → s3.disk.files uri ≡ s1.disk.files uri
      → uri ≢ lit "cache"
      → fs_read uri s1.disk ≡ some bytes
      → fs_read uri (saved_state P s3).disk ≡ some bytes
  fs_read-saved s1 s3 uri bytes same named there = ground arith

  files-saved :
      (s3 : DaemonState P) (uri : Str) (file : File)
      → uri ≢ lit "cache"
      → s3.disk.files uri ≡ some file
      → (saved_state P s3).disk.files uri ≡ some file
  files-saved s3 uri file named there = ground arith

  total-saved :
      (s s3 : DaemonState P)
      → Accounted P s3
      → (s3.used_cache_bytes ≤ s.max_cache_size) ⊎ (items P s3 ≡ [])
      → total (saved_state P s3).disk.files (items P s3) ≤ s.max_cache_size
  total-saved s s3 h (inl fits) =
      rw
        (total-update s3.disk.files (lit "cache")
          (some (record { bytes = cache_bytes P s3; modified = s3.disk.clock })) (items P s3)
          h.reserved)
        (omega (arith, h.counted))
  total-saved s s3 h (inr empty) = rw empty (omega arith)

  IsAdded_lem :
      (location : Location) (bytes : Bytes) (s s1 s3 : DaemonState P)
      → IsStored P s location bytes s1
      → IsEvicted P (record s1 { used_cache_bytes = s1.used_cache_bytes + length bytes }) s3
      → IsAdded P s location bytes (saved_state P s3)
  IsAdded_lem location bytes s s1 s3 st ev = record {
    accounted =
        IsAccounted-update s3.disk.files (items P s3) s3.used_cache_bytes (lit "cache") _
          ev.accounted ev.accounted.reserved;
    within = rw (← st.max_cache_size) (total-saved s1 s3 ev.accounted ev.within);
    newest = (
      st.entry,
      ev.newest.0,
      sym st.first ∙ ev.newest.1,
      (elim (first_stays
          (λ item.
            (s3.disk.files item.1.uri ≡ s1.disk.files item.1.uri) × (item.1.uri ≢ lit "cache"))
          (location, st.entry) (erase location (items P s)) (items P s3) ev.newest.0
          (sym st.first ∙ ev.newest.1)
          (All-join (λ item. s3.disk.files item.1.uri ≡ s1.disk.files item.1.uri)
            (λ item. item.1.uri ≢ lit "cache")
            (λ item.
              (s3.disk.files item.1.uri ≡ s1.disk.files item.1.uri) × (item.1.uri ≢ lit "cache"))
            (λ item same named. (same, named)) (items P s3) ev.kept ev.accounted.reserved)) [
              | inl empty ↦ inl empty
              | inr (same, named) ↦
                  inr (fs_read-saved s1 s3 st.entry.uri bytes same named st.stored)
            ]),
    );
    saved = ground arith;
    frame = λ uri file fresh named there.
        let (fresh', there') = st.frame uri file fresh there in
        files-saved s3 uri file named (ev.frame uri fresh' ∙ there');
    max_cache_size = ev.max_cache_size ∙ st.max_cache_size;
    root = ev.root ∙ st.root;
    poisoned = ev.poisoned ∙ st.poisoned;
  }

  -- With a cache that meets IsLru, if the books of the cache are in order, one of the next draws
  -- gives a free name and the count does not overflow, add_cache_entry ends without a panic; the
  -- books are in order again, the cached files take no more than max_cache_size bytes, the
  -- entries are the new one and the old ones in order without some of the last, the new one,
  -- unless all were evicted, has the bytes, the file cache describes the state, and files that
  -- are no entry's, the lock, the root and max_cache_size are as they were.
  pub add_cache_entry-IsAdded :
      (fuel : ℕ) (location : Location) (bytes : Bytes) (s : DaemonState P)
      → Accounted P s
      → HasFreeUri P fuel s.disk
      → s.used_cache_bytes + length bytes < usize_mod
      → (s' : DaemonState P) × (add_cache_entry P fuel location bytes s ≡ (ok tt, s'))
        × IsAdded P s location bytes s'
  unfolding evict
  add_cache_entry-IsAdded fuel location bytes s h free fits =
      let (s1, stores, st) = store_entry-IsStored P L fuel s location bytes h free in
      let s2 = record s1 { used_cache_bytes = s1.used_cache_bytes + length bytes } in
      let adds = add_used_lem P (length bytes) s1 (rw st.used_cache_bytes fits) in
      let (s3, evicts, ev) =
        evict_loop-IsEvicted P L (suc (length (items P s2))) s2
          (rw st.used_cache_bytes st.accounted) (omega arith) in
      (
        saved_state P s3,
        add_cache_entry-parts fuel location bytes s s1 s2 s3 stores adds evicts
            ∙ save_cache_lem P s3,
        IsAdded_lem location bytes s s1 s3 st ev,
      )
