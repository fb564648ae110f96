-- ===== src/Cache/Overcount.antt =====
-- A cached file that is read again is counted again: its old size stays in `used_cache_bytes`.
use vpfs_iroh.Base.{ℕ, ◌+◌, ◌≤◌, ◌<◌, lit, some, length, ◌≡◌, refl, ap, ◌∙◌, arith, ok}
use vpfs_iroh.Messages.{Location, CacheEntry, location_eq}
use vpfs_iroh.Files.{Bytes, File, update, put_file}
use vpfs_iroh.Lru.{IsLru, lookup, erase, touch}
use vpfs_iroh.Platform.{Platform}
use vpfs_iroh.State.{DaemonState}
use vpfs_iroh.Cache.{usize_mod, evict, add_cache_entry, cache_bytes}
use vpfs_iroh.Cache.Sizes.{total, total-erase, total-update, Distinct-erase}
use vpfs_iroh.Cache.Accounts.{IsAccounted-hit}
use vpfs_iroh.Cache.Evict.{items, Accounted, evict_loop-within}
use vpfs_iroh.Cache.Store.{store_entry-hit, file_of}
use vpfs_iroh.Cache.Add.{add_used_lem, saved_state, save_cache_lem, add_cache_entry-parts}

module _ (P : Platform) (L : IsLru P.lru) where
  -- The bytes behind the entries after a hit: the old file of the entry is not among them.
  total-hit :
      (s : DaemonState P) (location : Location) (bytes : Bytes) (entry : CacheEntry) (old : File)
      → Accounted P s
      → lookup location (items P s) ≡ some entry
      → s.disk.files entry.uri ≡ some old
      → total
            (update s.disk.files entry.uri (some (file_of P s bytes)))
            (touch location entry (items P s))
          + length old.bytes
        ≡ total s.disk.files (items P s) + length bytes
  total-hit s location bytes entry old h found there =
      let (fresh, distinct) =
        Distinct-erase location (items P s) {entry = entry} h.distinct found in
      ground (
        arith,
        total-erase s.disk.files location (items P s) {entry = entry} found,
        total-update s.disk.files entry.uri (some (file_of P s bytes)) (erase location (items P s))
            fresh,
      )

  -- With a cache that meets IsLru, where the books are in order, the location is cached with a
  -- given old file and there is room for the new bytes, add_cache_entry raises used_cache_bytes
  -- by the length of the new bytes, while the bytes of the cached files grow by that length less
  -- the length of the old file.
  pub add_cache_entry-overcounts :
      (fuel : ℕ) (location : Location) (bytes : Bytes) (s : DaemonState P) (entry : CacheEntry)
      (old : File)
      → Accounted P s
      → lookup location (items P s) ≡ some entry
      → s.disk.files entry.uri ≡ some old
      → s.used_cache_bytes + length bytes ≤ s.max_cache_size
      → s.used_cache_bytes + length bytes < usize_mod
      → (s' : DaemonState P) × (add_cache_entry P fuel location bytes s ≡ (ok tt, s'))
        × (s'.used_cache_bytes ≡ s.used_cache_bytes + length bytes)
        × (total s'.disk.files (items P s') + length old.bytes
            ≡ total s.disk.files (items P s) + length bytes)
  unfolding evict
  add_cache_entry-overcounts fuel location bytes s entry old h found there room fits =
      let s1 = record s {
        cache = (P.lru.get location s.cache).1;
        disk = put_file entry.uri bytes s.disk;
      } in
      let s2 = record s1 { used_cache_bytes = s.used_cache_bytes + length bytes } in
      let stores =
        store_entry-hit P L fuel s location bytes entry (L.get-lookup location s.cache ∙ found) in
      let evicts = evict_loop-within P (length (items P s2)) s2 (ground arith) in
      let order : items P s2 ≡ touch location entry (items P s) =
        L.iter-get location s.cache ∙ ground arith in
      let books =
        IsAccounted-hit s.disk.files (items P s) s.used_cache_bytes location entry
          (file_of P s bytes) h found in
      (
        saved_state P s2,
        add_cache_entry-parts P L fuel location bytes s s1 s2 s2 stores
              (add_used_lem P (length bytes) s1 fits) evicts
            ∙ save_cache_lem P s2,
        refl,
        ap (λ (n : ℕ). n + length old.bytes)
              (total-update (put_file entry.uri bytes s.disk).files (lit "cache")
                (some (file_of P s2 (cache_bytes P s2))) (items P s2) (rw order books.reserved))
            ∙ rw order (total-hit s location bytes entry old h found there),
      )
