-- ===== src/Cache/Store.antt =====
-- What `add_cache_entry` does before it makes room.
use vpfs_iroh.Base.{
  ℕ, ◌+◌, ◌<◌, Str, str_eq, Option, none, some, [], ◌∷◌, length, ◌≡◌, ◌≢◌, refl, sym, ap, ◌∙◌,
  fun_ext, arith, Option-cases, inl, inr, ok,
}
use vpfs_iroh.Messages.{Location, CacheEntry, location_eq}
use vpfs_iroh.Files.{Bytes, File, Disk, update, put_file, fs_read, hex, create_file_with_random_uri}
use vpfs_iroh.Files.Uris.{create_file_with_random_uri-new, create_file_with_random_uri-total}
use vpfs_iroh.Lru.{IsLru, lookup, erase, touch, All-lookup, All-erase}
use vpfs_iroh.Platform.{Platform}
use vpfs_iroh.State.{DaemonState}
use vpfs_iroh.Cache.{store_entry}
use vpfs_iroh.Cache.Sizes.{Fresh}
use vpfs_iroh.Cache.Accounts.{IsAccounted, IsAccounted-hit, IsAccounted-miss}
use vpfs_iroh.Cache.Evict.{items, Accounted}

module _ (P : Platform) where
  -- One of the next draws gives a name that no file has.
  abbrev pub HasFreeUri : ℕ → Disk → Type 0
  HasFreeUri fuel d = (n : ℕ) × (d.files (hex 16 (P.random (d.drawn + n))) ≡ none) × (n < fuel)

  -- The entry of the location comes first, with the bytes, and the books count the bytes.
  pub record IsStored (s : DaemonState P) (location : Location) (bytes : Bytes) (s' : DaemonState P)
      : Type 0 where
    pub accounted : IsAccounted s'.disk.files (items P s') (s.used_cache_bytes + length bytes)
    pub entry : CacheEntry
    pub first : items P s' ≡ (location, entry) ∷ erase location (items P s)
    pub stored : fs_read entry.uri s'.disk ≡ some bytes
    pub frame :
        (uri : Str) (file : File)
        → Fresh uri (items P s)
        → s.disk.files uri ≡ some file
        → Fresh uri (items P s') × (s'.disk.files uri ≡ some file)
    pub used_cache_bytes : s'.used_cache_bytes ≡ s.used_cache_bytes
    pub max_cache_size : s'.max_cache_size ≡ s.max_cache_size
    pub root : s'.root ≡ s.root
    pub poisoned : s'.disk.poisoned ≡ s.disk.poisoned

  abbrev pub file_of : DaemonState P → Bytes → File
  file_of s bytes = record { bytes = bytes; modified = s.disk.clock }

module _ (P : Platform) (L : IsLru P.lru) where
  pub store_entry-hit :
      (fuel : ℕ) (s : DaemonState P) (location : Location) (bytes : Bytes) (entry : CacheEntry)
      → (P.lru.get location s.cache).0 ≡ some entry
      → store_entry P fuel location bytes s ≡ (
        ok tt,
        record s { cache = (P.lru.get location s.cache).1; disk = put_file entry.uri bytes s.disk },
      )
  unfolding store_entry
  store_entry-hit fuel s location bytes entry hit = ground arith

  store_entry-miss :
      (fuel : ℕ) (s : DaemonState P) (location : Location) (bytes : Bytes) (uri : Str) (d : Disk)
      → (P.lru.get location s.cache).0 ≡ none
      → create_file_with_random_uri P.random fuel s.disk ≡ (ok uri, d)
      → store_entry P fuel location bytes s ≡ (
        ok tt,
        record s {
          cache = P.lru.put location (record { uri = uri }) (P.lru.get location s.cache).1;
          disk = put_file uri bytes d;
        },
      )
  unfolding store_entry
  store_entry-miss fuel s location bytes uri d miss made = ground arith

  store_hit :
      (fuel : ℕ) (s : DaemonState P) (location : Location) (bytes : Bytes) (entry : CacheEntry)
      → Accounted P s
      → lookup location (items P s) ≡ some entry
      → (s' : DaemonState P) × (store_entry P fuel location bytes s ≡ (ok tt, s'))
        × IsStored P s location bytes s'
  store_hit fuel s location bytes entry h found =
      let order : P.lru.iter (P.lru.get location s.cache).1 ≡ touch location entry (items P s) =
        L.iter-get location s.cache ∙ ground arith in
      (
        record s { cache = (P.lru.get location s.cache).1; disk = put_file entry.uri bytes s.disk },
        store_entry-hit fuel s location bytes entry (L.get-lookup location s.cache ∙ found),
        record {
          accounted = rw order (
              IsAccounted-hit s.disk.files (items P s) s.used_cache_bytes location entry
                (file_of P s bytes) h found);
          entry = entry;
          first = order;
          stored = ground arith;
          frame = λ uri file fresh there.
              let apart = All-lookup (λ item. item.1.uri ≢ uri) location (items P s) fresh found in
              (
                rw order (apart, All-erase (λ item. item.1.uri ≢ uri) location (items P s) fresh),
                ground arith,
              );
          used_cache_bytes = refl;
          max_cache_size = refl;
          root = refl;
          poisoned = refl;
        },
      )

  update_ne :
      (files : Str → Option File) (uri name : Str) (file : Option File)
      → name ≢ uri
      → update files uri file name ≡ files name
  update_ne files uri name file apart = ground arith

  -- Creating a file and then writing it is writing it.
  files-put_file :
      (s : DaemonState P) (bytes : Bytes) (uri : Str) (d : Disk) (empty : Option File)
      → d.files ≡ update s.disk.files uri empty
      → d.clock ≡ s.disk.clock
      → (put_file uri bytes d).files ≡ update s.disk.files uri (some (file_of P s bytes))
  files-put_file s bytes uri d empty files clock = fun_ext λ name. rw (files, clock) (ground arith)

  store_miss :
      (fuel : ℕ) (s : DaemonState P) (location : Location) (bytes : Bytes)
      → Accounted P s
      → HasFreeUri P fuel s.disk
      → lookup location (items P s) ≡ none
      → (s' : DaemonState P) × (store_entry P fuel location bytes s ≡ (ok tt, s'))
        × IsStored P s location bytes s'
  store_miss fuel s location bytes h (n, free, enough) absent =
      let (uri, d, made) = create_file_with_random_uri-total P.random fuel n s.disk free enough in
      let (missing, files, not_root, not_cache, poisoned, clock) =
        create_file_with_random_uri-new P.random fuel s.disk made in
      let entry : CacheEntry = record { uri = uri } in
      let got : P.lru.iter (P.lru.get location s.cache).1 ≡ items P s =
        L.iter-get location s.cache ∙ ground arith in
      let order : P.lru.iter (P.lru.put location entry (P.lru.get location s.cache).1)
          ≡ touch location entry (items P s) =
        L.iter-put location entry _ ∙ ap (touch location entry) got in
      let written : (put_file uri bytes d).files
          ≡ update s.disk.files uri (some (file_of P s bytes)) =
        files-put_file s bytes uri d (some (record { bytes = []; modified = s.disk.clock })) files
          clock in
      (
        record s {
          cache = P.lru.put location entry (P.lru.get location s.cache).1;
          disk = put_file uri bytes d;
        },
        store_entry-miss fuel s location bytes uri d (L.get-lookup location s.cache ∙ absent) made,
        record {
          accounted =
              rw (order, written)
                (IsAccounted-miss s.disk.files (items P s) s.used_cache_bytes location uri
                  (file_of P s bytes) h absent missing not_cache);
          entry = entry;
          first = order;
          stored = ground arith;
          frame = λ u file fresh there.
              let apart : u ≢ uri = λ same. cc (missing, there, same) in
              (
                rw order (
                  (λ same. apart (sym same)),
                  All-erase (λ item. item.1.uri ≢ u) location (items P s) fresh,
                ),
                ap (λ (f : Str → Option File). f u) written
                    ∙ update_ne s.disk.files uri u _ apart
                    ∙ there,
              );
          used_cache_bytes = refl;
          max_cache_size = refl;
          root = refl;
          poisoned = poisoned;
        },
      )

  -- The entry is stored, whether the location was cached or not.
  pub store_entry-IsStored :
      (fuel : ℕ) (s : DaemonState P) (location : Location) (bytes : Bytes)
      → Accounted P s
      → HasFreeUri P fuel s.disk
      → (s' : DaemonState P) × (store_entry P fuel location bytes s ≡ (ok tt, s'))
        × IsStored P s location bytes s'
  store_entry-IsStored fuel s location bytes h free =
      elim (Option-cases (lookup location (items P s))) [
        | inl absent ↦ store_miss fuel s location bytes h free absent
        | inr (entry, found) ↦ store_hit fuel s location bytes entry h found
      ]
