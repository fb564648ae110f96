-- ===== src/Examples/CacheRuns.antt =====
-- The theorems on the cache at the daemon `caching`.
use vpfs_iroh.Base.{◌+◌, lit, str_eq, [], ◌∷◌, ◌≡◌, refl, ok, arith}
use vpfs_iroh.Messages.{Location, location_eq}
use vpfs_iroh.Files.{Bytes, hex, create_file_with_random_uri}
use vpfs_iroh.Lru.{IsLru, list_lru-IsLru, lookup, erase}
use vpfs_iroh.Lru.Keys.{NodupKeys}
use vpfs_iroh.State.{DaemonState}
use vpfs_iroh.Cache.{
  add_cache_entry, restore_cache, store_entry, add_used, evict, evict_loop, drop_file, save_cache,
}
use vpfs_iroh.Cache.Sizes.{total}
use vpfs_iroh.Cache.Evict.{items, Accounted}
use vpfs_iroh.Cache.Store.{HasFreeUri}
use vpfs_iroh.Cache.Add.{IsAdded, add_cache_entry-IsAdded}
use vpfs_iroh.Cache.Restore.{IsReadable, IsRestored, restore_cache-add_cache_entry}
use vpfs_iroh.Cache.Overcount.{add_cache_entry-overcounts}
use vpfs_iroh.Examples.Codecs
use vpfs_iroh.Examples.World.{offline, place, plain, caching, starting}

lru_law : IsLru offline.lru
lru_law = list_lru-IsLru

readable : IsReadable offline
readable = record {
  locations = Codecs.location_codec-IsLawful;
  cache_entries = Codecs.cache_entry_codec-IsLawful;
  roots = Codecs.option_codec-IsLawful Codecs.node_codec Codecs.node_codec-IsLawful;
  counts = Codecs.usize_codec-IsLawful;
}

caching-Accounted : Accounted offline caching
unfolding str_eq
caching-Accounted = record {
  backed = ((plain (1 ∷ 2 ∷ 3 ∷ []), refl), tt);
  distinct = (tt, tt);
  reserved = (λ same. cc, tt);
  counted = omega arith;
}

has_free_uri : HasFreeUri offline 1 caching.disk
unfolding str_eq hex
has_free_uri = (0, refl, omega arith)

abbrev other_file : Location
other_file = place (lit "b") (lit "77")

abbrev six : Bytes
six = 9 ∷ 9 ∷ 9 ∷ 9 ∷ 9 ∷ 9 ∷ []

add_cache_entry-IsAdded_example :
    (s' : DaemonState offline) × (add_cache_entry offline 1 other_file six caching ≡ (ok tt, s'))
    × IsAdded offline caching other_file six s'
add_cache_entry-IsAdded_example =
    add_cache_entry-IsAdded offline lru_law 1 other_file six caching caching-Accounted has_free_uri
      (omega arith)

-- The old entry makes room for the new one.
evicts_the_old :
    items offline (add_cache_entry offline 1 other_file six caching).1
    ≡ (other_file, record { uri = lit "0" }) ∷ []
unfolding add_cache_entry store_entry add_used evict evict_loop drop_file save_cache
    create_file_with_random_uri str_eq location_eq lookup erase
evicts_the_old = refl

restore_cache-add_cache_entry_example :
    (t : DaemonState offline) × (s' : DaemonState offline) × (add_cache_entry offline 1 other_file
        six caching
      ≡ (ok tt, t))
    × (restore_cache offline (record starting { disk = t.disk }) ≡ (ok tt, s'))
    × IsRestored offline t s'
    × NodupKeys (items offline t)
restore_cache-add_cache_entry_example =
    restore_cache-add_cache_entry offline lru_law readable 1 other_file six caching starting
      caching-Accounted (unfold lookup in (refl, tt)) has_free_uri (omega arith) refl

add_cache_entry-overcounts_example :
    (s' : DaemonState offline) × (add_cache_entry offline 1
        (place (lit "b") (lit "root"))
        (4 ∷ 5 ∷ [])
        caching
      ≡ (ok tt, s'))
    × (s'.used_cache_bytes ≡ 5)
    × (total s'.disk.files (items offline s') + 3 ≡ 5)
unfolding str_eq
add_cache_entry-overcounts_example =
    add_cache_entry-overcounts offline lru_law 1 (place (lit "b") (lit "root")) (4 ∷ 5 ∷ []) caching
      (record { uri = lit "c0" }) (plain (1 ∷ 2 ∷ 3 ∷ [])) caching-Accounted
      (unfold lookup location_eq in refl) refl (omega arith) (omega arith)
