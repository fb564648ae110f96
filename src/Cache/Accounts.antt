-- ===== src/Cache/Accounts.antt =====
-- The books of the cache: every entry has a file of its own, and the bytes of these files are no
-- more than what `used_cache_bytes` says.
use vpfs_iroh.Base.{
  ℕ, ◌+◌, ◌-◌, ◌≤◌, Str, lit, str_eq, Option, none, some, List, [], ◌∷◌, ◌++◌, length, ◌≡◌, ◌≢◌,
  arith,
}
use vpfs_iroh.Messages.{Location, CacheEntry, location_eq}
use vpfs_iroh.Files.{File, update}
use vpfs_iroh.Lru.{lookup, erase, erase_absent, touch, All-erase, All-lookup}
use vpfs_iroh.Cache.{CacheItem}
use vpfs_iroh.Cache.Sizes.{
  Files, total, Fresh, Distinct, Backed, total-update, Backed-update, Fresh-missing, total-erase,
  Distinct-erase, total-append, All-init, Distinct-last,
}

pub record IsAccounted (files : Files) (items : List CacheItem) (used : ℕ) : Type 0 where
  pub backed : Backed files items
  pub distinct : Distinct items
  -- The file `cache` is no entry's.
  pub reserved : Fresh (lit "cache") items
  pub counted : total files items ≤ used

-- A hit writes the bytes to the file of the entry. The old size is still counted.
pub IsAccounted-hit :
    (files : Files) (items : List CacheItem) (used : ℕ) (k : Location) (entry : CacheEntry)
    (file : File)
    → IsAccounted files items used
    → lookup k items ≡ some entry
    → IsAccounted
        (update files entry.uri (some file))
        (touch k entry items)
        (used + length file.bytes)
IsAccounted-hit files items used k entry file h found =
    let (fresh, distinct) = Distinct-erase k items {entry = entry} h.distinct found in
    let others = All-erase (λ item. (f : File) × (files item.1.uri ≡ some f)) k items h.backed in
    record {
      backed = (
        (file, ground arith),
        Backed-update files entry.uri (some file) (erase k items) fresh others,
      );
      distinct = (fresh, distinct);
      reserved = (
        All-lookup (λ item. item.1.uri ≢ lit "cache") k items h.reserved found,
        All-erase (λ item. item.1.uri ≢ lit "cache") k items h.reserved,
      );
      counted = ground (
        arith,
        h.counted,
        total-update files entry.uri (some file) (erase k items) fresh,
        total-erase files k items {entry = entry} found,
      );
    }

-- A miss adds an entry with a file that was not there.
pub IsAccounted-miss :
    (files : Files) (items : List CacheItem) (used : ℕ) (k : Location) (uri : Str) (file : File)
    → IsAccounted files items used
    → lookup k items ≡ none
    → files uri ≡ none
    → uri ≢ lit "cache"
    → IsAccounted
        (update files uri (some file))
        (touch k (record { uri = uri }) items)
        (used + length file.bytes)
IsAccounted-miss files items used k uri file h absent missing named =
    let fresh = Fresh-missing files uri items missing h.backed in
    rw (erase_absent k items absent) (record {
      backed = ((file, ground arith), Backed-update files uri (some file) items fresh h.backed);
      distinct = (fresh, h.distinct);
      reserved = (named, h.reserved);
      counted = ground (arith, h.counted, total-update files uri (some file) items fresh);
    })

-- The file of the least recently used entry goes, and its size is no more than what is counted.
pub IsAccounted-evict :
    (files : Files) (items : List CacheItem) (last : CacheItem) (used : ℕ)
    → IsAccounted files (items ++ last ∷ []) used
    → (file : File) × (files last.1.uri ≡ some file)
      × (length file.bytes ≤ used)
      × IsAccounted (update files last.1.uri none) items (used - length file.bytes)
IsAccounted-evict files items last used h =
    let (others, (file, there)) =
      All-init (λ item. (f : File) × (files item.1.uri ≡ some f)) items last h.backed in
    let (fresh, distinct) = Distinct-last items last h.distinct in
    let (reserved, apart) = All-init (λ item. item.1.uri ≢ lit "cache") items last h.reserved in
    let sum = total-append files items (last ∷ []) in
    let same = total-update files last.1.uri none items fresh in
    (
      file,
      there,
      ground (arith, h.counted, sum),
      record {
        backed = Backed-update files last.1.uri none items fresh others;
        distinct = distinct;
        reserved = reserved;
        counted = ground (arith, h.counted, sum, same);
      },
    )

-- Writing a file that no entry has changes nothing in the books.
pub IsAccounted-update :
    (files : Files) (items : List CacheItem) (used : ℕ) (uri : Str) (file : Option File)
    → IsAccounted files items used
    → Fresh uri items
    → IsAccounted (update files uri file) items used
IsAccounted-update files items used uri file h fresh = record {
  backed = Backed-update files uri file items fresh h.backed;
  distinct = h.distinct;
  reserved = h.reserved;
  counted = omega (arith, h.counted, total-update files uri file items fresh);
}
