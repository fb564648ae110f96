-- ===== src/Cache/Sizes.antt =====
-- The files behind a list of cache entries, and the bytes that they take.
use vpfs_iroh.Base.{
  ℕ, ◌+◌, Str, str_eq, Option, none, some, List, [], ◌∷◌, ◌++◌, length, ◌≡◌, ◌≢◌, refl, sym, ap,
  arith, All,
}
use vpfs_iroh.Messages.{Location, CacheEntry, location_eq}
use vpfs_iroh.Files.{File, update}
use vpfs_iroh.Lru.{lookup, erase, All-erase, All-lookup}
use vpfs_iroh.Cache.{CacheItem}

abbrev pub Files : Type 0
Files = Str → Option File

abbrev size_of : Option File → ℕ
size_of none = 0
size_of (some file) = length file.bytes

-- The bytes of the files of the entries.
abbrev pub total : Files → List CacheItem → ℕ
total files [] = 0
total files ((_, entry) ∷ items) = size_of (files entry.uri) + total files items

-- No entry has the given file.
abbrev pub Fresh : Str → List CacheItem → Type 0
Fresh uri = All (λ item. item.1.uri ≢ uri)

-- No two entries share a file.
abbrev pub Distinct : List CacheItem → Type 0
Distinct [] = Unit
Distinct (item ∷ items) = Fresh item.1.uri items × Distinct items

-- Every entry has its file.
abbrev pub Backed : Files → List CacheItem → Type 0
Backed files = All (λ item. (file : File) × (files item.1.uri ≡ some file))

pub total-update :
    (files : Files) (uri : Str) (file : Option File) (items : List CacheItem)
    → Fresh uri items
    → total (update files uri file) items ≡ total files items
total-update files uri file [] h = refl
total-update files uri file ((_, entry) ∷ items) h =
    ground (arith, total-update files uri file items h.1)

pub Backed-update :
    (files : Files) (uri : Str) (file : Option File) (items : List CacheItem)
    → Fresh uri items
    → Backed files items
    → Backed (update files uri file) items
Backed-update files uri file [] h b = tt
Backed-update files uri file ((_, entry) ∷ items) h b =
    ((b.0.0, ground arith), Backed-update files uri file items h.1 b.1)

-- A file that is missing is none of theirs.
pub Fresh-missing :
    (files : Files) (uri : Str) (items : List CacheItem)
    → files uri ≡ none
    → Backed files items
    → Fresh uri items
Fresh-missing files uri [] missing b = tt
Fresh-missing files uri ((_, entry) ∷ items) missing b =
    (λ same. cc (b.0.1, ap files same), Fresh-missing files uri items missing b.1)

module _ (files : Files) where
  -- The entry of a key and the others.
  pub total-erase :
      (k : Location) (items : List CacheItem) {entry : CacheEntry}
      → lookup k items ≡ some entry
      → total files items ≡ size_of (files entry.uri) + total files (erase k items)
  unfolding lookup erase
  total-erase k [] found = cc
  total-erase k ((j, other) ∷ items) {entry} found = elim (location_eq.dec k j) [
    | yes same ↦ ground arith
    | no differs ↦ ground (arith, total-erase k items {entry = entry})
  ]

pub Distinct-erase :
    (k : Location) (items : List CacheItem) {entry : CacheEntry}
    → Distinct items
    → lookup k items ≡ some entry
    → Fresh entry.uri (erase k items) × Distinct (erase k items)
unfolding lookup erase
Distinct-erase k [] d found = cc
Distinct-erase k ((j, other) ∷ items) {entry} d found = elim (location_eq.dec k j) [
  | yes same ↦
      let gone : erase k ((j, other) ∷ items) ≡ items = ground arith in
      let eq : other ≡ entry = ground arith in rw (gone, ← eq) d
  | no differs ↦
      let kept : erase k ((j, other) ∷ items) ≡ (j, other) ∷ erase k items = ground arith in
      let below : lookup k items ≡ some entry = ground arith in
      let (fresh, distinct) = Distinct-erase k items {entry = entry} d.1 below in
      let apart = All-lookup (λ item. item.1.uri ≢ other.uri) k items d.0 below in
      rw kept (
        (λ same. apart (sym same), fresh),
        (All-erase (λ item. item.1.uri ≢ other.uri) k items d.0, distinct),
      )
]

pub total-append :
    (files : Files) (xs ys : List CacheItem)
    → total files (xs ++ ys) ≡ total files xs + total files ys
total-append files [] ys = omega arith
total-append files (x ∷ xs) ys = omega (arith, total-append files xs ys)

pub All-init {κ} :
    (P : CacheItem → Type κ) (items : List CacheItem) (last : CacheItem)
    → All P (items ++ last ∷ [])
    → All P items × P last
All-init P [] last h = (tt, h.0)
All-init P (item ∷ items) last h = let (r, l) = All-init P items last h.1 in ((h.0, r), l)

-- The parts of a list whose last entry is dropped.
pub Distinct-last :
    (items : List CacheItem) (last : CacheItem)
    → Distinct (items ++ last ∷ [])
    → Fresh last.1.uri items × Distinct items
Distinct-last [] last d = (tt, tt)
Distinct-last (item ∷ items) last d =
    let (others, apart) = All-init (λ other. other.1.uri ≢ item.1.uri) items last d.0 in
    let (fresh, distinct) = Distinct-last items last d.1 in
    ((λ same. apart (sym same), fresh), (others, distinct))
