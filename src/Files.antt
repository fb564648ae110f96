-- ===== src/Files.antt =====
-- file_system.rs: the files of one daemon, behind `file_access_lock`. `std::fs` is modelled by a
-- map from names to files: a call fails where the file is missing or is there already, and not for
-- other reasons.
pub mod Uris
use vpfs_iroh.Base.{
  ℕ, zero, suc, ◌+◌, ◌/◌, ◌%◌, Str, lit, ◌==◌, str_eq, Bool, true, false, Option, none, some, List,
  [], ◌∷◌, ◌++◌, ltb, if◌then◌else◌, Result, success, failure, Outcome, ok, panicked, unfinished,
  Exec, pure, panic, ◌>>=◌, ◌>>◌,
}
use vpfs_iroh.Messages.{SystemTime}

abbrev pub Bytes : Type 0
Bytes = List ℕ

pub record File : Type 0 where
  pub bytes : Bytes
  pub modified : SystemTime

pub record Disk : Type 0 where
  pub files : Str → Option File
  pub clock : SystemTime
  -- A thread panicked while it held `file_access_lock` for writing.
  pub poisoned : Bool
  -- How many random numbers have been drawn.
  pub drawn : ℕ

abbrev pub update : (Str → Option File) → Str → Option File → Str → Option File
update files uri file name = if name == uri then file else files name

abbrev pub put_file : Str → Bytes → Disk → Disk
put_file uri bytes d = record d {
  files = update d.files uri (some (record { bytes = bytes; modified = d.clock }));
}

abbrev pub delete_file : Str → Disk → Disk
delete_file uri d = record d { files = update d.files uri none }

-- `lock.read().unwrap()` of a lock that nobody keeps.
abbrev pub lock : Exec Disk (Unit {0})
lock d = if d.poisoned then (panicked, d) else (ok tt, d)

abbrev pub poison {ℓ} : {A : Type ℓ} → Outcome A × Disk → Outcome A × Disk
poison (panicked, d) = (panicked, record d { poisoned = true })
poison (ok a, d) = (ok a, d)
poison (unfinished, d) = (unfinished, d)

-- The body runs while `lock.write().unwrap()` is held: its panic poisons the lock.
abbrev pub holding_write {ℓ} : {A : Type ℓ} → Exec Disk A → Exec Disk A
holding_write m = do lock; λ d. poison (m d)

-- `fs::read`
abbrev pub fs_read : Str → Disk → Option Bytes
fs_read uri d = elim (d.files uri) [ none ↦ none | some file ↦ some file.bytes ]

-- `fs::metadata(uri)?.modified()`
abbrev pub modified_of : Str → Disk → Option SystemTime
modified_of uri d = elim (d.files uri) [ none ↦ none | some file ↦ some file.modified ]

-- `read_local` gives up the lock before it reads.
unfoldable pub read_local : Str → Exec Disk (Option Bytes)
read_local uri = do lock; λ d. (ok (fs_read uri d), d)

abbrev overwrite : Str → Bytes → Option File → Disk → Bool × Disk
overwrite uri bytes none d = (false, d)
overwrite uri bytes (some file) d = (true, put_file uri bytes d)

-- `write_local` gives up the lock before it writes. The result tells `Ok` from `Err`.
unfoldable pub write_local : Str → Bytes → Exec Disk Bool
write_local uri bytes = do
  lock
  λ d. let (written, d') = overwrite uri bytes (d.files uri) d in (ok written, d')

-- A digit of `{:x}`.
abbrev pub hex_digit : ℕ → ℕ
hex_digit n = if ltb n 10 then 48 + n else 87 + n

-- `format!("{:x}", n)`, for a number of at most the given digits.
unfoldable pub hex : ℕ → ℕ → Str
hex zero n = []
hex (suc digits) n =
    if ltb n 16 then hex_digit n ∷ [] else hex digits (n / 16) ++ hex_digit (n % 16) ∷ []

-- `random` gives the numbers that the generator of the `rand` crate draws, in order.
module _ (random : ℕ → ℕ) where
  -- The loop of the function, with its first draw. The fuel bounds the draws.
  unfoldable pub create_file_with_random_uri : ℕ → Exec Disk Str
  unfolding hex
  create_file_with_random_uri zero d = (unfinished, d)
  create_file_with_random_uri (suc fuel) d =
      let uri = hex 16 (random d.drawn) in
      let d' = record d { drawn = d.drawn + 1 } in
      elim (d.files uri) [
        | none ↦ (ok uri, put_file uri [] d')
        | some _ ↦ create_file_with_random_uri fuel d'
      ]
