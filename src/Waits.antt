-- ===== src/Waits.antt =====
-- file_system.rs and protocol.rs: daemons that read each other's files. `read_remote` keeps
-- `file_access_lock` while it waits for the owner of the file, and the owner needs its own
-- `file_access_lock` to answer. A daemon has a number, and no connection breaks.
pub mod Circles
pub mod Ends
use vpfs_iroh.Base.{ℕ, suc, eqb, Bool, true, false, if◌then◌else◌, ◌≡◌, ◌≢◌}

-- Where `read_remote` is for the file of an owner; a daemon is in it once at a time.
pub data Phase : Type 0 where
  idle : Phase
  locked : ℕ → Phase
  waiting : ℕ → Phase
  answered : ℕ → Phase

-- Whether the guard `_fs_lock` is held.
unfoldable pub holds_lock : Phase → Bool
holds_lock idle = false
holds_lock (locked owner) = true
holds_lock (waiting owner) = true
holds_lock (answered owner) = true

abbrev pub System : Type 0
System = ℕ → Phase

unfoldable pub set : ℕ → Phase → System → System
set i phase s j = if eqb j i then phase else s j

-- What goes on with a read that has begun: the request is sent, the owner takes its lock and answers,
-- the guard is dropped at the return.
pub data Advance (s : System) : System → Type 0 where
  ask : (i owner : ℕ) → s i ≡ locked owner → Advance s (set i (waiting owner) s)
  serve :
      (i owner : ℕ)
      → s i ≡ waiting owner
      → holds_lock (s owner) ≡ false
      → Advance s (set i (answered owner) s)
  leave : (i owner : ℕ) → s i ≡ answered owner → Advance s (set i idle s)

-- A read begins where the lock is free.
pub data Step (s : System) : System → Type 0 where
  lock : (i owner : ℕ) → owner ≢ i → holds_lock (s i) ≡ false → Step s (set i (locked owner) s)
  advance : {t : System} → Advance s t → Step s t

pub data Steps (s : System) : System → Type 0 where
  stop : Steps s s
  later : {t u : System} → Steps s t → Step t u → Steps s u

-- So many steps of reads that have begun.
pub data Advances (s : System) : ℕ → System → Type 0 where
  none_yet : Advances s 0 s
  one_more : {m : ℕ} {t u : System} → Advances s m t → Advance t u → Advances s (suc m) u
