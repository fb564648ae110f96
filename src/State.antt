-- ===== src/State.antt =====
-- state.rs: the state of a daemon, with its files and its network beside the fields of the source.
use vpfs_iroh.Base.{ℕ, Str, Option, List, Exec}
use vpfs_iroh.Messages.{VpfsNode}
use vpfs_iroh.Files.{Disk}
use vpfs_iroh.Platform.{Platform}

module _ (P : Platform) where
  abbrev pub Node : Type 0
  Node = VpfsNode P.PublicKey

  -- `endpoint` is part of `net`, and `file_access_lock` of `disk`.
  pub record DaemonState : Type 0 where
    pub root : Option Node
    pub local : Node
    pub connections : List (Str × P.Connection)
    pub known_hosts : Option (List (Str × P.PublicKey))
    pub cache : P.lru.Cache
    pub max_cache_size : ℕ
    pub used_cache_bytes : ℕ
    pub disk : Disk
    pub net : P.Net

  -- An operation on the files, on the daemon that has them.
  abbrev pub on_disk {ℓ} : {A : Type ℓ} → Exec Disk A → Exec DaemonState A
  on_disk m s = let (r, d) = m s.disk in (r, record s { disk = d })
