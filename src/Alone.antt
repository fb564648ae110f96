-- ===== src/Alone.antt =====
-- A root daemon on its own, and what its files have to be for it to serve its clients.
pub mod Growth
pub mod Created
pub mod Parents
pub mod Found
pub mod Appends
pub mod Dots
pub mod Places
pub mod Replies
pub mod Requests
pub mod Stores
pub mod Serving
pub mod Starts
use vpfs_iroh.Base.{Str, lit, true, false, none, some, List, ◌≡◌}
use vpfs_iroh.Messages.{DirectoryEntry}
use vpfs_iroh.Files.{File}
use vpfs_iroh.Directory.Search.{find_entry}
use vpfs_iroh.Directory.Append.{Holds}
use vpfs_iroh.Platform.{Platform}
use vpfs_iroh.State.{DaemonState}
use vpfs_iroh.Find.Local.{Tree, IsLocalTree}

module _ (P : Platform) (tree : Tree) (s : DaemonState P) where
  -- What an entry names is a file of this daemon: a directory of the tree, if the entry says so, and
  -- else none of its directories.
  pub record IsPlaced (entry : DirectoryEntry) : Type 0 where
    pub here : entry.location.node_name ≡ s.local.name
    pub present : (file : File) × (s.disk.files entry.location.uri ≡ some file)
    pub below :
        entry.is_dir ≡ true
        → (entries : List DirectoryEntry) × (tree entry.location.uri ≡ some entries)
    pub apart : entry.is_dir ≡ false → tree entry.location.uri ≡ none

  -- The daemon is the root, its files hold the directories of the tree, and what their entries name
  -- is there.
  pub record IsWhole : Type 0 where
    pub root_here : s.root ≡ some s.local
    pub unpoisoned : s.disk.poisoned ≡ false
    pub stored :
        (uri : Str) (entries : List DirectoryEntry)
        → tree uri ≡ some entries
        → Holds P.entry_codec s.disk uri entries
    pub top : (entries : List DirectoryEntry) × (tree (lit "root") ≡ some entries)
    pub placed :
        (uri name : Str) (entries : List DirectoryEntry) (entry : DirectoryEntry)
        → tree uri ≡ some entries
        → find_entry name entries ≡ some entry
        → IsPlaced entry

  pub IsWhole-IsLocalTree : IsWhole → IsLocalTree P tree s
  IsWhole-IsLocalTree W = record {
    root_here = W.root_here;
    unpoisoned = W.unpoisoned;
    stored = W.stored;
    top = W.top;
    closed = λ uri name entries entry held found dir.
        let N = W.placed uri name entries entry held found in (N.here, N.below dir);
  }
