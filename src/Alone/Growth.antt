-- ===== src/Alone/Growth.antt =====
-- What a whole daemon stays whole under: new files, new contents of files, and new entries.
use vpfs_iroh.Base.{
  Str, lit, ◌==◌, str_eq, true, false, none, some, List, [], ◌∷◌, ◌++◌, append-nil, ◌≡◌, sym, ap,
  subst, ◌∙◌, arith, Option-cases, Bool-cases, inl, inr,
}
use vpfs_iroh.Messages.{DirectoryEntry}
use vpfs_iroh.Files.{Bytes, File, Disk, put_file}
use vpfs_iroh.Codec.{Codec}
use vpfs_iroh.Directory.Search.{find_entry, encode, encode-append}
use vpfs_iroh.Directory.Append.{Holds}
use vpfs_iroh.Platform.{Platform}
use vpfs_iroh.State.{DaemonState}
use vpfs_iroh.Cache.{set_disk}
use vpfs_iroh.Find.Local.{Tree}
use vpfs_iroh.Place.Trees.{grow, find_entry-cases}
use vpfs_iroh.Place.Grown.{grow-some}
use vpfs_iroh.Alone.{IsPlaced, IsWhole}

-- A file that is read is there.
pub read-some :
    (codec : Codec DirectoryEntry) (d : Disk) (uri : Str) (entries : List DirectoryEntry)
    → Holds codec d uri entries
    → (file : File) × (d.files uri ≡ some file)
read-some codec d uri entries holds = elim (Option-cases (d.files uri)) [
  | inl missing ↦ absurd (ground arith)
  | inr found ↦ found
]

-- A file that is written is there, and so is every file that was there.
pub put_file-some :
    (d : Disk) (uri other : Str) (bytes : Bytes) (file : File)
    → d.files other ≡ some file
    → (file' : File) × ((put_file uri bytes d).files other ≡ some file')
put_file-some d uri other bytes file there = elim (Bool-cases (other == uri)) [
  | inl same ↦ (record { bytes = bytes; modified = d.clock }, ground arith)
  | inr apart ↦ (file, ground arith)
]

pub grow-none :
    (tree : Tree) (directory : Str) (entries : List DirectoryEntry) (new : DirectoryEntry)
    (uri : Str)
    → tree directory ≡ some entries
    → tree uri ≡ none
    → grow tree directory entries new uri ≡ none
grow-none tree directory entries new uri held free = ground arith

-- The disk after an entry was appended.
abbrev pub appended :
    (P : Platform) → Str → List DirectoryEntry → DirectoryEntry → DaemonState P → DaemonState P
appended P directory entries new s =
    set_disk P
      (put_file directory (encode P.entry_codec entries ++ P.entry_codec.to_vec new) s.disk) s

module _ (P : Platform) (tree : Tree) (s : DaemonState P) (directory : Str)
    (entries : List DirectoryEntry) (new : DirectoryEntry)
    (held : tree directory ≡ some entries) where
  IsPlaced-grow :
      (entry : DirectoryEntry)
      → IsPlaced P tree s entry
      → IsPlaced P (grow tree directory entries new) (appended P directory entries new s) entry
  IsPlaced-grow entry N = record {
    here = N.here;
    present = put_file-some s.disk directory entry.location.uri _ N.present.0 N.present.1;
    below = λ dir.
        let (olds, old) = N.below dir in
        grow-some tree directory entries new entry.location.uri olds old;
    apart = λ file. grow-none tree directory entries new entry.location.uri held (N.apart file);
  }

  grow-IsPlaced :
      (W : IsWhole P tree s) (N : IsPlaced P tree s new) (uri name : Str)
      (entries' : List DirectoryEntry) (entry : DirectoryEntry)
      → grow tree directory entries new uri ≡ some entries'
      → find_entry name entries' ≡ some entry
      → IsPlaced P tree s entry
  grow-IsPlaced W N uri name entries' entry held' found = elim (Bool-cases (uri == directory)) [
    | inl same ↦
        let all : entries' ≡ entries ++ new ∷ [] = ground arith in
        elim (find_entry-cases name entries new entry (rw (← all) found)) [
          | inl old ↦ W.placed directory name entries entry held old
          | inr e ↦ subst (IsPlaced P tree s) (sym e) N
        ]
    | inr other ↦
        let before : tree uri ≡ some entries' = ground arith in
        W.placed uri name entries' entry before found
  ]

  -- A directory that gets an entry for what is there.
  pub IsWhole-grow :
      IsWhole P tree s
      → IsPlaced P tree s new
      → IsWhole P (grow tree directory entries new) (appended P directory entries new s)
  IsWhole-grow W N = record {
    root_here = W.root_here;
    unpoisoned = W.unpoisoned;
    stored = λ uri entries' held'. elim (Bool-cases (uri == directory)) [
      | inl same ↦ ground (
        arith,
        encode-append P.entry_codec entries (new ∷ []),
        append-nil (P.entry_codec.to_vec new),
      )
      | inr other ↦ ground (arith, W.stored uri entries')
    ];
    top = grow-some tree directory entries new (lit "root") W.top.0 W.top.1;
    placed = λ uri name entries' entry held' found.
        IsPlaced-grow entry (grow-IsPlaced W N uri name entries' entry held' found);
  }

module _ (P : Platform) (tree : Tree) (s : DaemonState P) (W : IsWhole P tree s) where
  -- A file that is none of the directories may be written.
  pub IsWhole-put_file :
      (uri : Str) (bytes : Bytes)
      → tree uri ≡ none
      → IsWhole P tree (set_disk P (put_file uri bytes s.disk) s)
  IsWhole-put_file uri bytes free = record {
    root_here = W.root_here;
    unpoisoned = W.unpoisoned;
    stored = λ directory entries held. ground (arith, W.stored directory entries held);
    top = W.top;
    placed = λ directory name entries entry held found.
        let N = W.placed directory name entries entry held found in
        record {
          here = N.here;
          present = put_file-some s.disk uri entry.location.uri bytes N.present.0 N.present.1;
          below = N.below;
          apart = N.apart;
        };
  }

  -- Only the files, the lock, the root and the name count.
  pub IsWhole-same :
      (s' : DaemonState P)
      → s'.disk.files ≡ s.disk.files
      → s'.disk.poisoned ≡ false
      → s'.root ≡ some s'.local
      → s'.local ≡ s.local
      → IsWhole P tree s'
  IsWhole-same s' files clean root local = record {
    root_here = root;
    unpoisoned = clean;
    stored = λ directory entries held.
        ground (arith, W.stored directory entries held, ap (λ f. f directory) files);
    top = W.top;
    placed = λ directory name entries entry held found.
        let N = W.placed directory name entries entry held found in
        record {
          here = N.here ∙ ap (λ n. n.name) (sym local);
          present = (N.present.0, ap (λ f. f entry.location.uri) files ∙ N.present.1);
          below = N.below;
          apart = N.apart;
        };
  }

  -- What has no file is no directory.
  pub free-none : (uri : Str) → s.disk.files uri ≡ none → tree uri ≡ none
  free-none uri free = elim (Option-cases (tree uri)) [
    | inl e ↦ e
    | inr (entries, held) ↦
        let (file, there) =
          read-some P.entry_codec s.disk uri entries (W.stored uri entries held) in
        absurd cc
  ]

-- What names a directory of the tree.
pub IsPlaced-directory :
    (P : Platform) (tree : Tree) (s : DaemonState P) (W : IsWhole P tree s) (entry : DirectoryEntry)
    (entries : List DirectoryEntry)
    → entry.location.node_name ≡ s.local.name
    → tree entry.location.uri ≡ some entries
    → entry.is_dir ≡ true
    → IsPlaced P tree s entry
IsPlaced-directory P tree s W entry entries here held dir = record {
  here = here;
  present =
      read-some P.entry_codec s.disk entry.location.uri entries
        (W.stored entry.location.uri entries held);
  below = λ _. (entries, held);
  apart = λ plain. absurd (ground arith);
}
