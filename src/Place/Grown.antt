-- ===== src/Place/Grown.antt =====
-- A daemon with all directories has them after an entry is added.
use vpfs_iroh.Base.{
  Str, lit, ◌==◌, str_eq, false, some, List, [], ◌∷◌, ◌++◌, append-nil, ◌≡◌, refl, arith,
  Bool-cases, inl, inr,
}
use vpfs_iroh.Messages.{DirectoryEntry}
use vpfs_iroh.Files.{put_file}
use vpfs_iroh.Directory.Search.{encode, encode-append}
use vpfs_iroh.Platform.{Platform}
use vpfs_iroh.State.{DaemonState}
use vpfs_iroh.Cache.{set_disk}
use vpfs_iroh.Find.Local.{Tree, IsLocalTree}
use vpfs_iroh.Place.Trees.{grow, find_entry-cases}

pub grow-some :
    (tree : Tree) (directory : Str) (entries : List DirectoryEntry) (new : DirectoryEntry)
    (uri : Str) (below : List DirectoryEntry)
    → tree uri ≡ some below
    → (below' : List DirectoryEntry) × (grow tree directory entries new uri ≡ some below')
grow-some tree directory entries new uri below held = elim (Bool-cases (uri == directory)) [
  | inl same ↦ (entries ++ new ∷ [], rw (same) refl)
  | inr other ↦ (below, rw (other) held)
]

-- A directory whose file is extended by the bytes of a new file's entry.
pub IsLocalTree-grow :
    (P : Platform) (tree : Tree) (s : DaemonState P) (T : IsLocalTree P tree s) (directory : Str)
    (entries : List DirectoryEntry) (new : DirectoryEntry)
    → tree directory ≡ some entries
    → new.is_dir ≡ false
    → IsLocalTree P (grow tree directory entries new) (
        set_disk P
          (put_file directory (encode P.entry_codec entries ++ P.entry_codec.to_vec new) s.disk)
          s)
IsLocalTree-grow P tree s T directory entries new held file = record {
  root_here = T.root_here;
  unpoisoned = T.unpoisoned;
  stored = λ uri entries' held'. elim (Bool-cases (uri == directory)) [
    | inl same ↦ ground (
      arith,
      encode-append P.entry_codec entries (new ∷ []),
      append-nil (P.entry_codec.to_vec new),
    )
    | inr other ↦ ground (arith, T.stored uri entries')
  ];
  top = grow-some tree directory entries new (lit "root") T.top.0 T.top.1;
  closed = λ uri name entries' entry held' found dir. elim (Bool-cases (uri == directory)) [
    | inl same ↦
        let all : entries' ≡ entries ++ new ∷ [] = ground arith in
        elim (find_entry-cases name entries new entry (rw (← all) found)) [
          | inl old ↦
              let (here, (below, held'')) = T.closed directory name entries entry held old dir in
              (here, grow-some tree directory entries new entry.location.uri below held'')
          | inr e ↦ absurd cc
        ]
    | inr other ↦
        let held_before : tree uri ≡ some entries' = ground arith in
        let (here, (below, held'')) = T.closed uri name entries' entry held_before found dir in
        (here, grow-some tree directory entries new entry.location.uri below held'')
  ];
}
