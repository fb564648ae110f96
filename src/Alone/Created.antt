-- ===== src/Alone/Created.antt =====
-- A whole daemon that gets a new file or directory.
use vpfs_iroh.Base.{
  Str, lit, ◌==◌, str_eq, false, none, some, List, [], if◌then◌else◌, ◌≡◌, refl, sym, ap, ◌∙◌,
  arith, Bool-cases, inl, inr,
}
use vpfs_iroh.Messages.{DirectoryEntry}
use vpfs_iroh.Files.{File, update}
use vpfs_iroh.Directory.Append.{Holds}
use vpfs_iroh.Platform.{Platform}
use vpfs_iroh.State.{DaemonState}
use vpfs_iroh.Find.Local.{Tree}
use vpfs_iroh.Alone.{IsPlaced, IsWhole}
use vpfs_iroh.Alone.Growth.{free-none, read-some}

-- The tree with a new and empty directory.
abbrev pub add : Tree → Str → Tree
add tree new uri = if uri == new then some [] else tree uri

module _ (P : Platform) (tree : Tree) (s s' : DaemonState P) (W : IsWhole P tree s) (uri : Str)
    (file : File) (free : s.disk.files uri ≡ none)
    (files : s'.disk.files ≡ update s.disk.files uri (some file)) (clean : s'.disk.poisoned ≡ false)
    (root : s'.root ≡ s.root) (local : s'.local ≡ s.local) where
  files-kept :
      (other : Str) (file' : File)
      → s.disk.files other ≡ some file'
      → s'.disk.files other ≡ some file'
  files-kept other file' there = ground (arith, ap (λ f. f other) files)

  created_root : s'.root ≡ some s'.local
  created_root = root ∙ W.root_here ∙ ap (λ n. some n) (sym local)

  created_stored :
      (directory : Str) (entries : List DirectoryEntry)
      → tree directory ≡ some entries
      → Holds P.entry_codec s'.disk directory entries
  created_stored directory entries held =
      let (file', there) =
        read-some P.entry_codec s.disk directory entries (W.stored directory entries held) in
      ground (arith, files-kept directory file' there, W.stored directory entries held)

  -- A daemon with a new file has the directories that it had.
  pub IsWhole-create : IsWhole P tree s'
  IsWhole-create = record {
    root_here = created_root;
    unpoisoned = clean;
    stored = created_stored;
    top = W.top;
    placed = λ directory name entries entry held found.
        let N = W.placed directory name entries entry held found in
        record {
          here = N.here ∙ ap (λ n. n.name) (sym local);
          present = (N.present.0, files-kept entry.location.uri N.present.0 N.present.1);
          below = N.below;
          apart = N.apart;
        };
  }

  IsPlaced-add :
      (entry : DirectoryEntry) → IsPlaced P tree s entry → IsPlaced P (add tree uri) s' entry
  IsPlaced-add entry N =
      let (file', there) = N.present in
      record {
        here = N.here ∙ ap (λ n. n.name) (sym local);
        present = (file', files-kept entry.location.uri file' there);
        below = λ dir.
            let (below, held) = N.below dir in
            (below, ground (arith, held, there, free, free-none P tree s W uri free));
        apart = λ plain. ground (arith, N.apart plain, there, free);
      }

  -- If it is empty, it may be taken for a directory.
  pub IsWhole-add : file.bytes ≡ [] → IsWhole P (add tree uri) s'
  IsWhole-add empty = record {
    root_here = created_root;
    unpoisoned = clean;
    stored = λ directory entries held. elim (Bool-cases (directory == uri)) [
      | inl same ↦ ground (arith, ap (λ f. f directory) files)
      | inr other ↦ ground (arith, created_stored directory entries)
    ];
    top = elim (Bool-cases (lit "root" == uri)) [
      | inl same ↦ ([], rw (same) refl)
      | inr other ↦ (W.top.0, rw (other) W.top.1)
    ];
    placed = λ directory name entries entry held found. elim (Bool-cases (directory == uri)) [
      | inl same ↦ let none_there : entries ≡ [] = ground arith in absurd (ground arith)
      | inr other ↦
          let before : tree directory ≡ some entries = ground arith in
          IsPlaced-add entry (W.placed directory name entries entry before found)
    ];
  }
