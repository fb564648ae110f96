-- ===== src/Alone/Appends.antt =====
-- Appending on a whole daemon.
use vpfs_iroh.Base.{
  str_eq, eq_refl, none, some, List, ◌++◌, success, failure, ok, Exec, after, pure, ◌>>=◌, ◌≡◌,
  refl, ap, ◌∙◌, arith, ◌⊎◌, inl, inr,
}
use vpfs_iroh.Messages.{Location, DirectoryEntry, already_exists}
use vpfs_iroh.Files.{File, put_file}
use vpfs_iroh.Codec.{IsLawful}
use vpfs_iroh.Directory.Search.{find_entry}
use vpfs_iroh.Directory.Append.{append_dir_entry-taken, append_dir_entry-free}
use vpfs_iroh.Directory.Total.{append_dir_entry-cases}
use vpfs_iroh.Platform.{Platform}
use vpfs_iroh.State.{DaemonState}
use vpfs_iroh.Cache.{set_disk}
use vpfs_iroh.Find.Local.{Tree}
use vpfs_iroh.Place.{append_at}
use vpfs_iroh.Alone.{IsWhole}
use vpfs_iroh.Alone.Growth.{appended, IsWhole-put_file}

-- The operation ends without a panic, and leaves the daemon whole and with its name.
pub record EndsWhole (P : Platform) {A : Type 0} (m : Exec (DaemonState P) A) (s : DaemonState P)
    : Type 0 where
  pub result : A
  pub last : DaemonState P
  pub tree : Tree
  pub runs : m s ≡ (ok result, last)
  pub whole : IsWhole P tree last
  pub same : last.local ≡ s.local

pub EndsWhole-bind :
    (P : Platform) {A B : Type 0} (m : Exec (DaemonState P) A) (f : A → Exec (DaemonState P) B)
    (s : DaemonState P) (E : EndsWhole P m s)
    → EndsWhole P (f E.result) E.last
    → EndsWhole P (m >>= f) s
EndsWhole-bind P m f s E F = record {
  result = F.result;
  last = F.last;
  tree = F.tree;
  runs = ap (after f) E.runs ∙ F.runs;
  whole = F.whole;
  same = F.same ∙ E.same;
}

pub EndsWhole-pure :
    (P : Platform) {A : Type 0} (a : A) (tree : Tree) (s : DaemonState P)
    → IsWhole P tree s
    → EndsWhole P (pure a) s
EndsWhole-pure P a tree s W = record {
  result = a;
  last = s;
  tree = tree;
  runs = refl;
  whole = W;
  same = refl;
}

module _ (P : Platform) (lawful : IsLawful P.entry_codec) (tree : Tree) (s : DaemonState P)
    (W : IsWhole P tree s) (L : Location) (here : L.node_name ≡ s.local.name)
    (new : DirectoryEntry) where
  pub append_at-taken :
      (entries : List DirectoryEntry) (existing : DirectoryEntry)
      → tree L.uri ≡ some entries
      → find_entry new.name entries ≡ some existing
      → append_at P L new s ≡ (ok (failure (already_exists existing)), s)
  unfolding append_at
  append_at-taken entries existing held taken = ground (
    arith,
    here,
    eq_refl s.local.name,
    append_dir_entry-taken P.entry_codec lawful L.uri new existing s.disk entries W.unpoisoned
        (W.stored L.uri entries held) taken,
  )

  pub append_at-free :
      (entries : List DirectoryEntry)
      → tree L.uri ≡ some entries
      → find_entry new.name entries ≡ none
      → append_at P L new s ≡ (ok (success tt), appended P L.uri entries new s)
  unfolding append_at
  append_at-free entries held free = ground (
    arith,
    here,
    eq_refl s.local.name,
    append_dir_entry-free P.entry_codec lawful L.uri new s.disk entries W.unpoisoned
        (W.stored L.uri entries held) free,
  )

  -- An append to a file that is no directory.
  pub append_at-file :
      (file : File)
      → s.disk.files L.uri ≡ some file
      → ((existing : DirectoryEntry) × (append_at P L new s
            ≡ (ok (failure (already_exists existing)), s)))
        ⊎ (append_at P L new s ≡ (
          ok (success tt),
          set_disk P (put_file L.uri (file.bytes ++ P.entry_codec.to_vec new) s.disk) s,
        ))
  unfolding append_at
  append_at-file file there =
      elim (append_dir_entry-cases P.entry_codec lawful L.uri new file s.disk W.unpoisoned there) [
        | inl (existing, refused) ↦ inl (existing, ground (arith, here, eq_refl s.local.name))
        | inr added ↦ inr (ground (arith, here, eq_refl s.local.name))
      ]

  pub append_at-file-EndsWhole :
      (file : File)
      → s.disk.files L.uri ≡ some file
      → tree L.uri ≡ none
      → (E : EndsWhole P (append_at P L new) s) × (E.tree ≡ tree)
        × ((file' : File) × (E.last.disk.files L.uri ≡ some file'))
  append_at-file-EndsWhole file there free = elim (append_at-file file there) [
    | inl (existing, refused) ↦ (
      record { result = _; last = s; tree = tree; runs = refused; whole = W; same = refl },
      refl,
      (file, there),
    )
    | inr added ↦
        let bytes = file.bytes ++ P.entry_codec.to_vec new in
        (
          record {
            result = _;
            last = set_disk P (put_file L.uri bytes s.disk) s;
            tree = tree;
            runs = added;
            whole = IsWhole-put_file P tree s W L.uri bytes free;
            same = refl;
          },
          refl,
          (record { bytes = bytes; modified = s.disk.clock }, ground (arith, eq_refl L.uri)),
        )
  ]
