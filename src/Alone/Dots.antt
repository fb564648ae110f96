-- ===== src/Alone/Dots.antt =====
-- The entries `.` and `..` of a new directory, on a whole daemon.
use vpfs_iroh.Base.{
  lit, str_eq, eq_refl, true, none, some, List, [], ◌∷◌, after, pure, ◌>>=◌, ◌≡◌, refl, sym, ap,
  subst, ◌∙◌,
}
use vpfs_iroh.Messages.{Location, DirectoryEntry}
use vpfs_iroh.Files.{File}
use vpfs_iroh.Codec.{IsLawful}
use vpfs_iroh.Platform.{Platform}
use vpfs_iroh.State.{DaemonState}
use vpfs_iroh.Find.Local.{Tree}
use vpfs_iroh.Place.{append_at, add_dots}
use vpfs_iroh.Place.Trees.{grow}
use vpfs_iroh.Place.Grown.{grow-some}
use vpfs_iroh.Alone.{IsWhole}
use vpfs_iroh.Alone.Growth.{appended, IsPlaced-directory, IsWhole-grow}
use vpfs_iroh.Alone.Appends.{
  EndsWhole, append_at-free, append_at-file-EndsWhole, EndsWhole-bind, EndsWhole-pure,
}

module _ (P : Platform) (lawful : IsLawful P.entry_codec) where
  -- The tree does not have the new directory, as it is below a file.
  pub add_dots-file :
      (tree : Tree) (s : DaemonState P) (W : IsWhole P tree s) (new parent : Location)
      (entry : DirectoryEntry) (file : File)
      → new.node_name ≡ s.local.name
      → s.disk.files new.uri ≡ some file
      → tree new.uri ≡ none
      → EndsWhole P (add_dots P new parent entry) s
  unfolding add_dots
  add_dots-file tree s W new parent entry file here there free =
      let dot : DirectoryEntry = record entry { name = lit "." } in
      let dot_dot : DirectoryEntry = record { location = parent; name = lit ".."; is_dir = true } in
      let (E, same, (file', there')) =
        append_at-file-EndsWhole P lawful tree s W new here dot file there free in
      let W' : IsWhole P tree E.last = subst (λ t. IsWhole P t E.last) same E.whole in
      let here' : new.node_name ≡ E.last.local.name = here ∙ ap (λ n. n.name) (sym E.same) in
      let (E', same', _) =
        append_at-file-EndsWhole P lawful tree E.last W' new here' dot_dot file' there' free in
      EndsWhole-bind P (append_at P new dot) (λ _. append_at P new dot_dot >>= λ _. pure tt) s E
        (EndsWhole-bind P (append_at P new dot_dot) (λ _. pure tt) E.last E'
          (EndsWhole-pure P tt E'.tree E'.last E'.whole))

  -- The tree has the new directory, with no entries.
  pub add_dots-directory :
      (tree : Tree) (s : DaemonState P) (W : IsWhole P tree s) (new parent : Location)
      (entry : DirectoryEntry) (above : List DirectoryEntry)
      → new.node_name ≡ s.local.name
      → parent.node_name ≡ s.local.name
      → entry.location ≡ new
      → entry.is_dir ≡ true
      → tree new.uri ≡ some []
      → tree parent.uri ≡ some above
      → EndsWhole P (add_dots P new parent entry) s
  unfolding add_dots
  add_dots-directory tree s W new parent entry above here here' same dir held held' =
      let dot : DirectoryEntry = record entry { name = lit "." } in
      let dot_dot : DirectoryEntry = record { location = parent; name = lit ".."; is_dir = true } in
      let tree1 = grow tree new.uri [] dot in
      let s1 = appended P new.uri [] dot s in
      let held1 : tree1 new.uri ≡ some (dot ∷ []) = rw (eq_refl new.uri) refl in
      let W1 : IsWhole P tree1 s1 = IsWhole-grow P tree s new.uri [] dot held W (
        IsPlaced-directory P tree s W dot [] (ap (λ l. l.node_name) same ∙ here)
          (ap (λ l. tree l.uri) same ∙ held) dir) in
      let above' = grow-some tree new.uri [] dot parent.uri above held' in
      let W2 : IsWhole P (grow tree1 new.uri (dot ∷ []) dot_dot)
          (appended P new.uri (dot ∷ []) dot_dot s1) =
        IsWhole-grow P tree1 s1 new.uri (dot ∷ []) dot_dot held1 W1
          (IsPlaced-directory P tree1 s1 W1 dot_dot above'.0 here' above'.1 refl) in
      record {
        result = tt;
        last = appended P new.uri (dot ∷ []) dot_dot s1;
        tree = grow tree1 new.uri (dot ∷ []) dot_dot;
        runs =
            ap (after (λ _. append_at P new dot_dot >>= λ _. pure tt))
              (append_at-free P lawful tree s W new here dot [] held refl)
            ∙ ap (after (λ _. pure tt)) (
                append_at-free P lawful tree1 s1 W1 new here dot_dot (dot ∷ []) held1
                  (unfold str_eq in refl));
        whole = W2;
        same = refl;
      }
