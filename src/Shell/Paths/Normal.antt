-- ===== src/Shell/Paths/Normal.antt =====
-- What `normalize_path` and `file_name_to_full_path` of applications/sh.rs return.
use vpfs_iroh.Base.{
  Str, lit, ◌==◌, str_eq, Bool-cases, inl, inr, true, false, List, [], ◌∷◌, ◌++◌, ◌≡◌, ◌∙◌, refl,
  arith, All, if◌then◌else◌,
}
use vpfs_iroh.Text.{contains, slash, starts_with, split, join}
use vpfs_iroh.Text.Split.{All-split, split-append}
use vpfs_iroh.Shell.Paths.{normalize_parts, normalize_path, file_name_to_full_path}
use vpfs_iroh.Shell.Paths.Components.{
  IsComponent, normalize_parts-IsComponent, starts_with-join, normalize_parts-split-join,
  normalize_parts-slash, normalize_parts-append,
}

-- The stack that the loop leaves for a path.
abbrev pub stack_of : Str → List Str
stack_of path = normalize_parts [] (split slash path)

pub All-stack_of : (path : Str) → All IsComponent (stack_of path)
All-stack_of path = normalize_parts-IsComponent [] (split slash path) tt (All-split slash path)

-- normalize_path returns components joined by /, none of them empty, . or .., and none with a /
-- in it; a / stands in front of them exactly when one stands in front of the path.
pub normalize_path-components :
    (path : Str)
    → (stack : List Str) × All IsComponent stack
      × (normalize_path path
          ≡ (if starts_with slash path then slash ∷ join slash stack else join slash stack))
      × (starts_with slash (normalize_path path) ≡ starts_with slash path)
unfolding normalize_path
normalize_path-components path = (
  stack_of path,
  All-stack_of path,
  refl,
  elim (Bool-cases (starts_with slash path)) [
    | inl rooted ↦ rw (rooted) (unfold starts_with in refl)
    | inr free ↦ rw (free) (starts_with-join (stack_of path) (All-stack_of path))
  ],
)

normalize_path-rooted :
    (path : Str)
    → starts_with slash path ≡ true
    → normalize_path path ≡ slash ∷ join slash (stack_of path)
unfolding normalize_path
normalize_path-rooted path rooted = rw rooted

normalize_path-free :
    (path : Str) → starts_with slash path ≡ false → normalize_path path ≡ join slash (stack_of path)
unfolding normalize_path
normalize_path-free path free = rw free

-- A path that is normal is left as it is.
pub normalize_path-join :
    (stack : List Str)
    → All IsComponent stack
    → normalize_path (join slash stack) ≡ join slash stack
normalize_path-join stack h =
    normalize_path-free (join slash stack) (starts_with-join stack h)
    ∙ rw (normalize_parts-split-join stack h)

normalize_path-slash-join :
    (stack : List Str)
    → All IsComponent stack
    → normalize_path (slash ∷ join slash stack) ≡ slash ∷ join slash stack
normalize_path-slash-join stack h =
    normalize_path-rooted (slash ∷ join slash stack) (unfold starts_with in refl)
    ∙ rw (normalize_parts-slash (join slash stack), normalize_parts-split-join stack h)

-- Normalising a path a second time changes nothing.
pub normalize_path_idem : (path : Str) → normalize_path (normalize_path path) ≡ normalize_path path
normalize_path_idem path = elim (Bool-cases (starts_with slash path)) [
  | inl rooted ↦
      rw (normalize_path-rooted path rooted)
        (normalize_path-slash-join (stack_of path) (All-stack_of path))
  | inr free ↦
      rw (normalize_path-free path free) (normalize_path-join (stack_of path) (All-stack_of path))
]

-- The path of a stack that is not empty is not empty, nor is its first character a `/`.
join_extended :
    (part : Str) (stack : List Str) (t : Str)
    → All IsComponent (part ∷ stack)
    → ((join slash (part ∷ stack) == lit "") ≡ false)
      × (starts_with slash (join slash (part ∷ stack) ++ t) ≡ false)
unfolding join starts_with contains
join_extended [] stack t h = absurd (h.0.not_empty refl)
join_extended (c ∷ part) [] t h = ground (arith, h.0.no_slash)
join_extended (c ∷ part) (next ∷ stack) t h = ground (arith, h.0.no_slash)

full_path_below :
    (cwd name : Str)
    → starts_with slash name ≡ false
    → (cwd == lit "") ≡ false
    → file_name_to_full_path cwd name ≡ normalize_path (cwd ++ slash ∷ name)
unfolding file_name_to_full_path
full_path_below cwd name relative below = rw (relative, below)

full_path_at_root :
    (name : Str)
    → starts_with slash name ≡ false
    → file_name_to_full_path [] name ≡ normalize_path name
unfolding file_name_to_full_path str_eq
full_path_at_root name relative = rw relative (rw relative)

full_path_rooted :
    (cwd name : Str) → file_name_to_full_path cwd (slash ∷ name) ≡ normalize_path name
unfolding file_name_to_full_path starts_with
full_path_rooted cwd name = refl

-- From a working directory that is the join of components, a name with no / in front resolves to
-- the join of the stack that results from pushing its parts one by one onto those components.
pub file_name_to_full_path-relative :
    (stack : List Str) (name : Str)
    → All IsComponent stack
    → starts_with slash name ≡ false
    → file_name_to_full_path (join slash stack) name
      ≡ join slash (normalize_parts stack (split slash name))
file_name_to_full_path-relative [] name h relative =
    unfold join in full_path_at_root name relative ∙ normalize_path-free name relative
file_name_to_full_path-relative (part ∷ stack) name h relative =
    let (extended, free) = join_extended part stack (slash ∷ name) h in
    full_path_below (join slash (part ∷ stack)) name relative extended
    ∙ normalize_path-free (join slash (part ∷ stack) ++ slash ∷ name) free
    ∙ rw (split-append, normalize_parts-append, normalize_parts-split-join (part ∷ stack) h)

-- A name with two / in front resolves to a path with a / in front, whatever the working
-- directory.
pub file_name_to_full_path-double_slash :
    (cwd name : Str)
    → file_name_to_full_path cwd (slash ∷ slash ∷ name) ≡ slash ∷ join slash (stack_of name)
file_name_to_full_path-double_slash cwd name =
    full_path_rooted cwd (slash ∷ name)
    ∙ normalize_path-rooted (slash ∷ name) (unfold starts_with in refl)
    ∙ rw (normalize_parts-slash name)
