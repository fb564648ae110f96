-- ===== src/Shell/Paths/Components.antt =====
-- Which stacks the loop of `normalize_path` builds, and that it leaves such stacks alone.
use vpfs_iroh.Base.{
  Str, lit, ◌==◌, str_eq, if-elim, ◌||◌, false, List, [], ◌∷◌, ◌++◌, ◌≡◌, ◌≢◌, ◌∙◌, refl, arith,
  All, All-append, append-nil, append_assoc,
}
use vpfs_iroh.Text.{contains, slash, starts_with, split, join}
use vpfs_iroh.Text.Split.{Lacks, split-join}
use vpfs_iroh.Shell.Paths.{pop, push_part, normalize_parts}

-- A name that a directory can hold: not empty, not `.` or `..`, and with no `/`.
pub record IsComponent (part : Str) : Type 0 where
  pub not_empty : part ≢ lit ""
  pub not_dot : part ≢ lit "."
  pub not_dot_dot : part ≢ lit ".."
  pub no_slash : Lacks slash part

All-pop : (stack : List Str) → All IsComponent stack → All IsComponent (pop stack)
unfolding pop
All-pop [] h = tt
All-pop (part ∷ []) h = tt
All-pop (part ∷ next ∷ stack) h = (h.0, All-pop (next ∷ stack) h.1)

push_part-IsComponent :
    (stack : List Str) (part : Str)
    → All IsComponent stack
    → Lacks slash part
    → All IsComponent (push_part stack part)
unfolding push_part
push_part-IsComponent stack part h free =
    if-elim (All IsComponent) (part == lit "" || part == lit ".") (λ _. h)
      λ named.
        if-elim (All IsComponent) (part == lit "..") (λ _. All-pop stack h)
          λ proper. All-append IsComponent stack (part ∷ []) h (ground arith)

pub normalize_parts-IsComponent :
    (stack parts : List Str)
    → All IsComponent stack
    → All (Lacks slash) parts
    → All IsComponent (normalize_parts stack parts)
unfolding normalize_parts
normalize_parts-IsComponent stack [] h free = h
normalize_parts-IsComponent stack (part ∷ parts) h free =
    normalize_parts-IsComponent (push_part stack part) parts
      (push_part-IsComponent stack part h free.0) free.1

-- A component is pushed as it is.
pub push_part-component :
    (stack : List Str) (part : Str) → IsComponent part → push_part stack part ≡ stack ++ part ∷ []
unfolding push_part
push_part-component stack part h = ground arith

pub normalize_parts-components :
    (stack parts : List Str) → All IsComponent parts → normalize_parts stack parts ≡ stack ++ parts
unfolding normalize_parts
normalize_parts-components stack [] h = rw append-nil
normalize_parts-components stack (part ∷ parts) h =
    normalize_parts-components (push_part stack part) parts h.1
    ∙ rw (push_part-component stack part h.0, append_assoc)

pub normalize_parts-append :
    (stack ps qs : List Str)
    → normalize_parts stack (ps ++ qs) ≡ normalize_parts (normalize_parts stack ps) qs
unfolding normalize_parts
normalize_parts-append stack [] qs = refl
normalize_parts-append stack (p ∷ ps) qs = normalize_parts-append (push_part stack p) ps qs

-- The path of a stack has no leading `/`.
pub starts_with-join :
    (stack : List Str) → All IsComponent stack → starts_with slash (join slash stack) ≡ false
unfolding starts_with join contains
starts_with-join [] h = refl
starts_with-join ([] ∷ []) h = absurd (h.0.not_empty refl)
starts_with-join ((c ∷ part) ∷ []) h = ground (arith, h.0.no_slash)
starts_with-join ([] ∷ next ∷ stack) h = absurd (h.0.not_empty refl)
starts_with-join ((c ∷ part) ∷ next ∷ stack) h = ground (arith, h.0.no_slash)

All-Lacks : (stack : List Str) → All IsComponent stack → All (Lacks slash) stack
All-Lacks [] h = tt
All-Lacks (part ∷ stack) h = (h.0.no_slash, All-Lacks stack h.1)

-- The stack of a path that is built from a stack is that stack.
pub normalize_parts-split-join :
    (stack : List Str)
    → All IsComponent stack
    → normalize_parts [] (split slash (join slash stack)) ≡ stack
normalize_parts-split-join [] h = unfold normalize_parts push_part split join str_eq in refl
normalize_parts-split-join (part ∷ stack) h =
    rw (split-join slash part stack (All-Lacks (part ∷ stack) h))
      (normalize_parts-components [] (part ∷ stack) h)

-- A `/` in front of a path adds an empty part, which the loop skips.
pub normalize_parts-slash :
    (s : Str) → normalize_parts [] (split slash (slash ∷ s)) ≡ normalize_parts [] (split slash s)
unfolding split normalize_parts push_part str_eq
normalize_parts-slash s = refl
