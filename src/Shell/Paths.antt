-- ===== src/Shell/Paths.antt =====
-- applications/sh.rs: `normalize_path` and `file_name_to_full_path`.
pub mod Components
pub mod Normal
use vpfs_iroh.Base.{
  Str, lit, ◌==◌, str_eq, Bool, true, false, ◌||◌, List, [], ◌∷◌, ◌++◌, if◌then◌else◌,
}
use vpfs_iroh.Text.{slash, starts_with, split, join}

-- `stack.pop()`
unfoldable pub pop : List Str → List Str
pop [] = []
pop (part ∷ []) = []
pop (part ∷ next ∷ stack) = part ∷ pop (next ∷ stack)

-- The body of the loop over the parts: the stack, its top last, after one part.
unfoldable pub push_part : List Str → Str → List Str
unfolding pop
push_part stack part =
    if part == lit "" || part == lit "."
    then stack
    else if part == lit ".."
    then pop stack
    else stack ++ part ∷ []

-- The loop `for part in path.split('/')`.
unfoldable pub normalize_parts : List Str → List Str → List Str
unfolding push_part
normalize_parts stack [] = stack
normalize_parts stack (part ∷ parts) = normalize_parts (push_part stack part) parts

unfoldable pub normalize_path : Str → Str
unfolding normalize_parts split join starts_with
normalize_path path =
    let stack = normalize_parts [] (split slash path) in
    if starts_with slash path then slash ∷ join slash stack else join slash stack

-- `file_name[1..]`
abbrev rest : Str → Str
rest [] = []
rest (c ∷ s) = s

unfoldable pub file_name_to_full_path : Str → Str → Str
unfolding normalize_path starts_with
file_name_to_full_path cwd file_name = normalize_path (
    if starts_with slash file_name
    then rest file_name
    else if cwd == lit ""
    then file_name
    else cwd ++ slash ∷ file_name)
