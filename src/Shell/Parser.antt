-- ===== src/Shell/Parser.antt =====
-- applications/sh.rs: the parser of command lines. A text is a list of code points; where the
-- source slices bytes at an index that is not the start of a character, the model panics.
pub mod Tokens
pub mod Loop
pub mod Unended
use mathlib.Core.Option.{IsSome}
use vpfs_iroh.Base.{
  ℕ, zero, suc, ◌+◌, ◌-◌, Str, lit, ◌==◌, str_eq, Bool, true, false, ◌||◌, ◌&&◌, not, Option, none,
  some, ◌≡◌, refl, List, [], ◌∷◌, ◌++◌, length, take, drop, eqb, leb, ltb, if◌then◌else◌, Outcome,
  ok, panicked, unfinished,
}
use vpfs_iroh.Text.{contains, split_once}
use vpfs_iroh.Shell.Command.{
  RedirectType, no_redirect, file, Command, PipeableCommand, non_piped, pipe,
}
use vpfs_iroh.Shell.Paths.{file_name_to_full_path}

-- `char::is_whitespace`: the Unicode property White_Space.
unfoldable pub is_whitespace : ℕ → Bool
is_whitespace c =
    (leb 0x9 c && leb c 0xd)
    || eqb c 0x20
    || eqb c 0x85
    || eqb c 0xa0
    || eqb c 0x1680
    || (leb 0x2000 c && leb c 0x200a)
    || eqb c 0x2028
    || eqb c 0x2029
    || eqb c 0x202f
    || eqb c 0x205f
    || eqb c 0x3000

-- Where a token ends: `|c| c.is_whitespace() || c == '<' || c == '>'`.
abbrev pub is_end : ℕ → Bool
is_end c = is_whitespace c || eqb c b'<' || eqb c b'>'

abbrev pub is_start : ℕ → Bool
is_start c = not (is_whitespace c)

-- A character of one byte.
abbrev pub is_ascii : ℕ → Bool
is_ascii c = ltb c 128

abbrev shift : Option ℕ → Option ℕ
shift none = none
shift (some i) = some (suc i)

-- `s.find(p)`, counted in characters.
unfoldable pub find : (ℕ → Bool) → Str → Option ℕ
find p [] = none
find p (c ∷ s) = if p c then some 0 else shift (find p s)

-- The variables of the loop of `parse_nonpiped_command`.
pub record Scan : Type 0 where
  pub command_string : Str
  pub args : List Str
  pub program : Option Str
  pub input_file_name : Option Str
  pub output_file_name : Option Str
  pub next_token_input_file : Bool
  pub next_token_output_file : Bool

abbrev pub start : Str → Scan
start text = record {
  command_string = text;
  args = [];
  program = none;
  input_file_name = none;
  output_file_name = none;
  next_token_input_file = false;
  next_token_output_file = false;
}

-- What one round of the loop does: it finds no token, returns `None`, panics, or goes on.
pub data Flow : Type 0 where
  stop : Flow
  reject : Flow
  crash : Flow
  continue : Scan → Flow

abbrev pub last_of : ℕ → Str → ℕ
last_of c [] = c
last_of c (d ∷ s) = last_of d s

-- The end of the token at the start of `c ∷ text`. Without a delimiter it is the last byte, which
-- is the start of a character if that character has one byte.
abbrev pub token_end : ℕ → Str → Option ℕ
token_end c text = elim (find is_end (c ∷ text)) [
  | some i ↦ some i
  | none ↦ if is_ascii (last_of c text) then some (length text) else none
]

abbrev pub redirects : Scan → Bool
redirects s = s.next_token_output_file || s.next_token_input_file

-- The branch `_` of the match on the first character.
abbrev pub take_word : Scan → Str → Str → Scan
take_word s token remaining =
    if s.next_token_input_file
    then record s {
      command_string = remaining;
      input_file_name = some token;
      next_token_input_file = false;
    }
    else if s.next_token_output_file
    then record s {
      command_string = remaining;
      output_file_name = some token;
      next_token_output_file = false;
    }
    else elim s.program [
      | none ↦ record s { command_string = remaining; program = some token }
      | some _ ↦ record s { command_string = remaining; args = s.args ++ token ∷ [] }
    ]

abbrev pub word_flow : Scan → Str → Option ℕ → Flow
word_flow s text none = crash
word_flow s text (some i) = continue (take_word s (take i text) (drop i text))

-- The body of the loop at `command_string[token_start_index..]`.
unfoldable pub token_flow : Scan → Str → Flow
token_flow s [] = crash
token_flow s (c ∷ text) =
    if not (is_ascii c)
    then crash
    else if eqb c b'>'
    then (if redirects s
        then reject
        else continue (record s { command_string = text; next_token_output_file = true }))
    else if eqb c b'<'
    then (if redirects s
        then reject
        else continue (record s { command_string = text; next_token_input_file = true }))
    else word_flow s (c ∷ text) (token_end c text)

unfoldable pub scan_step : Scan → Flow
unfolding token_flow
scan_step s = elim (find is_start s.command_string) [
  | none ↦ stop
  | some i ↦ token_flow s (drop i s.command_string)
]

-- `while let Some(token_start_index) = token_start`. `none` is the early `return None`.
unfoldable pub scan_loop : ℕ → Scan → Outcome (Option Scan)
unfolding scan_step
scan_loop zero s = unfinished
scan_loop (suc fuel) s = elim (scan_step s) [
  | stop ↦ ok (some s)
  | reject ↦ ok none
  | crash ↦ panicked
  | continue s' ↦ scan_loop fuel s'
]

abbrev redirect_to : Str → Option Str → RedirectType
redirect_to cwd none = no_redirect
redirect_to cwd (some name) = file (file_name_to_full_path cwd name)

-- What the function does behind its loop.
unfoldable pub command_of : Str → Scan → Option Command
unfolding file_name_to_full_path
command_of cwd s = elim s.program [
  | none ↦ none
  | some program ↦ some (record {
    program = program;
    args = s.args;
    stdin = redirect_to cwd s.input_file_name;
    stderr = no_redirect;
    stdout = redirect_to cwd s.output_file_name;
  })
]

abbrev finish : Str → Outcome (Option Scan) → Outcome (Option Command)
finish cwd (ok (some s)) = ok (command_of cwd s)
finish cwd (ok none) = ok none
finish cwd panicked = panicked
finish cwd unfinished = unfinished

-- The fuel bounds the rounds of the loop.
unfoldable pub parse_nonpiped_command : ℕ → Str → Str → Outcome (Option Command)
unfolding scan_loop command_of
parse_nonpiped_command fuel command_string cwd = finish cwd (scan_loop fuel (start command_string))

abbrev pub as_non_piped : Outcome (Option Command) → Outcome (Option PipeableCommand)
as_non_piped (ok (some command)) = ok (some (non_piped command))
as_non_piped (ok none) = ok none
as_non_piped panicked = panicked
as_non_piped unfinished = unfinished

-- Both sides are parsed, the left one first, before either result is looked at.
abbrev pub join_pipe :
    Outcome (Option Command) → Outcome (Option PipeableCommand) → Outcome (Option PipeableCommand)
join_pipe panicked rhs = panicked
join_pipe unfinished rhs = unfinished
join_pipe (ok lhs) panicked = panicked
join_pipe (ok lhs) unfinished = unfinished
join_pipe (ok lhs) (ok none) = ok none
join_pipe (ok none) (ok (some rhs)) = ok none
join_pipe (ok (some lhs)) (ok (some rhs)) = ok (some (pipe lhs rhs))

-- `parse_command` with `parse_piped_command`, which call each other on the text behind the first
-- `|`. The fuel bounds the pipes and the rounds of each loop.
unfoldable pub parse_command : ℕ → Str → Str → Outcome (Option PipeableCommand)
unfolding is_whitespace find parse_nonpiped_command contains split_once
parse_command zero command_string cwd = unfinished
parse_command (suc fuel) command_string cwd =
    if contains b'|' command_string
    then elim (split_once b'|' command_string) [
      | none ↦ panicked
      | some (lhs, rhs) ↦
          join_pipe (parse_nonpiped_command (suc fuel) lhs cwd) (parse_command fuel rhs cwd)
    ]
    else as_non_piped (parse_nonpiped_command (suc fuel) command_string cwd)

-- A command line with both redirections.
redirected_line :
    parse_command 40 (lit "sort -r <in >/out/x\n") (lit "home")
    ≡ ok (
        some (
          non_piped (record {
            program = lit "sort";
            args = lit "-r" ∷ [];
            stdin = file (lit "home/in");
            stderr = no_redirect;
            stdout = file (lit "out/x");
          })))
unfolding parse_command str_eq
redirected_line = refl
