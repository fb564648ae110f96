-- ===== src/Examples/ShellRuns.antt =====
-- The theorems on the shell at short command lines.
use vpfs_iroh.Base.{
  Str, lit, str_eq, Bool, true, false, ◌&&◌, some, List, [], ◌∷◌, ◌≡◌, ◌≢◌, refl, ok, arith,
  if◌then◌else◌, All,
}
use vpfs_iroh.Text.{slash, contains, split, join, starts_with}
use vpfs_iroh.Shell.Command.{RedirectType, PipeableCommand, non_piped}
use vpfs_iroh.Shell.Parser.{is_whitespace, is_ascii, start, scan_loop, parse_command}
use vpfs_iroh.Shell.Parser.Tokens.{tokens, IsAscii}
use vpfs_iroh.Shell.Parser.Loop.{clear, clear_outcome, interpret, scan_loop-interpret}
use vpfs_iroh.Shell.Parser.Unended.{parse_command-IsOpen}
use vpfs_iroh.Shell.Paths.{normalize_parts, normalize_path, file_name_to_full_path}
use vpfs_iroh.Shell.Paths.Components.{IsComponent}
use vpfs_iroh.Shell.Paths.Normal.{
  normalize_path-components, normalize_path_idem, file_name_to_full_path-relative,
  file_name_to_full_path-double_slash,
}

abbrev home : List Str
home = lit "home" ∷ lit "ann" ∷ []

component :
    (part : Str)
    → (part ≢ lit "")
    → (part ≢ lit ".")
    → (part ≢ lit "..")
    → contains slash part ≡ false
    → IsComponent part
component part a b c d = record { not_empty = a; not_dot = b; not_dot_dot = c; no_slash = d }

home-components : All IsComponent home
unfolding contains
home-components = (
  component (lit "home") (λ e. cc) (λ e. cc) (λ e. cc) refl,
  (component (lit "ann") (λ e. cc) (λ e. cc) (λ e. cc) refl, tt),
)

normalize_path_idem_example :
    normalize_path (normalize_path (lit "/a//b/./../c/")) ≡ normalize_path (lit "/a//b/./../c/")
normalize_path_idem_example = normalize_path_idem (lit "/a//b/./../c/")

normalize_path_run : normalize_path (lit "/a//b/./../c/") ≡ lit "/a/c"
unfolding normalize_path str_eq
normalize_path_run = refl

normalize_path-components_example :
    let path = lit "../x/" in
    (stack : List Str) × All IsComponent stack
    × (normalize_path path
        ≡ (if starts_with slash path then slash ∷ join slash stack else join slash stack))
    × (starts_with slash (normalize_path path) ≡ starts_with slash path)
normalize_path-components_example = normalize_path-components (lit "../x/")

file_name_to_full_path-relative_example :
    file_name_to_full_path (lit "home/ann") (lit "../bob") ≡ lit "home/bob"
unfolding join split normalize_parts starts_with str_eq
file_name_to_full_path-relative_example =
    file_name_to_full_path-relative home (lit "../bob") home-components refl

file_name_to_full_path-double_slash_example :
    file_name_to_full_path (lit "home") (lit "//etc") ≡ lit "/etc"
unfolding join split normalize_parts str_eq
file_name_to_full_path-double_slash_example =
    file_name_to_full_path-double_slash (lit "home") (lit "etc")

all_ascii : Str → Bool
all_ascii [] = true
all_ascii (c ∷ s) = is_ascii c && all_ascii s

IsAscii-all_ascii : (s : Str) → all_ascii s ≡ true → IsAscii s
unfolding all_ascii
IsAscii-all_ascii [] h = tt
IsAscii-all_ascii (c ∷ s) h = (ground arith, IsAscii-all_ascii s (ground arith))

abbrev line : Str
line = lit "cat <a >b x\n"

scan_loop-interpret_example :
    clear_outcome (scan_loop 13 (start line)) ≡ ok (interpret (tokens [] line) (clear (start line)))
unfolding is_whitespace
scan_loop-interpret_example =
    scan_loop-interpret 13 (start line) (IsAscii-all_ascii line (unfold all_ascii in refl)) refl
      (omega arith)

abbrev listing_command : PipeableCommand
listing_command = non_piped (record {
  program = lit "cat";
  args = lit "a" ∷ [];
  stdin = RedirectType.no_redirect;
  stderr = RedirectType.no_redirect;
  stdout = RedirectType.no_redirect;
})

parse_command-IsOpen_example :
    parse_command 1000 (lit "cat a|wc\n") (lit "") ≢ ok (some listing_command)
unfolding is_whitespace contains
parse_command-IsOpen_example =
    parse_command-IsOpen 1000 (lit "cat a") (lit "wc\n") (lit "") listing_command
      (IsAscii-all_ascii (lit "cat a") (unfold all_ascii in refl)) refl refl
