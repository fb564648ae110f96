-- ===== src/Shell/Parser/Unended.antt =====
-- The loop of `parse_nonpiped_command` on a text whose last character is part of a token, such as
-- the left side of `cat a|wc`: it takes all but the last character, and then takes the empty text
-- for ever.
use vpfs_iroh.Base.{
  ℕ, zero, suc, ◌<◌, Str, true, Option, none, some, ◌≡◌, ◌≢◌, refl, [], ◌∷◌, ◌++◌, length, take,
  drop, eqb, if◌then◌else◌, Outcome, ok, panicked, unfinished, arith, Bool-cases, Option-cases, inl,
  inr, ◌⊎◌,
}
use vpfs_iroh.Text.{contains}
use vpfs_iroh.Text.Split.{Lacks, split_once-append}
use vpfs_iroh.Shell.Command.{PipeableCommand}
use vpfs_iroh.Shell.Parser.{
  find, is_start, is_end, is_ascii, last_of, Scan, start, Flow, reject, continue, token_end,
  redirects, take_word, word_flow, token_flow, scan_loop, parse_nonpiped_command, parse_command,
  join_pipe,
}
use vpfs_iroh.Shell.Parser.Tokens.{IsAscii, IsOpen, drop-find, drop-IsAscii, find-lt_length}
use vpfs_iroh.Shell.Parser.Loop.{scan_step-found, scan_loop-step}

-- What is behind a prefix that is not the whole is open again.
drop-IsOpen : (i : ℕ) (s : Str) → IsOpen s → i < length s → IsOpen (drop i s)
drop-IsOpen zero s h lt = h
drop-IsOpen (suc i) [] h lt = elim h [ ]
drop-IsOpen (suc i) (c ∷ []) h lt = absurd (omega arith)
drop-IsOpen (suc i) (c ∷ d ∷ s) h lt = drop-IsOpen i (d ∷ s) h (omega arith)

-- A character that ends a token is not the last one.
tail-IsOpen : (c : ℕ) (t : Str) → is_end c ≡ true → IsOpen (c ∷ t) → IsOpen t
tail-IsOpen c [] ends h = absurd (cc)
tail-IsOpen c (d ∷ t) ends h = h

-- There is a token.
find_start-IsOpen : (s : Str) → IsOpen s → (i : ℕ) × (find is_start s ≡ some i)
unfolding find
find_start-IsOpen [] h = elim h [ ]
find_start-IsOpen (c ∷ []) h = (0, ground arith)
find_start-IsOpen (c ∷ d ∷ s) h =
    let (i, found) = find_start-IsOpen (d ∷ s) h in
    elim (Bool-cases (is_start c)) [
      | inl here ↦ (0, rw here)
      | inr there ↦ (suc i, rw (there, found))
    ]

-- A round at an open text leaves an open text, or ends in a syntax error.
Stays : Flow → Type 0
Stays flow =
    (flow ≡ reject)
    ⊎ ((s' : Scan) × (flow ≡ continue s') × IsAscii s'.command_string × IsOpen s'.command_string)

word_flow-Stays :
    (s : Scan) (text : Str) (i : ℕ)
    → IsAscii text
    → IsOpen text
    → i < length text
    → Stays (word_flow s text (some i))
unfolding Stays
word_flow-Stays s text i ascii open_text lt =
    let remaining : (take_word s (take i text) (drop i text)).command_string ≡ drop i text =
      ground arith in
    inr (
      take_word s (take i text) (drop i text),
      refl,
      rw remaining (drop-IsAscii i text ascii),
      rw remaining (drop-IsOpen i text open_text lt),
    )

last_of-IsAscii : (c : ℕ) (s : Str) → IsAscii (c ∷ s) → is_ascii (last_of c s) ≡ true
last_of-IsAscii c [] h = h.0
last_of-IsAscii c (d ∷ s) h = last_of-IsAscii d s h.1

token_end-IsOpen :
    (c : ℕ) (t : Str) → IsAscii (c ∷ t) → (i : ℕ) × (token_end c t ≡ some i) × (i < length (c ∷ t))
token_end-IsOpen c t ascii = elim (Option-cases (find is_end (c ∷ t))) [
  | inl missing ↦ (length t, ground (arith, last_of-IsAscii c t ascii), omega arith)
  | inr (i, found) ↦ (i, ground arith, find-lt_length is_end (c ∷ t) i found)
]

sign_Stays :
    (s s' : Scan) (c : ℕ) (t : Str)
    → s'.command_string ≡ t
    → is_end c ≡ true
    → IsAscii (c ∷ t)
    → IsOpen (c ∷ t)
    → Stays (if redirects s then reject else continue s')
unfolding Stays
sign_Stays s s' c t text sign ascii open_text = elim (Bool-cases (redirects s)) [
  | inl twice ↦ inl (rw twice)
  | inr once ↦ inr (s', rw once, rw text ascii.1, rw text (tail-IsOpen c t sign open_text))
]

token_flow-Stays :
    (s : Scan) (c : ℕ) (t : Str) → IsAscii (c ∷ t) → IsOpen (c ∷ t) → Stays (token_flow s (c ∷ t))
unfolding token_flow
token_flow-Stays s c t ascii open_text =
    let (i, ends, lt) = token_end-IsOpen c t ascii in
    elim (Bool-cases (eqb c b'>')) [
      | inl sign ↦ rw (ascii.0, sign) (sign_Stays s _ c t refl (ground arith) ascii open_text)
      | inr other ↦ elim (Bool-cases (eqb c b'<')) [
        | inl sign ↦
            rw (ascii.0, other, sign) (sign_Stays s _ c t refl (ground arith) ascii open_text)
        | inr plain ↦
            rw (ascii.0, other, plain, ends) (word_flow-Stays s (c ∷ t) i ascii open_text lt)
      ]
    ]

-- With any fuel the loop runs out of it or meets a syntax error. It never gives a command.
scan_loop-IsOpen :
    (fuel : ℕ) (s : Scan)
    → IsAscii s.command_string
    → IsOpen s.command_string
    → (scan_loop fuel s ≡ unfinished) ⊎ (scan_loop fuel s ≡ ok none)
unfolding Stays
scan_loop-IsOpen zero s ascii open_text = inl (unfold scan_loop in refl)
scan_loop-IsOpen (suc fuel) s ascii open_text =
    let (i, found) = find_start-IsOpen s.command_string open_text in
    let (c, t, at, begins) = drop-find is_start s.command_string i found in
    let lt = find-lt_length is_start s.command_string i found in
    rw (scan_loop-step, scan_step-found s i found, at)
      (elim (token_flow-Stays s c t (rw at at (drop-IsAscii i s.command_string ascii))
        (rw at at (drop-IsOpen i s.command_string open_text lt))) [
          | inl stops ↦ inr (rw stops)
          | inr (s', goes, ascii', open') ↦ rw goes (scan_loop-IsOpen fuel s' ascii' open')
        ])

-- For a text of one-byte characters whose last character is part of a token, and any fuel,
-- parse_nonpiped_command runs out of fuel or reports a syntax error: it never gives a command.
pub parse_nonpiped_command-IsOpen :
    (fuel : ℕ) (text cwd : Str)
    → IsAscii text
    → IsOpen text
    → (parse_nonpiped_command fuel text cwd ≡ unfinished)
      ⊎ (parse_nonpiped_command fuel text cwd ≡ ok none)
unfolding parse_nonpiped_command
parse_nonpiped_command-IsOpen fuel text cwd ascii open_text =
    elim (scan_loop-IsOpen fuel (start text) ascii open_text) [
      | inl runs ↦ inl (rw runs)
      | inr error ↦ inr (rw error)
    ]

contains-append : (c : ℕ) (s t : Str) → contains c (s ++ c ∷ t) ≡ true
unfolding contains
contains-append c [] t = ground arith
contains-append c (d ∷ s) t = ground (arith, contains-append c s t)

parse_command-piped :
    (fuel : ℕ) (lhs rhs cwd : Str)
    → Lacks b'|' lhs
    → parse_command (suc fuel) (lhs ++ b'|' ∷ rhs) cwd
      ≡ join_pipe (parse_nonpiped_command (suc fuel) lhs cwd) (parse_command fuel rhs cwd)
unfolding parse_command parse_nonpiped_command
parse_command-piped fuel lhs rhs cwd single =
    rw (contains-append b'|' lhs rhs, split_once-append b'|' lhs rhs single)

join_pipe-ne :
    (rhs : Outcome (Option PipeableCommand)) (command : PipeableCommand)
    → join_pipe (ok none) rhs ≢ ok (some command)
join_pipe-ne (ok (some rhs)) command = λ h. cc
join_pipe-ne (ok none) command = λ h. cc
join_pipe-ne panicked command = λ h. cc
join_pipe-ne unfinished command = λ h. cc

-- For a line whose text before the first | is of one-byte characters and ends in a character that
-- is part of a token, no fuel lets parse_command give a command.
pub parse_command-IsOpen :
    (fuel : ℕ) (lhs rhs cwd : Str) (command : PipeableCommand)
    → IsAscii lhs
    → IsOpen lhs
    → Lacks b'|' lhs
    → parse_command fuel (lhs ++ b'|' ∷ rhs) cwd ≢ ok (some command)
parse_command-IsOpen zero lhs rhs cwd command ascii open_text single =
    unfold parse_command in λ h. cc
parse_command-IsOpen (suc fuel) lhs rhs cwd command ascii open_text single =
    rw parse_command-piped
      (elim (parse_nonpiped_command-IsOpen (suc fuel) lhs cwd ascii open_text) [
        | inl runs ↦ rw runs (λ h. cc)
        | inr error ↦ rw error (join_pipe-ne (parse_command fuel rhs cwd) command)
      ])
