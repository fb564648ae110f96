-- ===== src/Shell/Parser/Loop.antt =====
-- The loop of `parse_nonpiped_command` interprets the tokens of its text.
use vpfs_iroh.Base.{
  ℕ, zero, suc, ◌<◌, Str, true, false, Option, none, some, ◌≡◌, ◌∙◌, refl, ap, sym, subst, List, [],
  ◌∷◌, length, take, drop, eqb, if◌then◌else◌, Outcome, ok, panicked, unfinished, arith, Bool-cases,
  Option-cases, inl, inr, ◌⊎◌,
}
use vpfs_iroh.Shell.Parser.{
  find, is_start, is_end, is_ascii, Scan, Flow, stop, reject, crash, continue, redirects, take_word,
  word_flow, token_flow, scan_step, scan_loop,
}
use vpfs_iroh.Shell.Parser.Tokens.{
  Token, word, less, greater, tokens, IsAscii, IsEnded, tokens-find_start, tokens-no_start,
  tokens-find_end, drop-find, drop-IsAscii, drop-IsEnded, length-drop_le, find-IsEnded, find-suc,
}

-- The loop's variables without the text that is left.
abbrev pub clear : Scan → Scan
clear s = record s { command_string = [] }

-- The variables after the given tokens, or `none` after a redirection sign that follows one
-- directly.
abbrev pub interpret : List Token → Scan → Option Scan
interpret [] s = some s
interpret (word w ∷ ts) s = interpret ts (take_word s w [])
interpret (less ∷ ts) s =
    let rest = interpret ts (record s { next_token_input_file = true }) in
    if redirects s then none else rest
interpret (greater ∷ ts) s =
    let rest = interpret ts (record s { next_token_output_file = true }) in
    if redirects s then none else rest

-- What a round at the text `c ∷ t` has to do.
Advances : Scan → Str → Flow → Type 0
Advances s text flow =
    ((flow ≡ reject) × (interpret (tokens [] text) (clear s) ≡ none))
    ⊎ ((s' : Scan) × (flow ≡ continue s')
        × (interpret (tokens [] text) (clear s)
            ≡ interpret (tokens [] s'.command_string) (clear s'))
        × IsAscii s'.command_string
        × IsEnded s'.command_string
        × (length s'.command_string < length text))

take_word-clear :
    (s : Scan) (token remaining : Str)
    → (clear (take_word s token remaining) ≡ take_word (clear s) token [])
      × ((take_word s token remaining).command_string ≡ remaining)
take_word-clear s token remaining = (ground arith, ground arith)

word_Advances :
    (s : Scan) (c : ℕ) (t : Str) (i : ℕ)
    → is_end c ≡ false
    → IsAscii (c ∷ t)
    → IsEnded (c ∷ t)
    → find is_end (c ∷ t) ≡ some (suc i)
    → Advances s (c ∷ t) (word_flow s (c ∷ t) (some (suc i)))
unfolding Advances
word_Advances s c t i inside ascii ended found =
    let (cleared, text) = take_word-clear s (c ∷ take i t) (drop i t) in
    inr (
      take_word s (c ∷ take i t) (drop i t),
      refl,
      rw (tokens-find_end [] (c ∷ t) (suc i) found, text, cleared),
      rw text (drop-IsAscii i t ascii.1),
      rw text (drop-IsEnded (suc i) (c ∷ t) ended),
      rw text (omega (arith, length-drop_le i t)),
    )

sign_Advances :
    (s s' : Scan) (c : ℕ) (t : Str) (sign : Token)
    → tokens [] (c ∷ t) ≡ sign ∷ tokens [] t
    → interpret (sign ∷ tokens [] t) (clear s)
      ≡ (if redirects s then none else interpret (tokens [] t) (clear s'))
    → s'.command_string ≡ t
    → IsAscii (c ∷ t)
    → IsEnded (c ∷ t)
    → Advances s (c ∷ t) (if redirects s then reject else continue s')
unfolding Advances
sign_Advances s s' c t sign first next text ascii ended = elim (Bool-cases (redirects s)) [
  | inl twice ↦ inl (rw twice, rw first (next ∙ rw twice))
  | inr once ↦ inr (
    s',
    rw once,
    rw (first, text) (next ∙ rw once),
    rw text ascii.1,
    rw text (drop-IsEnded 1 (c ∷ t) ended),
    rw text (omega arith),
  )
]

tokens-greater :
    (c : ℕ) (t : Str)
    → is_start c ≡ true
    → eqb c b'>' ≡ true
    → tokens [] (c ∷ t) ≡ greater ∷ tokens [] t
unfolding tokens
tokens-greater c t begins sign = ground arith

tokens-less :
    (c : ℕ) (t : Str)
    → is_start c ≡ true
    → eqb c b'<' ≡ true
    → tokens [] (c ∷ t) ≡ less ∷ tokens [] t
unfolding tokens
tokens-less c t begins sign = ground arith

pub token_flow-word :
    (s : Scan) (c : ℕ) (t : Str) (i : ℕ)
    → is_ascii c ≡ true
    → is_end c ≡ false
    → find is_end (c ∷ t) ≡ some i
    → token_flow s (c ∷ t) ≡ word_flow s (c ∷ t) (some i)
unfolding token_flow
token_flow-word s c t i ascii inside found = ground arith

token_flow-Advances :
    (s : Scan) (c : ℕ) (t : Str)
    → is_start c ≡ true
    → IsAscii (c ∷ t)
    → IsEnded (c ∷ t)
    → Advances s (c ∷ t) (token_flow s (c ∷ t))
unfolding token_flow
token_flow-Advances s c t begins ascii ended = elim (Bool-cases (eqb c b'>')) [
  | inl sign ↦
      rw (ascii.0, sign)
        (sign_Advances s (record s { command_string = t; next_token_output_file = true }) c t
          greater (tokens-greater c t begins sign) refl refl ascii ended)
  | inr other ↦ elim (Bool-cases (eqb c b'<')) [
    | inl sign ↦
        rw (ascii.0, other, sign)
          (sign_Advances s (record s { command_string = t; next_token_input_file = true }) c t less
            (tokens-less c t begins sign) refl refl ascii ended)
    | inr plain ↦
        let inside : is_end c ≡ false = ground arith in
        let (i, found) = find-IsEnded c t ended in
        let (j, e) = find-suc c t i inside found in
        let found' : find is_end (c ∷ t) ≡ some (suc j) = found ∙ ap some e in
        subst (Advances s (c ∷ t)) (sym (token_flow-word s c t (suc j) ascii.0 inside found'))
          (word_Advances s c t j inside ascii ended found')
  ]
]

abbrev pub clear_outcome : Outcome (Option Scan) → Outcome (Option Scan)
clear_outcome (ok (some s)) = ok (some (clear s))
clear_outcome (ok none) = ok none
clear_outcome panicked = panicked
clear_outcome unfinished = unfinished

pub scan_step-found :
    (s : Scan) (i : ℕ)
    → find is_start s.command_string ≡ some i
    → scan_step s ≡ token_flow s (drop i s.command_string)
unfolding scan_step
scan_step-found s i found = ground arith

pub scan_step-missing : (s : Scan) → find is_start s.command_string ≡ none → scan_step s ≡ stop
unfolding scan_step
scan_step-missing s missing = ground arith

abbrev pub after_flow : ℕ → Scan → Flow → Outcome (Option Scan)
after_flow fuel s stop = ok (some s)
after_flow fuel s reject = ok none
after_flow fuel s crash = panicked
after_flow fuel s (continue s') = scan_loop fuel s'

pub scan_loop-step :
    (fuel : ℕ) (s : Scan) → scan_loop (suc fuel) s ≡ after_flow fuel s (scan_step s)
unfolding scan_loop
scan_loop-step fuel s = ground arith

-- On one-byte characters, the last of which ends a token, and with fuel above the length of the
-- text, the loop of parse_nonpiped_command ends without a panic, with the variables that the
-- separately described tokens of the text give, or with the syntax error that they give.
pub scan_loop-interpret :
    (fuel : ℕ) (s : Scan)
    → IsAscii s.command_string
    → IsEnded s.command_string
    → length s.command_string < fuel
    → clear_outcome (scan_loop fuel s) ≡ ok (interpret (tokens [] s.command_string) (clear s))
unfolding Advances
scan_loop-interpret zero s ascii ended enough = absurd (omega arith)
scan_loop-interpret (suc fuel) s ascii ended enough =
    rw scan_loop-step (elim (Option-cases (find is_start s.command_string)) [
      | inl missing ↦ rw (scan_step-missing s missing, tokens-no_start s.command_string missing)
      | inr (i, found) ↦
          let (c, t, at, begins) = drop-find is_start s.command_string i found in
          elim (token_flow-Advances s c t begins (rw at at (drop-IsAscii i s.command_string ascii))
            (rw at at (drop-IsEnded i s.command_string ended))) [
              | inl (stops, result) ↦ rw (
                scan_step-found s i found,
                tokens-find_start s.command_string i found,
                at,
                stops,
                result,
              )
              | inr (s', goes, result, ascii', ended', shorter) ↦
                  rw
                    (
                      scan_step-found s i found,
                      tokens-find_start s.command_string i found,
                      at,
                      goes,
                      result,
                    )
                    (scan_loop-interpret fuel s' ascii' ended'
                      (omega (arith, length-drop_le i s.command_string, ap length at)))
            ]
    ])
