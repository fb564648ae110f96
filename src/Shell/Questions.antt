-- ===== src/Shell/Questions.antt =====
-- applications/sh.rs: questions whose first answer is neither y nor n, and the end of the input.
use vpfs_iroh.Base.{
  ℕ, zero, suc, Str, lit, str_eq, Bool-cases, none, List, List-cases, [], ◌∷◌, ◌++◌, append-nil,
  failure, ok, unfinished, ◌≡◌, ◌≢◌, refl, sym, ap, ◌∙◌, arith, inl, inr,
}
use vpfs_iroh.Messages.{Location, DirectoryEntry, only_in_cache, cache_needed_for_traversal}
use vpfs_iroh.Codec.{Codec}
use vpfs_iroh.Client.{Transport, find, read}
use vpfs_iroh.Shell.Command.{Command, file}
use vpfs_iroh.Shell.Parser.{is_whitespace, parse_command}
use vpfs_iroh.Shell.Terminal.{
  System, Message, Console, trim, trim_start, trim_end, with_end, answer_of, next_line, ask,
}
use vpfs_iroh.Shell.Run.{forward_reads, spawn, locate_stdin}
use vpfs_iroh.Shell.Dispatch.{run_line, run_lines}

trim_start-append : (s t : Str) → trim_start s ≢ [] → trim_start (s ++ t) ≡ trim_start s ++ t
trim_start-append [] t h = absurd (h refl)
trim_start-append (c ∷ s) t h = elim (Bool-cases (is_whitespace c)) [
  | inl blank ↦ rw (blank) (trim_start-append s t (λ e. h (rw (blank) e)))
  | inr text ↦ rw (text) refl
]

with_end-append : (c : ℕ) (s t : Str) → (x : Str) × (with_end c (s ++ t) ≡ with_end c s ++ x)
with_end-append c [] [] = ([], sym (append-nil (with_end c [])))
with_end-append c [] (d ∷ t) = elim (Bool-cases (is_whitespace c)) [
  | inl blank ↦ (c ∷ d ∷ t, rw (blank) refl)
  | inr text ↦ (d ∷ t, rw (text) refl)
]
with_end-append c (d ∷ s) t = (t, refl)

trim_end-append : (s t : Str) → (x : Str) × (trim_end (s ++ t) ≡ trim_end s ++ x)
trim_end-append [] t = (trim_end t, refl)
trim_end-append (c ∷ s) t =
    let (x, e) = trim_end-append s t in
    let (y, f) = with_end-append c (trim_end s) x in (y, ap (with_end c) e ∙ f)

-- More text behind a text that is not blank is behind what the text is trimmed to.
trim-append : (s t : Str) → trim s ≢ [] → (x : Str) × (trim (s ++ t) ≡ trim s ++ x)
unfolding trim
trim-append s t h =
    let (x, e) = trim_end-append (trim_start s) t in
    (x, rw (trim_start-append s t (λ blank. h (rw (blank) refl))) e)

-- A text of one character has no proper start but the empty one.
start-of_one : (s t : Str) (c : ℕ) → s ≢ [] → s ++ t ≡ c ∷ [] → s ≡ c ∷ []
start-of_one [] t c h e = absurd (h refl)
start-of_one (d ∷ []) t c h e = ground (arith, e)
start-of_one (d ∷ f ∷ s) t c h e = absurd (ground (arith, e))

-- A text that is no answer and that no further text turns into one.
abbrev pub IsOther : Str → Type 0
IsOther s = (trim s ≢ []) × (trim s ≢ lit "y") × (trim s ≢ lit "n")

IsOther-append : (s t : Str) → IsOther s → IsOther (s ++ t)
IsOther-append s t (text, not_y, not_n) =
    let (x, e) = trim-append s t text in
    (
      (λ blank. elim (List-cases (trim s)) [
        | inl nothing ↦ text nothing
        | inr (c, u, some_text) ↦ ground (arith, e, some_text, blank)
      ]),
      (λ yes_text. not_y (start-of_one (trim s) x b'y' text (sym e ∙ yes_text))),
      (λ no_text. not_n (start-of_one (trim s) x b'n' text (sym e ∙ no_text))),
    )

module _ (T : Transport) (S : System) where
  answer_of-IsOther : (s : Str) → IsOther s → answer_of T S (trim s) ≡ none
  answer_of-IsOther s (text, not_y, not_n) = ground (arith, not_y, not_n)

  ask-IsOther :
      (question : Message) (fuel : ℕ) (buf : Str) (s : Console T S)
      → IsOther (buf ++ (next_line T S s.typed).0)
      → (ask T S question fuel buf s).0 ≡ unfinished
  unfolding ask
  ask-IsOther question zero buf s other = refl
  ask-IsOther question (suc fuel) buf s other =
      let (line, typed) = next_line T S s.typed in
      let later =
        ask-IsOther question fuel (buf ++ line)
          (record s { typed = typed; printed = s.printed ++ question ∷ [] })
          (IsOther-append (buf ++ line) (next_line T S typed).0 other) in
      ground (arith, answer_of-IsOther (buf ++ line) other, later)

  -- Where a read is answered with OnlyInCache and the first line that the user types is, when
  -- trimmed, not empty, not y and not n, forward_reads does not end with any fuel, whatever the
  -- user types afterwards.
  pub forward_reads-IsOther :
      (fuel : ℕ) (location cached : Location) (end : ℕ) (s : Console T S) (vpfs : T.State)
      (line : Str) (lines : List Str)
      → read T location s.vpfs ≡ (ok (failure (only_in_cache cached)), vpfs)
      → s.typed ≡ line ∷ lines
      → IsOther line
      → (forward_reads T S fuel location end s).0 ≡ unfinished
  unfolding forward_reads
  forward_reads-IsOther zero location cached end s vpfs line lines answered typed other = refl
  forward_reads-IsOther (suc fuel) location cached end s vpfs line lines answered typed other =
      let stuck =
        ask-IsOther Message.use_cached_version fuel [] (record s { vpfs = vpfs })
          (rw (typed) other) in
      ground (arith, stuck, answered)

  pub spawn-IsOther :
      (fuel : ℕ) (command : Command) (name : Str) (entry : DirectoryEntry) (s : Console T S)
      (vpfs : T.State) (line : Str) (lines : List Str)
      → command.stdin ≡ file name
      → find T name s.vpfs ≡ (ok (failure (cache_needed_for_traversal entry)), vpfs)
      → s.typed ≡ line ∷ lines
      → IsOther line
      → (spawn T S fuel command s).0 ≡ unfinished
  unfolding spawn locate_stdin
  spawn-IsOther fuel command name entry s vpfs line lines from answered typed other =
      let stuck =
        ask-IsOther Message.continue_through_cache fuel [] (record s { vpfs = vpfs })
          (rw (typed) other) in
      ground (arith, stuck, answered, from)

  -- At the end of its input the loop of the shell runs on: with no lines left to read, no fuel is
  -- enough for run_lines to end.
  pub run_lines-end :
      (codec : Codec DirectoryEntry) (lines fuel : ℕ) (s : Console T S)
      → s.typed ≡ []
      → (run_lines T S codec lines fuel s).0 ≡ unfinished
  unfolding run_lines run_line parse_command
  run_lines-end codec zero fuel s ended = refl
  run_lines-end codec (suc lines) zero s ended = refl
  run_lines-end codec (suc lines) (suc fuel) s ended =
      let waiting : Console T S = record s {
        typed = [];
        printed = s.printed ++ Message.prompt s.local s.cwd ∷ [];
      } in
      ground (arith, ended, run_lines-end codec lines (suc fuel) waiting refl)
