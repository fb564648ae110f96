-- ===== src/Shell/Terminal.antt =====
-- applications/sh.rs: what the commands of the shell work on: the connection to the daemon, the
-- terminal, the processes and the threads that the shell has started.
use vpfs_iroh.Base.{
  ℕ, zero, suc, Str, lit, ◌==◌, str_eq, Bool, true, false, Option, none, some, List, [], ◌∷◌, ◌++◌,
  if◌then◌else◌, ok, unfinished, Exec, pure, ◌>>=◌, ◌>>◌,
}
use vpfs_iroh.Messages.{Location, VpfsError}
use vpfs_iroh.Files.{Bytes}
use vpfs_iroh.Shell.Parser.{is_whitespace}
use vpfs_iroh.Client.{Transport}

-- `std::process` and pipes. `piped` is `Stdio::piped()`, a pipe that is made when a process starts.
-- `spawn` takes the program, its arguments and what stdin, stdout and stderr are, where they are not
-- those of the shell, and returns the process with the shell's ends of its pipes.
pub record System : Type 1 where
  pub State : Type 0
  pub Process : Type 0
  pub piped : ℕ
  pub spawn :
      Str
      → List Str
      → Option ℕ
      → Option ℕ
      → Option ℕ
      → State
      → Option (Process × Option ℕ × Option ℕ × Option ℕ) × State
  pub wait : Process → State → Bool × State
  pub write_all : ℕ → Bytes → State → Bool × State
  pub read_to_end : ℕ → State → Option Bytes × State

-- What the shell prints.
pub data Message : Type 0 where
  prompt : Str → Str → Message
  write_error : Message
  read_error : Message
  use_cached_version : Message
  no_longer_able : Message
  continue_through_cache : Message
  could_not_locate : Str → Message
  no_path : Message
  is_not_a_directory : Str → Message
  could_not_find : Str → Message
  could_not_make : Str → Message
  listed : Bool → Str → Str → Message
  failed_to_read : Str → Message
  contents : Bytes → Message
  cat_error : Str → VpfsError → Message
  working_directory : Str → Message
  failed_to_run : Str → Message

-- A thread that forwards a file to a pipe, or a pipe to a file.
pub data Thread : Type 0 where
  reads : Location → Option ℕ → Thread
  writes : Str → Option ℕ → Thread

-- `str::trim`
abbrev pub trim_start : Str → Str
trim_start [] = []
trim_start (c ∷ s) = if is_whitespace c then trim_start s else c ∷ s

abbrev pub with_end : ℕ → Str → Str
with_end c [] = if is_whitespace c then [] else c ∷ []
with_end c (d ∷ s) = c ∷ d ∷ s

abbrev pub trim_end : Str → Str
trim_end [] = []
trim_end (c ∷ s) = with_end c (trim_end s)

unfoldable pub trim : Str → Str
trim s = trim_end (trim_start s)

module _ (T : Transport) (S : System) where
  -- `local` and `cwd` are the shell's variables. `typed` has the lines that are still to be read.
  pub record Console : Type 0 where
    pub vpfs : T.State
    pub system : S.State
    pub local : Str
    pub cwd : Str
    pub typed : List Str
    pub printed : List Message
    pub threads : List Thread

  abbrev pub on_vpfs : {A : Type 0} → Exec T.State A → Exec Console A
  on_vpfs m s = let (r, vpfs) = m s.vpfs in (r, record s { vpfs = vpfs })

  abbrev pub on_system : {A : Type 0} → (S.State → A × S.State) → Exec Console A
  on_system f s = let (a, system) = f s.system in (ok a, record s { system = system })

  abbrev pub print : Message → Exec Console (Unit {0})
  print message s = (ok tt, record s { printed = s.printed ++ message ∷ [] })

  abbrev pub start_thread : Thread → Exec Console (Unit {0})
  start_thread thread s = (ok tt, record s { threads = s.threads ++ thread ∷ [] })

  -- `io::stdin().read_line`: the line with its end. At the end of the input it reads nothing.
  abbrev pub next_line : List Str → Str × List Str
  next_line [] = ([], [])
  next_line (line ∷ lines) = (line, lines)

  abbrev pub read_line : Exec Console Str
  read_line s = let (line, typed) = next_line s.typed in (ok line, record s { typed = typed })

  -- The match on the trimmed buffer: `y`, `n`, or anything else.
  abbrev pub answer_of : Str → Option Bool
  answer_of text =
      if text == lit "y" then some true else if text == lit "n" then some false else none

  -- The loop around a question. Each line is appended to the buffer.
  unfoldable pub ask : Message → ℕ → Str → Exec Console Bool
  ask question zero buf = λ s. (unfinished, s)
  ask question (suc fuel) buf = do
    print question
    line ← read_line
    elim (answer_of (trim (buf ++ line))) [
      | some answer ↦ pure answer
      | none ↦ ask question fuel (buf ++ line)
    ]
