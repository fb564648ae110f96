-- ===== src/Shell/Dispatch.antt =====
-- applications/sh.rs: `run_ls`, `run_cat`, the choice of what runs a command, and the loop of `main`.
-- A command gives `false` where the program exits.
use vpfs_iroh.Base.{
  ℕ, zero, suc, Str, lit, ◌==◌, str_eq, Bool, true, false, Option, none, some, List, [], ◌∷◌, ◌++◌,
  length, if◌then◌else◌, Result, success, failure, Outcome, ok, panicked, unfinished, Exec, pure,
  panic, gets, unwrap, ◌>>=◌, ◌>>◌,
}
use vpfs_iroh.Messages.{DirectoryEntry, VpfsError}
use vpfs_iroh.Codec.{Codec}
use vpfs_iroh.Files.{Bytes}
use vpfs_iroh.Client.{Transport, fetch}
use vpfs_iroh.Shell.Paths.{file_name_to_full_path}
use vpfs_iroh.Shell.Command.{piped, Command, PipeableCommand, non_piped, pipe}
use vpfs_iroh.Shell.Parser.{parse_command}
use vpfs_iroh.Shell.Terminal.{System, Message, Console, on_vpfs, on_system, print, read_line}
use vpfs_iroh.Shell.Run.{Child, spawn, run_cd, run_mkdir}

-- The lines that `run_ls` prints for the bytes of a directory. The fuel bounds the entries.
unfoldable pub list_loop : Codec DirectoryEntry → ℕ → Bytes → Outcome (List Message)
list_loop codec zero bytes = unfinished
list_loop codec (suc fuel) bytes = elim (codec.from_reader bytes) [
  | none ↦ ok []
  | some (entry, rest) ↦ elim (list_loop codec fuel rest) [
    | ok lines ↦ ok (Message.listed entry.is_dir entry.name entry.location.node_name ∷ lines)
    | panicked ↦ panicked
    | unfinished ↦ unfinished
  ]
]

module _ (T : Transport) (S : System) (codec : Codec DirectoryEntry) where
  abbrev Shell : Type 0 → Type 0
  Shell = Exec (Console T S)

  abbrev pub print_all : Outcome (List Message) → Shell (Unit {0})
  print_all (ok lines) s = (ok tt, record s { printed = s.printed ++ lines })
  print_all panicked s = (panicked, s)
  print_all unfinished s = (unfinished, s)

  abbrev pub list_result : Str → Result Bytes VpfsError → Shell (Unit {0})
  list_result cwd (success bytes) = print_all (list_loop codec (suc (length bytes)) bytes)
  list_result cwd (failure _) = print T S (Message.failed_to_read cwd)

  abbrev pub listed_path : Str → Str
  listed_path cwd = if cwd == lit "" then lit "." else cwd

  unfoldable pub run_ls : Shell (Unit {0})
  unfolding list_loop
  run_ls s = (do bytes ← on_vpfs T S (fetch T (listed_path s.cwd)); list_result s.cwd bytes) s

  abbrev cat_result : Str → Result Bytes VpfsError → Shell (Unit {0})
  cat_result name (success bytes) = print T S (Message.contents bytes)
  cat_result name (failure error) = print T S (Message.cat_error name error)

  unfoldable pub run_cat : List Str → Shell (Unit {0})
  run_cat [] = pure tt
  run_cat (name ∷ names) = do
    cwd ← gets (λ s. s.cwd)
    bytes ← on_vpfs T S (fetch T (file_name_to_full_path cwd name))
    cat_result name bytes
    run_cat names

  -- The `expect` of the wait.
  abbrev pub wait_for : Child S → Shell (Unit {0})
  wait_for child = do
    waited ← on_system T S (S.wait child.process)
    if waited then pure tt else panic

  abbrev pub wait_or_tell : Str → Option (Child S) → Shell (Unit {0})
  wait_or_tell program none = print T S (Message.failed_to_run program)
  wait_or_tell program (some child) = wait_for child

  abbrev pub run_program : ℕ → Command → Shell (Unit {0})
  run_program fuel command = do child ← spawn T S fuel command; wait_or_tell command.program child

  abbrev pub going : Shell (Unit {0}) → Shell Bool
  going m = m >> pure true

  unfoldable pub run_nonpiped_command : ℕ → Command → Shell Bool
  run_nonpiped_command fuel command =
      if command.program == lit "exit"
      then pure false
      else if command.program == lit "cd"
      then going (run_cd T S command)
      else if command.program == lit "pwd"
      then going (λ s. print T S (Message.working_directory s.cwd) s)
      else if command.program == lit "mkdir"
      then going (run_mkdir T S command)
      else if command.program == lit "ls"
      then going run_ls
      else going (run_program fuel command)

  abbrev pub pipe_from : ℕ → PipeableCommand → PipeableCommand
  pipe_from end (non_piped command) = non_piped (record command { stdin = piped end })
  pipe_from end (pipe command next) = pipe (record command { stdin = piped end }) next

  -- After what is behind the pipe, the wait for the process in front of it.
  abbrev pub wait_behind : Child S → Bool → Shell Bool
  wait_behind child true = going (wait_for child)
  wait_behind child false = pure false

  -- What `run_piped_command` does with its process, where `run` runs what is behind the pipe.
  abbrev pub run_behind :
      Str → (PipeableCommand → Shell Bool) → PipeableCommand → Option (Child S) → Shell Bool
  run_behind program run next none = do print T S (Message.failed_to_run program); run next
  run_behind program run next (some child) = do
    end ← unwrap child.stdout
    goes ← run (pipe_from end next)
    wait_behind child goes

  abbrev pub to_pipe : Command → Command
  to_pipe command = record command { stdout = piped S.piped }

  -- `run_command` and `run_piped_command`, which call each other. The fuel also bounds the pipes.
  unfoldable pub run_command : ℕ → PipeableCommand → Shell Bool
  run_command zero command = λ s. (unfinished, s)
  run_command (suc fuel) (non_piped command) = run_nonpiped_command (suc fuel) command
  run_command (suc fuel) (pipe command next) = do
    child ← spawn T S (suc fuel) (to_pipe command)
    run_behind command.program (run_command fuel) next child

  abbrev pub run_parsed : ℕ → Outcome (Option PipeableCommand) → Shell Bool
  run_parsed fuel (ok (some command)) = run_command fuel command
  run_parsed fuel (ok none) = pure true
  run_parsed fuel panicked = panic
  run_parsed fuel unfinished = λ s. (unfinished, s)

  abbrev pub tell_prompt : Shell (Unit {0})
  tell_prompt s = print T S (Message.prompt s.local s.cwd) s

  unfoldable pub run_line : ℕ → Shell Bool
  run_line fuel = do
    tell_prompt
    line ← read_line T S
    cwd ← gets (λ s. s.cwd)
    run_parsed fuel (parse_command fuel line cwd)

  -- The loop of `main`. The first fuel bounds the lines, the second each of them.
  unfoldable pub run_lines : ℕ → ℕ → Shell (Unit {0})
  run_lines zero fuel = λ s. (unfinished, s)
  run_lines (suc lines) fuel = do
    goes ← run_line fuel
    elim goes [ true ↦ run_lines lines fuel | false ↦ pure tt ]
