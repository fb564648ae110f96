-- ===== src/Shell/Run.antt =====
-- applications/sh.rs: the running of commands. Processes are those of `System`; a thread that the
-- shell starts is kept in its list, and `run_thread` is what it does when it runs.
use vpfs_iroh.Base.{
  ℕ, zero, suc, Str, lit, ◌==◌, str_eq, Bool, true, false, Option, none, some, List, [], ◌∷◌,
  if◌then◌else◌, Result, success, failure, unfinished, Exec, pure, gets, modify, unwrap, ◌>>=◌,
  ◌>>◌,
}
use vpfs_iroh.Messages.{
  Location, DirectoryEntry, VpfsError, only_in_cache, cache_needed_for_traversal,
}
use vpfs_iroh.Files.{Bytes}
use vpfs_iroh.Client.{Transport, find, mkdir, read, store}
use vpfs_iroh.Shell.Paths.{file_name_to_full_path}
use vpfs_iroh.Shell.Command.{RedirectType, no_redirect, file, piped, Command}
use vpfs_iroh.Shell.Terminal.{
  System, Message, Thread, reads, writes, Console, on_vpfs, on_system, print, start_thread, ask,
}

-- The ends of its pipes that the shell has.
pub record Child (S : System) : Type 0 where
  pub process : S.Process
  pub stdin : Option ℕ
  pub stdout : Option ℕ
  pub stderr : Option ℕ

module _ (T : Transport) (S : System) where
  abbrev Shell : Type 0 → Type 0
  Shell = Exec (Console T S)

  abbrev say : Message → Shell (Unit {0})
  say = print T S

  abbrev pipe_result : Message → Bool → Shell (Unit {0})
  pipe_result message true = pure tt
  pipe_result message false = say message

  -- The fuel bounds the questions, and the cached copies that are asked for.
  unfoldable pub forward_reads : ℕ → Location → ℕ → Shell (Unit {0})
  forward_reads zero location end = λ s. (unfinished, s)
  forward_reads (suc fuel) location end = do
    data_read ← on_vpfs T S (read T location)
    elim data_read [
      | success bytes ↦ do
        written ← on_system T S (S.write_all end bytes)
        pipe_result Message.write_error written
      | failure (only_in_cache cache_location) ↦ do
        accepted ← ask T S Message.use_cached_version fuel []
        elim accepted [ true ↦ forward_reads fuel cache_location end | false ↦ pure tt ]
      | failure _ ↦ say Message.no_longer_able
    ]

  -- What `store` returns is not looked at.
  abbrev store_read : Str → Option Bytes → Shell (Unit {0})
  store_read file_name none = say Message.read_error
  store_read file_name (some bytes) = do
    local ← gets (λ s. s.local)
    stored ← on_vpfs T S (store T local file_name bytes)
    pure tt

  unfoldable pub forward_writes : Str → ℕ → Shell (Unit {0})
  forward_writes file_name end = do
    bytes ← on_system T S (S.read_to_end end)
    store_read file_name bytes

  -- The `unwrap` of the pipe is in the thread.
  unfoldable pub run_thread : ℕ → Thread → Shell (Unit {0})
  run_thread fuel (reads location end) = do end' ← unwrap end; forward_reads fuel location end'
  run_thread fuel (writes file_name end) = do end' ← unwrap end; forward_writes file_name end'

  -- The file that stdin comes from; `none` where the command is given up.
  abbrev pub located : ℕ → Str → Result DirectoryEntry VpfsError → Shell (Option Location)
  located fuel name (success entry) = pure (some entry.location)
  located fuel name (failure (cache_needed_for_traversal entry)) = do
    accepted ← ask T S Message.continue_through_cache fuel []
    pure (if accepted then some entry.location else none)
  located fuel name (failure _) = do say (Message.could_not_locate name); pure none

  -- The location of stdin, if it is a file, or `none` for the early `return`.
  unfoldable pub locate_stdin : ℕ → RedirectType → Shell (Option (Option Location))
  locate_stdin fuel no_redirect = pure (some none)
  locate_stdin fuel (piped end) = pure (some none)
  locate_stdin fuel (file name) = do
    found ← on_vpfs T S (find T name)
    location ← located fuel name found
    pure (elim location [ none ↦ none | some l ↦ some (some l) ])

  abbrev stdio_of : RedirectType → Option ℕ
  stdio_of no_redirect = none
  stdio_of (file name) = some S.piped
  stdio_of (piped end) = some end

  abbrev pub feed : Option Location → Child S → Shell (Child S)
  feed none child = pure child
  feed (some location) child = do
    start_thread T S (reads location child.stdin)
    pure (record child { stdin = none })

  abbrev pub drain_stdout : RedirectType → Child S → Shell (Child S)
  drain_stdout (file name) child = do
    start_thread T S (writes name child.stdout)
    pure (record child { stdout = none })
  drain_stdout _ child = pure child

  abbrev pub drain_stderr : RedirectType → Child S → Shell (Child S)
  drain_stderr (file name) child = do
    start_thread T S (writes name child.stderr)
    pure (record child { stderr = none })
  drain_stderr _ child = pure child

  abbrev pub attend :
      Command
      → Option Location
      → Option (S.Process × Option ℕ × Option ℕ × Option ℕ)
      → Shell (Option (Child S))
  attend command location none = pure none
  attend command location (some (process, stdin, stdout, stderr)) = do
    child ←
        feed location
          (record { process = process; stdin = stdin; stdout = stdout; stderr = stderr })
    child' ← drain_stdout command.stdout child
    child'' ← drain_stderr command.stderr child'
    pure (some child'')

  abbrev pub spawn_with : Command → Option (Option Location) → Shell (Option (Child S))
  spawn_with command none = pure none
  spawn_with command (some location) = do
    started ← on_system T S (
        S.spawn command.program command.args (stdio_of command.stdin) (stdio_of command.stdout)
          (stdio_of command.stderr))
    attend command location started

  unfoldable pub spawn : ℕ → Command → Shell (Option (Child S))
  spawn fuel command = do location ← locate_stdin fuel command.stdin; spawn_with command location

  abbrev set_cwd : Str → Shell (Unit {0})
  set_cwd path = modify (λ s. record s { cwd = path })

  abbrev pub enter : Str → Str → Result DirectoryEntry VpfsError → Shell (Unit {0})
  enter path full_path (success entry) =
      if entry.is_dir then set_cwd full_path else say (Message.is_not_a_directory path)
  enter path full_path (failure _) = say (Message.could_not_find path)

  abbrev cd_to : Str → Str → Shell (Unit {0})
  cd_to path full_path =
      if full_path == lit ""
      then set_cwd (lit "")
      else (do found ← on_vpfs T S (find T full_path); enter path full_path found)

  abbrev pub cd_first : List Str → Str → Shell (Unit {0})
  cd_first [] cwd = say Message.no_path
  cd_first (path ∷ paths) cwd = cd_to path (file_name_to_full_path cwd path)

  unfoldable pub run_cd : Command → Shell (Unit {0})
  run_cd command = do cwd ← gets (λ s. s.cwd); cd_first command.args cwd

  abbrev pub made : Str → Result Location VpfsError → Shell (Unit {0})
  made path (success location) = pure tt
  made path (failure _) = say (Message.could_not_make path)

  abbrev pub mkdir_first : List Str → Str → Str → Shell (Unit {0})
  mkdir_first [] cwd local = say Message.no_path
  mkdir_first (path ∷ paths) cwd local = do
    result ← on_vpfs T S (mkdir T (file_name_to_full_path cwd path) local)
    made path result

  unfoldable pub run_mkdir : Command → Shell (Unit {0})
  run_mkdir command = do
    cwd ← gets (λ s. s.cwd)
    local ← gets (λ s. s.local)
    mkdir_first command.args cwd local
