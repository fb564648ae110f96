-- ===== src/Shell/Entered.antt =====
-- Where the shell's working directory comes from.
use vpfs_iroh.Base.{
  ℕ, zero, suc, Str, lit, ◌==◌, str_eq, Bool, Bool-cases, List-cases, true, false, Option, none,
  some, [], ◌∷◌, ◌++◌, if-elim, Result, success, failure, Outcome, ok, panicked, unfinished, Exec,
  pure, unwrap, after, ◌>>=◌, ◌≡◌, refl, sym, subst, arith, inl, inr,
}
use vpfs_iroh.Messages.{DirectoryEntry, VpfsError}
use vpfs_iroh.Codec.{Codec}
use vpfs_iroh.Client.{Transport, find}
use vpfs_iroh.Shell.Paths.{normalize_path, file_name_to_full_path}
use vpfs_iroh.Shell.Paths.Normal.{normalize_path_idem}
use vpfs_iroh.Shell.Command.{Command, PipeableCommand, non_piped, pipe}
use vpfs_iroh.Shell.Parser.{parse_command}
use vpfs_iroh.Shell.Terminal.{System, Message, next_line, Console}
use vpfs_iroh.Shell.Run.{Child, enter, spawn, run_cd, run_mkdir}
use vpfs_iroh.Shell.Dispatch.{
  going, wait_behind, run_behind, run_parsed, to_pipe, pipe_from, run_program, run_ls,
  run_nonpiped_command, run_command, run_line, run_lines,
}
use vpfs_iroh.Shell.Stays.{Stays, Stays-spawn, Stays-run_program, Stays-run_mkdir, Stays-run_ls}

module _ (T : Transport) (S : System) (codec : Codec DirectoryEntry) where
  -- The root, or a normal path that a lookup of the daemon has once given a directory for.
  pub data IsEntered : Str → Type 0 where
    at_root : IsEntered []
    entered :
        (path : Str) (entry : DirectoryEntry) (before behind : T.State)
        → normalize_path path ≡ path
        → find T path before ≡ (ok (success entry), behind)
        → entry.is_dir ≡ true
        → IsEntered path

  abbrev Keeps : {A : Type 0} → Exec (Console T S) A → Type 0
  Keeps m = (s : Console T S) → IsEntered s.cwd → IsEntered ((m s).1).cwd

  Stays-Keeps : {A : Type 0} (m : Exec (Console T S) A) → Stays T S codec m → Keeps m
  Stays-Keeps m h s e = subst IsEntered (sym (h s)) e

  Keeps-after :
      {A B : Type 0} (f : A → Exec (Console T S) B) (p : Outcome A × Console T S)
      → ((a : A) → Keeps (f a))
      → IsEntered (p.1).cwd
      → IsEntered ((after f p).1).cwd
  Keeps-after f (ok a, s) h e = h a s e
  Keeps-after f (panicked, s) h e = e
  Keeps-after f (unfinished, s) h e = e

  Keeps-bind :
      {A B : Type 0} (m : Exec (Console T S) A) (f : A → Exec (Console T S) B)
      → Keeps m
      → ((a : A) → Keeps (f a))
      → Keeps (m >>= f)
  Keeps-bind m f h k s e = Keeps-after f (m s) k (h s e)

  -- The answer of the daemon is the one that the new directory was entered for.
  Keeps-enter :
      (path full_path : Str) (found : Outcome (Result DirectoryEntry VpfsError) × T.State)
      (s : Console T S)
      → find T full_path s.vpfs ≡ found
      → normalize_path full_path ≡ full_path
      → IsEntered s.cwd
      → IsEntered ((after (enter T S path full_path) (found.0, record s { vpfs = found.1 })).1).cwd
  Keeps-enter path full_path (ok (success entry), vpfs) s asked normal e =
      elim (Bool-cases entry.is_dir) [
        | inl dir ↦ rw (dir) (entered full_path entry s.vpfs vpfs normal asked dir)
        | inr plain ↦ rw (plain) e
      ]
  Keeps-enter path full_path (ok (failure error), vpfs) s asked normal e = e
  Keeps-enter path full_path (panicked, vpfs) s asked normal e = e
  Keeps-enter path full_path (unfinished, vpfs) s asked normal e = e

  file_name_to_full_path-normal :
      (cwd name : Str)
      → normalize_path (file_name_to_full_path cwd name) ≡ file_name_to_full_path cwd name
  unfolding file_name_to_full_path
  file_name_to_full_path-normal cwd name = search normalize_path_idem

  Keeps-run_cd : (command : Command) → Keeps (run_cd T S command)
  unfolding run_cd
  Keeps-run_cd command s e = elim (List-cases command.args) [
    | inl none_given ↦ rw (none_given) e
    | inr (path, paths, given) ↦ rw (given) (
        let full_path = file_name_to_full_path s.cwd path in
        elim (Bool-cases (full_path == lit "")) [
          | inl root ↦ rw (root) at_root
          | inr below ↦ rw (below) (
              Keeps-enter path full_path (find T full_path s.vpfs) s refl
                (file_name_to_full_path-normal s.cwd path) e)
        ])
  ]

  Keeps-going : (m : Exec (Console T S) (Unit {0})) → Keeps m → Keeps (going T S codec m)
  Keeps-going m h = Keeps-bind m (λ _. pure true) h (λ _ s e. e)

  Keeps-run_nonpiped_command :
      (fuel : ℕ) (command : Command) → Keeps (run_nonpiped_command T S codec fuel command)
  unfolding run_nonpiped_command
  Keeps-run_nonpiped_command fuel command =
      if-elim (Keeps {A = Bool}) (command.program == lit "exit") (λ _ s e. e)
        λ _.
          if-elim (Keeps {A = Bool}) (command.program == lit "cd")
            (λ _. Keeps-going (run_cd T S command) (Keeps-run_cd command))
            λ _.
              if-elim (Keeps {A = Bool}) (command.program == lit "pwd") (λ _ s e. e)
                λ _.
                  if-elim (Keeps {A = Bool}) (command.program == lit "mkdir")
                    (λ _.
                      Keeps-going (run_mkdir T S command)
                        (Stays-Keeps (run_mkdir T S command) (Stays-run_mkdir T S codec command)))
                    λ _.
                      if-elim (Keeps {A = Bool}) (command.program == lit "ls")
                        (λ _.
                          Keeps-going (run_ls T S codec)
                            (Stays-Keeps (run_ls T S codec) (Stays-run_ls T S codec)))
                        λ _. Keeps-going (run_program T S codec fuel command) (
                          Stays-Keeps (run_program T S codec fuel command)
                            (Stays-run_program T S codec fuel command))

  Keeps-wait_behind : (child : Child S) (goes : Bool) → Keeps (wait_behind T S codec child goes)
  Keeps-wait_behind child true s e = ground arith
  Keeps-wait_behind child false s e = e

  Keeps-further :
      (goes : Bool) (m : Exec (Console T S) (Unit {0}))
      → Keeps m
      → Keeps (elim goes [ true ↦ m | false ↦ pure tt ])
  Keeps-further true m h = h
  Keeps-further false m h = λ s e. e

  Keeps-run_behind :
      (program : Str) (run : PipeableCommand → Exec (Console T S) Bool) (next : PipeableCommand)
      → ((command : PipeableCommand) → Keeps (run command))
      → (child : Option (Child S)) → Keeps (run_behind T S codec program run next child)
  Keeps-run_behind program run next h none =
      λ s e. h next (record s { printed = s.printed ++ Message.failed_to_run program ∷ [] }) e
  Keeps-run_behind program run next h (some child) =
      Keeps-bind (unwrap child.stdout)
        (λ end. run (pipe_from T S codec end next) >>= wait_behind T S codec child)
        (λ s e. ground arith)
        λ end.
          Keeps-bind (run (pipe_from T S codec end next)) (wait_behind T S codec child)
            (h (pipe_from T S codec end next)) (Keeps-wait_behind child)

  Keeps-run_command :
      (fuel : ℕ) (command : PipeableCommand) → Keeps (run_command T S codec fuel command)
  unfolding run_command
  Keeps-run_command zero command = λ s e. e
  Keeps-run_command (suc fuel) (non_piped command) = Keeps-run_nonpiped_command (suc fuel) command
  Keeps-run_command (suc fuel) (pipe command next) =
      Keeps-bind (spawn T S (suc fuel) (to_pipe T S codec command))
        (run_behind T S codec command.program (run_command T S codec fuel) next)
        (Stays-Keeps (spawn T S (suc fuel) (to_pipe T S codec command))
          (Stays-spawn T S codec (suc fuel) (to_pipe T S codec command)))
        (Keeps-run_behind command.program (run_command T S codec fuel) next
          (Keeps-run_command fuel))

  Keeps-run_parsed :
      (fuel : ℕ) (parsed : Outcome (Option PipeableCommand))
      → Keeps (run_parsed T S codec fuel parsed)
  Keeps-run_parsed fuel (ok (some command)) = Keeps-run_command fuel command
  Keeps-run_parsed fuel (ok none) = λ s e. e
  Keeps-run_parsed fuel panicked = λ s e. e
  Keeps-run_parsed fuel unfinished = λ s e. e

  Keeps-run_line : (fuel : ℕ) → Keeps (run_line T S codec fuel)
  unfolding run_line
  Keeps-run_line fuel s e =
      let (line, typed) = next_line T S s.typed in
      Keeps-run_parsed fuel (parse_command fuel line s.cwd)
        (record s { typed = typed; printed = s.printed ++ Message.prompt s.local s.cwd ∷ [] }) e

  -- Whatever connection, processes and typed lines the shell has, and however many lines it runs,
  -- if its working directory is entered before, it is entered afterwards, also where a command
  -- panics or does not end: it is the root, or a path that normalize_path leaves as it is and for
  -- which find once returned a directory.
  pub run_lines-IsEntered :
      (lines fuel : ℕ) (s : Console T S)
      → IsEntered s.cwd
      → IsEntered ((run_lines T S codec lines fuel s).1).cwd
  unfolding run_lines
  run_lines-IsEntered zero fuel = λ s e. e
  run_lines-IsEntered (suc lines) fuel =
      Keeps-bind (run_line T S codec fuel)
        (λ goes. elim goes [ true ↦ run_lines T S codec lines fuel | false ↦ pure tt ])
        (Keeps-run_line fuel)
        (λ goes.
          Keeps-further goes (run_lines T S codec lines fuel) (run_lines-IsEntered lines fuel))
