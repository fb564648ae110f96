-- ===== src/Shell/Stays.antt =====
-- applications/sh.rs: what leaves the working directory of the shell as it is.
use vpfs_iroh.Base.{
  ℕ, zero, suc, Str, str_eq, Option, none, some, [], ◌∷◌, ◌++◌, Result, Outcome, ok, panicked,
  unfinished, Exec, pure, after, ◌>>=◌, ◌≡◌, refl, ◌∙◌, arith,
}
use vpfs_iroh.Messages.{Location, DirectoryEntry, VpfsError}
use vpfs_iroh.Codec.{Codec}
use vpfs_iroh.Client.{Transport, find, fetch}
use vpfs_iroh.Shell.Command.{RedirectType, no_redirect, file, piped, Command}
use vpfs_iroh.Shell.Terminal.{System, Message, next_line, Console, ask}
use vpfs_iroh.Shell.Run.{located, locate_stdin, spawn_with, spawn, run_mkdir}
use vpfs_iroh.Shell.Dispatch.{wait_or_tell, run_program, listed_path, list_result, run_ls}

module _ (T : Transport) (S : System) (codec : Codec DirectoryEntry) where
  -- The working directory is as it was, also where the operation panics.
  abbrev pub Stays : {A : Type 0} → Exec (Console T S) A → Type 0
  Stays m = (s : Console T S) → ((m s).1).cwd ≡ s.cwd

  pub Stays-after :
      {A B : Type 0} (f : A → Exec (Console T S) B) (p : Outcome A × Console T S)
      → ((a : A) → Stays (f a))
      → ((after f p).1).cwd ≡ (p.1).cwd
  Stays-after f (ok a, s) h = h a s
  Stays-after f (panicked, s) h = refl
  Stays-after f (unfinished, s) h = refl

  pub Stays-bind :
      {A B : Type 0} (m : Exec (Console T S) A) (f : A → Exec (Console T S) B)
      → Stays m
      → ((a : A) → Stays (f a))
      → Stays (m >>= f)
  Stays-bind m f h k s = Stays-after f (m s) k ∙ h s

  Stays-ask : (question : Message) (fuel : ℕ) (buf : Str) → Stays (ask T S question fuel buf)
  unfolding ask
  Stays-ask question zero buf s = refl
  Stays-ask question (suc fuel) buf s =
      let (line, typed) = next_line T S s.typed in
      ground (
        arith,
        Stays-ask question fuel (buf ++ line)
            (record s { typed = typed; printed = s.printed ++ question ∷ [] }),
      )

  Stays-located :
      (fuel : ℕ) (name : Str) (found : Result DirectoryEntry VpfsError)
      → Stays (located T S fuel name found)
  Stays-located fuel name found s =
      ground (arith, Stays-ask Message.continue_through_cache fuel [] s)

  Stays-locate_stdin : (fuel : ℕ) (stdin : RedirectType) → Stays (locate_stdin T S fuel stdin)
  unfolding locate_stdin
  Stays-locate_stdin fuel no_redirect s = refl
  Stays-locate_stdin fuel (piped end) s = refl
  Stays-locate_stdin fuel (file name) s =
      let (r, vpfs) = find T name s.vpfs in
      Stays-after
        (λ found. located T S fuel name found >>= λ location.
          pure (elim location [ none ↦ none | some l ↦ some (some l) ]))
        (r, record s { vpfs = vpfs })
        λ found s'.
          Stays-after (λ location. pure (elim location [ none ↦ none | some l ↦ some (some l) ]))
            (located T S fuel name found s') (λ location s''. refl)
          ∙ Stays-located fuel name found s'

  Stays-spawn_with :
      (command : Command) (location : Option (Option Location))
      → Stays (spawn_with T S command location)
  Stays-spawn_with command location s = ground arith

  pub Stays-spawn : (fuel : ℕ) (command : Command) → Stays (spawn T S fuel command)
  unfolding spawn
  Stays-spawn fuel command =
      Stays-bind (locate_stdin T S fuel command.stdin) (spawn_with T S command)
        (Stays-locate_stdin fuel command.stdin) (Stays-spawn_with command)

  pub Stays-run_program :
      (fuel : ℕ) (command : Command) → Stays (run_program T S codec fuel command)
  Stays-run_program fuel command =
      Stays-bind (spawn T S fuel command) (wait_or_tell T S codec command.program)
        (Stays-spawn fuel command) λ child s. ground arith

  pub Stays-run_mkdir : (command : Command) → Stays (run_mkdir T S command)
  unfolding run_mkdir
  Stays-run_mkdir command s = ground arith

  pub Stays-run_ls : Stays (run_ls T S codec)
  unfolding run_ls
  Stays-run_ls s =
      let (r, vpfs) = fetch T (listed_path T S codec s.cwd) s.vpfs in
      Stays-after (list_result T S codec s.cwd) (r, record s { vpfs = vpfs })
        λ bytes s'. ground arith
