-- ===== src/Shell/Command.antt =====
-- applications/sh.rs: the commands that the parser builds.
use vpfs_iroh.Base.{ℕ, Str, List}

-- `Stdio` is known by the pipe that it stands for.
pub data RedirectType : Type 0 where
  no_redirect : RedirectType
  file : Str → RedirectType
  piped : ℕ → RedirectType

pub record Command : Type 0 where
  pub program : Str
  pub args : List Str
  pub stdin : RedirectType
  pub stderr : RedirectType
  pub stdout : RedirectType

pub data PipeableCommand : Type 0 where
  non_piped : Command → PipeableCommand
  pipe : Command → PipeableCommand → PipeableCommand
