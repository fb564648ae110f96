-- ===== src/Shell.antt =====
-- applications/sh.rs: the shell.
pub mod Paths
pub mod Command
pub mod Parser
pub mod Terminal
pub mod Run
pub mod Dispatch
pub mod Stays
pub mod Entered
pub mod Questions
pub mod Listing
