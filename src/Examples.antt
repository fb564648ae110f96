-- ===== src/Examples.antt =====
-- A platform to run the model on, and the theorems at concrete inputs.
mod Encodings
mod Sums
mod Codecs
mod ClientCodecs
mod World
mod DaemonCodecs
mod CopyRuns
mod CacheRuns
mod FileRuns
mod FindRuns
mod PlaceRuns
mod ReadRuns
mod ServiceRuns
mod TerminalRuns
mod TornRuns
mod WaitRuns
mod ShellRuns
mod WireRuns
