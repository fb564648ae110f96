-- ===== src/Lib.antt =====
-- A verification library for vpfs, a file system whose daemons find and read each other's files over
-- iroh connections. Paths below are relative to the repository's root.
--
-- Parts and files:
--   * Messages: the data types of src/messages.rs. Text (`Str`) is a list of code points.
--   * Files: the files of one daemon and `read_local`, `write_local` and
--     `create_file_with_random_uri` of src/file_system.rs. `Disk` has the files by name, the clock
--     that stamps them, whether `file_access_lock` is poisoned, and the random numbers drawn so far.
--     Files/Uris has the theorems.
--   * Directory: `search_directory_with_reader`, `search_directory_with_lock`, `search_directory`
--     and `append_dir_entry` of src/file_system.rs. Directory/Search and Directory/Append relate
--     them to lists of entries, Directory/Poison shows what a missing directory does.
--   * State, Cache: `DaemonState` of src/state.rs; `add_cache_entry` and `restore_cache` of
--     src/file_system.rs, as `store_entry`, `add_used`, `evict` and `save_cache` in a row, and
--     `restore_loop`. Cache/Sizes and Cache/Accounts have the books of the cache on lists,
--     Cache/Store, Cache/Evict and Cache/Add the parts and the whole of `add_cache_entry`,
--     Cache/Restore the restart, Cache/Overcount what is counted twice.
--   * Wire, Remote: src/remote_communication.rs, where Wire has the messages on a stream and Remote
--     the connections to other daemons. Wire/Numbers has the bytes of a length, Wire/Frames the
--     messages on a stream that keeps what was sent, Remote/Kept what talking to others leaves as it is.
--   * Find: `read_remote` and `recursive_find` of src/file_system.rs. Find/Walk turns the recursion
--     on the last part of a path into a walk from the root, Find/Local relates the lookup of a daemon
--     that has all directories to lists of entries.
--     Find/Cached is about lookups below what was not found, or found in the cache only, Find/Answers
--     about the owner's answers to `read_remote`, Find/Copies about the copy that a read leaves.
--   * Place: `place_file` of src/file_system.rs. Place/Trees has trees that grow by an entry,
--     Place/Local the placing that succeeds and Place/Failures the placing that does not.
--   * Protocol: a round of `handle_daemon` and the hello of `handle_connection` in src/protocol.rs.
--     Protocol/Reads is about reads after a write or a removal.
--   * Waits: which daemon waits for which where read_remote of src/file_system.rs, which keeps
--     `file_access_lock`, meets the Read requests of src/protocol.rs, as a step relation. Waits/Circles is
--     about daemons that wait in a circle, Waits/Ends about reads without one.
--   * Service: what src/daemon.rs does for a client program over a TCP connection, from
--     `handle_connection` and the loop of `handle_client` to the five `handle_client_*`. A `Session`
--     is the daemon with the bytes that come and the bytes that were sent; Service/Torn is about a
--     client that disconnects. Start has the state that
--     `main` makes and what it does before it serves clients.
--   * Client: the client library of src/lib.rs over a `Transport`, which stands for the connection and
--     all that is behind it. Client/Dialogue puts a daemon behind it that handles a request whenever
--     the client waits for a response, Client/Calls relates the calls to the daemon's operations, and
--     Client/Stored is about a file that is stored and fetched.
--   * Alone: a root daemon that serves its own files. `IsWhole` says what those files have to be, and
--     its modules follow it through new files and entries (Created, Growth), the start (Starts), placing
--     (Places), a request (Replies says what its response is, Requests that it is sent) and the loop of
--     requests (Serving).
--   * Shell: `normalize_path` and `file_name_to_full_path` (Shell/Paths), the command types
--     (Shell/Command) and `parse_nonpiped_command`, `parse_piped_command` and `parse_command`
--     (Shell/Parser) of src/applications/sh.rs. Shell/Parser/Tokens describes the tokens of a line
--     on their own, Shell/Parser/Loop relates the loop to them, and Shell/Parser/Unended is about
--     lines whose last character is part of a token.
--     Shell/Terminal has what the commands work on (`Console`: the connection, the terminal, the
--     processes and the threads that were started) and the questions that the shell asks, Shell/Run
--     the spawning of a command with its redirections, `run_cd` and `run_mkdir`, Shell/Dispatch
--     `run_ls`, `run_cat`, `run_command` and the loop of `main`. Shell/Stays and Shell/Entered are about
--     the working directory, Shell/Questions about answers, Shell/Listing about `run_ls`.
--   * Text: the operations of Rust's `str` that these parts call.
--   * Codec, Lru, Platform: what other packages provide, as parameters: serde_bare's encodings, the
--     lru crate's cache, iroh's keys, connections and streams, the rand crate's numbers. `IsLawful`
--     and `IsLru` state the documented behaviour that a theorem relies on. Examples has a platform
--     that meets them, and runs every theorem at a concrete input.
--
-- How code becomes a definition: an operation is a function of the state to an outcome and a state.
-- The outcome is a value, a panic, or `unfinished` where the fuel of a loop ran out; what was changed
-- before a panic stays changed. Loops over a reader have the length of the input as fuel, evictions
-- the number of entries, and a theorem shows that this is enough. The draws of a random name and the
-- rounds of the command parser have a fuel of the caller's choice, with theorems that say how much is
-- enough. A sum of `usize` that overflows and a difference below 0 panic, as in a build with checks.
-- `std::fs` fails where a file is missing, or is there already, and not for other reasons; a
-- `SystemTime` is a number. A lock other than `file_access_lock` is not modelled, and that one is either
-- poisoned or not, but for Waits, where it is held or free.
--
-- The network is a state that the operations of iroh change; what other nodes do to it is in those
-- operations. The fuel of a lookup is the number of parts of the path.
--
-- Not modelled: the accepting of connections and streams in src/remote_communication.rs and
-- src/protocol.rs and src/daemon.rs, the reading of options and the binding of an endpoint, which are
-- calls of other packages in a loop, and src/applications/cat.rs, which prints what a fetch returns.
-- Processes and pipes are a parameter of the shell (`System`). A thread that the shell starts to
-- forward a file is put on a list; when it runs between the other steps is left open. The texts of the
-- parser's syntax errors are left out.
pub mod Base
pub mod Text
pub mod Messages
pub mod Files
pub mod Codec
pub mod Directory
pub mod Lru
pub mod Platform
pub mod State
pub mod Cache
pub mod Wire
pub mod Remote
pub mod Find
pub mod Place
pub mod Protocol
pub mod Service
pub mod Start
pub mod Waits
pub mod Client
pub mod Alone
pub mod Shell
mod Examples
