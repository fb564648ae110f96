-- ===== src/Examples/WireRuns.antt =====
-- A network of one stream, and messages on it.
use vpfs_iroh.Base.{
  ℕ, lit, true, Option, none, some, [], ◌∷◌, ◌++◌, length, take, drop, leb, if◌then◌else◌, ◌≡◌,
  refl, arith, ok,
}
use native.Mathlib.Decide.{ℕ_discrete}
use vpfs_iroh.Files.{Bytes}
use vpfs_iroh.Platform.{Platform}
use vpfs_iroh.State.{DaemonState}
use vpfs_iroh.Wire.{to_be_bytes, receive_message}
use vpfs_iroh.Wire.Frames.{IsStream, receive_message-frame, receive_message-short}
use vpfs_iroh.Examples.Codecs
use vpfs_iroh.Examples.World.{offline, node, blank}

-- The bytes that have arrived, and those that were sent. The other side has finished the stream.
abbrev Pipe : Type 0
Pipe = Bytes × Bytes

abbrev read_pipe : ℕ → Pipe → Option Bytes × Pipe
read_pipe n (arrived, sent) =
    if leb n (length arrived)
    then (some (take n arrived), (drop n arrived, sent))
    else (none, (arrived, sent))

abbrev pub piped : Platform
piped = record {
  PublicKey = ℕ;
  key_eq = record { dec = ℕ_discrete };
  Connection = ℕ;
  Stream = ℕ;
  Net = Pipe;
  connect = λ key net. (some key, net);
  open_bi = λ connection net. (some connection, net);
  write_all = λ stream bytes net. (true, (net.0, net.1 ++ bytes));
  read_exact = λ stream n net. read_pipe n net;
  lru = offline.lru;
  random = offline.random;
  entry_codec = offline.entry_codec;
  location_codec = offline.location_codec;
  cache_entry_codec = offline.cache_entry_codec;
  usize_codec = offline.usize_codec;
  root_codec = offline.root_codec;
  hello_codec = offline.hello_codec;
  hello_response_codec = offline.hello_response_codec;
  request_codec = offline.request_codec;
  response_codec = offline.response_codec;
  bytes_codec = offline.bytes_codec;
  client_request_codec = offline.client_request_codec;
  client_response_codec = offline.client_response_codec;
}

piped-IsStream : IsStream piped (λ stream net. net.0) (λ stream net. net.1) (λ stream net. true)
piped-IsStream = record {
  read_enough = λ stream n net h. (ground arith, ground arith, refl);
  read_short = λ stream n net ended h. ground arith;
  written = λ stream bytes net h. refl;
}

-- A daemon at which the given bytes have arrived.
abbrev reading : Bytes → DaemonState piped
reading bytes = record {
  root = some node;
  local = node;
  connections = [];
  known_hosts = some [];
  cache = [];
  max_cache_size = 8;
  used_cache_bytes = 0;
  disk = blank;
  net = (bytes, []);
}

-- The message `hi`, whose encoding has three bytes.
abbrev hi_frame : Bytes
hi_frame = 0 ∷ 0 ∷ 0 ∷ 0 ∷ 0 ∷ 0 ∷ 0 ∷ 3 ∷ 2 ∷ 104 ∷ 105 ∷ []

receive_message-frame_example :
    (net : Pipe) × (receive_message piped Codecs.str_codec 0 (reading (hi_frame ++ 9 ∷ []))
      ≡ (ok (some (lit "hi")), record (reading (hi_frame ++ 9 ∷ [])) { net = net }))
    × (net.0 ≡ 9 ∷ [])
receive_message-frame_example =
    receive_message-frame piped (λ stream net. net.0) (λ stream net. net.1) (λ stream net. true)
      piped-IsStream Codecs.str_codec Codecs.str_codec-IsLawful 0 (reading (hi_frame ++ 9 ∷ []))
      (lit "hi") (9 ∷ []) (unfold to_be_bytes in refl) (omega arith)

receive_message-short_example :
    (receive_message piped Codecs.str_codec 0 (reading (0 ∷ 0 ∷ []))).0 ≡ ok none
receive_message-short_example =
    receive_message-short piped (λ stream net. net.0) (λ stream net. net.1) (λ stream net. true)
      piped-IsStream Codecs.str_codec 0 (reading (0 ∷ 0 ∷ [])) (lit "hi") (drop 2 hi_frame) refl
      (unfold to_be_bytes in refl) (omega arith) (omega arith)
