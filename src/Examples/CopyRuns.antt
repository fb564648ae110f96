-- ===== src/Examples/CopyRuns.antt =====
-- A daemon that reads a file of the node `b` twice.
use vpfs_iroh.Base.{ℕ, lit, str_eq, true, some, [], ◌∷◌, ◌++◌, ◌≢◌, ok, success, ◌≡◌, refl, arith}
use vpfs_iroh.Messages.{Location, location_eq}
use vpfs_iroh.Files.{Bytes, hex, create_file_with_random_uri}
use vpfs_iroh.Lru.{list_lru-IsLru, lookup, erase}
use vpfs_iroh.Platform.{Platform}
use vpfs_iroh.State.{DaemonState}
use vpfs_iroh.Cache.{
  add_cache_entry, store_entry, add_used, evict, evict_loop, drop_file, save_cache,
}
use vpfs_iroh.Cache.Evict.{items, Accounted}
use vpfs_iroh.Wire.{to_be_bytes, from_be_bytes, send_message, receive_message}
use vpfs_iroh.Wire.Frames.{IsStream}
use vpfs_iroh.Remote.{stream_for}
use vpfs_iroh.Find.{read_remote}
use vpfs_iroh.Find.Answers.{Asked, read_answer, not_modified_answer}
use vpfs_iroh.Find.Copies.{read_remote-read_remote}
use vpfs_iroh.Examples.Codecs.{str_codec, str_codec-IsLawful}
use vpfs_iroh.Examples.DaemonCodecs.{response_codec, response_codec-IsLawful}
use vpfs_iroh.Examples.World.{node, blank, place}
use vpfs_iroh.Examples.WireRuns.{piped}

abbrev copying : Platform
copying = record piped { response_codec = response_codec; bytes_codec = str_codec }

abbrev arrives : ℕ → Bytes × Bytes → Bytes
arrives stream net = net.0

copying-IsStream : IsStream copying arrives (λ stream net. net.1) (λ stream net. true)
copying-IsStream = record {
  read_enough = λ stream n net h. (ground arith, ground arith, refl);
  read_short = λ stream n net ended h. ground arith;
  written = λ stream bytes net h. refl;
}

abbrev reader : DaemonState copying
reader = record {
  root = some node;
  local = node;
  connections = (lit "b", 4) ∷ [];
  known_hosts = some [];
  cache = [];
  max_cache_size = 8;
  used_cache_bytes = 0;
  disk = blank;
  net = (read_answer copying (5 ∷ 6 ∷ []) (not_modified_answer copying []), []);
}

abbrev wanted : Location
wanted = place (lit "b") (lit "9")

reader-Asked :
    Asked copying arrives wanted reader
      (read_answer copying (5 ∷ 6 ∷ []) (not_modified_answer copying []))
unfolding stream_for send_message str_eq location_eq lookup to_be_bytes erase
reader-Asked = record {
  connection = 4;
  stream = 4;
  sent = true;
  reached = reader;
  opened = reader;
  asked = record reader { net = (reader.net.0, to_be_bytes 8 0) };
  reaches = refl;
  opens = refl;
  asks = refl;
  came = refl;
}

-- The daemon after the first read.
abbrev read_once : DaemonState copying
read_once = (read_remote copying 1 wanted reader).1

read_once-Asked : Asked copying arrives wanted read_once (not_modified_answer copying [])
unfolding read_remote stream_for send_message receive_message str_eq location_eq lookup erase
    to_be_bytes from_be_bytes add_cache_entry store_entry add_used evict evict_loop drop_file
    save_cache create_file_with_random_uri hex
read_once-Asked = record {
  connection = 4;
  stream = 4;
  sent = true;
  reached = read_once;
  opened = read_once;
  asked = record read_once { net = (read_once.net.0, read_once.net.1 ++ to_be_bytes 8 0) };
  reaches = refl;
  opens = refl;
  asks = refl;
  came = refl;
}

reader-Accounted : Accounted copying reader
reader-Accounted = record { backed = tt; distinct = tt; reserved = tt; counted = omega arith }

still_there : items copying read_once ≢ []
unfolding read_remote stream_for send_message receive_message str_eq location_eq lookup erase
    to_be_bytes from_be_bytes add_cache_entry store_entry add_used evict evict_loop drop_file
    save_cache create_file_with_random_uri hex
still_there e = cc

read_remote-read_remote_example :
    ((read_remote copying 1 wanted reader).0 ≡ ok (success (5 ∷ 6 ∷ [])))
    × ((s'' : DaemonState copying) × (read_remote copying 1 wanted read_once
          ≡ (ok (success (5 ∷ 6 ∷ [])), s''))
        × (s''.disk ≡ read_once.disk)
        × (items copying s'' ≡ items copying read_once))
read_remote-read_remote_example =
    read_remote-read_remote copying arrives (λ stream net. net.1) (λ stream net. true)
      copying-IsStream response_codec-IsLawful 1 wanted list_lru-IsLru str_codec-IsLawful reader
      (5 ∷ 6 ∷ []) (not_modified_answer copying []) [] reader-Asked read_once-Asked refl
      (omega arith) (omega arith) (omega arith) reader-Accounted (0, refl, omega arith)
      (omega arith) (unfold lookup in refl) still_there
