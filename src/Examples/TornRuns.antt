-- ===== src/Examples/TornRuns.antt =====
-- A client that sends two of five bytes of a write to a file at the node `b`.
use vpfs_iroh.Base.{lit, str_eq, false, some, [], ◌∷◌, ◌≡◌, refl, arith}
use vpfs_iroh.State.{DaemonState}
use vpfs_iroh.Lru.{lookup}
use vpfs_iroh.Remote.{stream_for}
use vpfs_iroh.Service.{Session, handle_client_write}
use vpfs_iroh.Service.Torn.{handle_client_write-fill}
use vpfs_iroh.Examples.World.{node, blank, place}
use vpfs_iroh.Examples.WireRuns.{piped}

abbrev linked : DaemonState piped
linked = record {
  root = some node;
  local = node;
  connections = (lit "b", 4) ∷ [];
  known_hosts = some [];
  cache = [];
  max_cache_size = 8;
  used_cache_bytes = 0;
  disk = blank;
  net = ([], []);
}

abbrev torn : Session piped
torn = record { daemon = linked; incoming = 7 ∷ 8 ∷ []; outgoing = []; broken = false }

handle_client_write-fill_example :
    handle_client_write piped 1 (place (lit "b") (lit "9")) 5 torn
    ≡ handle_client_write piped 1
        (place (lit "b") (lit "9"))
        5
        (record torn { incoming = 7 ∷ 8 ∷ 0 ∷ 0 ∷ 0 ∷ [] })
unfolding stream_for str_eq lookup
handle_client_write-fill_example =
    handle_client_write-fill piped 1 (place (lit "b") (lit "9")) 5 torn 4 4 linked linked
      (ground arith) refl refl (omega arith)
