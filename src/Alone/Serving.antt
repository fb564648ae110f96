-- ===== src/Alone/Serving.antt =====
-- A whole daemon serves a client to the end of its requests.
use vpfs_iroh.Base.{ℕ, zero, suc, ◌<◌, false, none, some, length, ok, ◌≡◌, ◌∙◌, arith}
use vpfs_iroh.Messages.{ClientRequest}
use vpfs_iroh.Files.{Bytes}
use vpfs_iroh.Codec.{IsLawful}
use vpfs_iroh.Platform.{Platform}
use vpfs_iroh.Find.Local.{Tree}
use vpfs_iroh.Service.{Session, receive_message_tcp, handle_client_request, handle_client}
use vpfs_iroh.Alone.{IsWhole}
use vpfs_iroh.Alone.Replies.{IsFair, CanDraw}
use vpfs_iroh.Alone.Requests.{handle_client_request-IsAnswered}

module _ (P : Platform) (draws : ℕ) where
  -- What a client sends: fair requests, each of them with regard to what the ones before it did, and
  -- at last bytes that are no request, or none.
  pub data IsTalk : Session P → Type 0 where
    done : (s : Session P) → P.client_request_codec.from_reader s.incoming ≡ none → IsTalk s
    more :
        (s : Session P) (request : ClientRequest) (rest : Bytes)
        → P.client_request_codec.from_reader s.incoming ≡ some (request, rest)
        → IsFair P draws request (record s { incoming = rest })
        → CanDraw P draws s.daemon
        → ((s' : Session P)
            → handle_client_request P draws request (record s { incoming = rest }) ≡ (ok tt, s')
            → IsTalk s')
        → IsTalk s

  -- The session at the end of the loop.
  pub record IsServed (fuel : ℕ) (s : Session P) : Type 0 where
    pub last : Session P
    pub tree : Tree
    pub runs : handle_client P draws fuel s ≡ (ok tt, last)
    pub whole : IsWhole P tree last.daemon
    pub unbroken : last.broken ≡ false
    pub read : P.client_request_codec.from_reader last.incoming ≡ none

  handle_client-none :
      (fuel : ℕ) (s : Session P)
      → P.client_request_codec.from_reader s.incoming ≡ none
      → handle_client P draws (suc fuel) s ≡ (ok tt, s)
  unfolding handle_client receive_message_tcp
  handle_client-none fuel s unread = ground (arith, unread)

  handle_client-some :
      (fuel : ℕ) (s s' : Session P) (request : ClientRequest) (rest : Bytes)
      → P.client_request_codec.from_reader s.incoming ≡ some (request, rest)
      → handle_client_request P draws request (record s { incoming = rest }) ≡ (ok tt, s')
      → handle_client P draws (suc fuel) s ≡ handle_client P draws fuel s'
  unfolding handle_client receive_message_tcp
  handle_client-some fuel s s' request rest read handled = ground (arith, read, handled)

  -- With lawful encodings of directory entries and client requests, where the daemon is whole,
  -- the connection is not broken, and what the client sends is fair requests, each with regard to
  -- what the ones before it did and with a free name to be drawn, up to bytes that are no
  -- request, handle_client with fuel above the number of those bytes ends without a panic where
  -- no request can be read, with the connection unbroken and the daemon whole.
  pub handle_client-IsServed :
      (lawful : IsLawful P.entry_codec) (requests : IsLawful P.client_request_codec) (fuel : ℕ)
      (s : Session P) (tree : Tree)
      → IsWhole P tree s.daemon
      → s.broken ≡ false
      → IsTalk s
      → length s.incoming < fuel
      → IsServed fuel s
  handle_client-IsServed lawful requests zero s tree W unbroken talk enough = absurd (omega arith)
  handle_client-IsServed lawful requests (suc fuel) s tree W unbroken (done _ unread) enough =
      record {
        last = s;
        tree = tree;
        runs = handle_client-none fuel s unread;
        whole = W;
        unbroken = unbroken;
        read = unread;
      }
  handle_client-IsServed lawful requests (suc fuel) s tree W unbroken
        (more _ request rest read fair can further) enough =
      let A =
        handle_client_request-IsAnswered P lawful draws tree (record s { incoming = rest }) W
          unbroken request fair can in
      let fewer = requests.shorter s.incoming request rest read in
      let E =
        handle_client-IsServed lawful requests fuel A.last A.tree A.whole A.unbroken
          (further A.last A.runs) (omega (arith, A.shorter)) in
      record {
        last = E.last;
        tree = E.tree;
        runs = handle_client-some fuel s A.last request rest read A.runs ∙ E.runs;
        whole = E.whole;
        unbroken = E.unbroken;
        read = E.read;
      }
