-- ===== src/Client/Dialogue.antt =====
-- The client library on a connection to a daemon that serves it: where the client waits for a
-- response and none is there, the daemon takes its turn.
use vpfs_iroh.Base.{
  ℕ, true, false, Option, none, some, [], ◌∷◌, ◌++◌, length, ◌-◌, take, drop, leb, append-nil,
  Outcome, ok, panicked, unfinished, Exec, pure, ◌>>=◌, ◌≡◌, refl, sym, ap, ◌∙◌, arith,
}
use vpfs_iroh.Messages.{ClientRequest, ClientResponse}
use vpfs_iroh.Codec.{Codec, IsLawful}
use vpfs_iroh.Files.{Bytes}
use vpfs_iroh.Platform.{Platform}
use vpfs_iroh.State.{DaemonState}
use vpfs_iroh.Service.{Session, fill, receive_message_tcp, handle_client_request}
use vpfs_iroh.Client.{Transport, send_request, send_request_async, receive_response_async}

module _ (P : Platform) where
  abbrev answer : Exec (Session P) (Unit {0}) → Session P → Outcome (Unit {0}) × Session P
  answer turn s = elim s.outgoing [ [] ↦ turn s | byte ∷ bytes ↦ (ok tt, s) ]

  -- A daemon that has panicked has closed the connection.
  abbrev take_value : {A : Type 0} → Codec A → Outcome (Unit {0}) × Session P → Option A × Session P
  take_value codec (ok _, s) = elim (codec.from_reader s.outgoing) [
    | none ↦ (none, s)
    | some (a, rest) ↦ (some a, record s { outgoing = rest })
  ]
  take_value codec (panicked, s) = (none, s)
  take_value codec (unfinished, s) = (none, s)

  abbrev pub dialogue : Exec (Session P) (Unit {0}) → Transport
  dialogue turn = record {
    State = Session P;
    PublicKey = P.PublicKey;
    write_value = λ codec a s. (true, record s { incoming = s.incoming ++ codec.to_vec a });
    read_value = λ codec s. take_value codec (answer turn s);
    write_all = λ bytes s. (true, record s { incoming = s.incoming ++ bytes });
    read_exact = λ n s.
        ((leb n (length s.outgoing), fill n s.outgoing), record s { outgoing = drop n s.outgoing });
    hello_codec = P.hello_codec;
    hello_response_codec = P.hello_response_codec;
    client_request_codec = P.client_request_codec;
    client_response_codec = P.client_response_codec;
  }

  -- A round of `handle_client`.
  unfoldable pub turn : ℕ → Exec (Session P) (Unit {0})
  turn draws = do
    request ← receive_message_tcp P P.client_request_codec
    elim request [ none ↦ pure tt | some r ↦ handle_client_request P draws r ]

  abbrev pub serving : ℕ → Transport
  serving draws = dialogue (turn draws)

  -- A connection on which nothing is under way.
  abbrev pub quiet : DaemonState P → Session P
  quiet d = record { daemon = d; incoming = []; outgoing = []; broken = false }

pub take-length : (bytes : Bytes) → take (length bytes) bytes ≡ bytes
take-length [] = refl
take-length (b ∷ bytes) = ap (λ r. b ∷ r) (take-length bytes)

pub drop-length : (bytes : Bytes) → drop (length bytes) bytes ≡ []
drop-length [] = refl
drop-length (b ∷ bytes) = drop-length bytes

-- A buffer for all bytes that come is those bytes.
pub fill-length : (bytes : Bytes) → fill (length bytes) bytes ≡ bytes
fill-length bytes =
    let none_left : length bytes - length bytes ≡ 0 = omega arith in
    rw (none_left, take-length bytes, append-nil) refl

-- The encodings of a client connection.
pub record IsServable (P : Platform) : Type 0 where
  pub requests : IsLawful P.client_request_codec
  pub responses : IsLawful P.client_response_codec

module _ (P : Platform) (C : IsServable P) (draws : ℕ) where
  -- The turn of the daemon on a request, with what the client sent behind it.
  turn-request :
      (request : ClientRequest) (sent : Bytes) (d : DaemonState P)
      → turn P draws
          (record (quiet P d) { incoming = P.client_request_codec.to_vec request ++ sent })
        ≡ handle_client_request P draws request (record (quiet P d) { incoming = sent })
  unfolding turn receive_message_tcp
  turn-request request sent d = ground (arith, C.requests.read_back request sent)

  -- What the client receives after a request that the daemon handles, and what is left then.
  pub receive_response_async-handle :
      (request : ClientRequest) (response : ClientResponse) (sent left rest : Bytes)
      (d d' : DaemonState P)
      → handle_client_request P draws request (record (quiet P d) { incoming = sent }) ≡ (
        ok tt,
        record (quiet P d') {
          incoming = left;
          outgoing = P.client_response_codec.to_vec response ++ rest;
        },
      )
      → receive_response_async
          (serving P draws)
          (record (quiet P d) { incoming = P.client_request_codec.to_vec request ++ sent })
        ≡ (ok response, record (quiet P d') { incoming = left; outgoing = rest })
  unfolding receive_response_async
  receive_response_async-handle request response sent left rest d d' handled =
      ground (arith, turn-request request sent d, handled, C.responses.read_back response rest)

  -- A request that is answered by a response alone.
  pub send_request-handle :
      (request : ClientRequest) (response : ClientResponse) (d d' : DaemonState P)
      → handle_client_request P draws request (quiet P d)
        ≡ (ok tt, record (quiet P d') { outgoing = P.client_response_codec.to_vec response })
      → send_request (serving P draws) request (quiet P d) ≡ (ok response, quiet P d')
  unfolding send_request send_request_async
  send_request-handle request response d d' handled =
      let alone : P.client_response_codec.to_vec response
          ≡ P.client_response_codec.to_vec response ++ [] =
        sym (append-nil (P.client_response_codec.to_vec response)) in
      ap
        (λ bytes.
          receive_response_async (serving P draws) (record (quiet P d) { incoming = bytes }))
        (sym (append-nil (P.client_request_codec.to_vec request)))
      ∙ receive_response_async-handle request response [] [] [] d d'
          (handled ∙ ap (λ bytes. (ok tt, record (quiet P d') { outgoing = bytes })) alone)
