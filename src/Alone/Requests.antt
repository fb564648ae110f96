-- ===== src/Alone/Requests.antt =====
-- A whole daemon answers each request that is its own, and stays whole.
use vpfs_iroh.Base.{
  ℕ, ◌≤◌, Str, str_eq, eq_refl, ap, ◌∙◌, true, false, none, some, [], ◌++◌, length, drop,
  append-nil, append_assoc, length-drop, success, failure, ok, ◌≡◌, refl, arith, Option-cases, inl,
  inr,
}
use vpfs_iroh.Messages.{Location, does_not_exist, ClientRequest, ClientResponse}
use vpfs_iroh.Text.{slash, split}
use vpfs_iroh.Files.{Bytes, put_file, read_local, write_local}
use vpfs_iroh.Codec.{IsLawful}
use vpfs_iroh.Platform.{Platform}
use vpfs_iroh.State.{DaemonState}
use vpfs_iroh.Cache.{set_disk}
use vpfs_iroh.Find.Local.{Tree, resolve, recursive_find-resolve}
use vpfs_iroh.Place.{place_file}
use vpfs_iroh.Service.{
  Session, fuel_of, fill, send_message_tcp, handle_client_request, handle_client_find,
  handle_client_place, handle_client_mkdir, handle_client_read, handle_client_write,
}
use vpfs_iroh.Alone.{IsWhole, IsWhole-IsLocalTree}
use vpfs_iroh.Alone.Growth.{IsWhole-put_file}
use vpfs_iroh.Alone.Appends.{EndsWhole}
use vpfs_iroh.Alone.Places.{place_file-EndsWhole}
use vpfs_iroh.Alone.Replies.{IsFair, CanDraw, IsReply, IsAnswered, files-put_file, fill-take}

module _ (P : Platform) (lawful : IsLawful P.entry_codec) (draws : ℕ) (tree : Tree) (s : Session P)
    (W : IsWhole P tree s.daemon) (unbroken : s.broken ≡ false) where
  -- The session after a response with no bytes behind it.
  abbrev responded : DaemonState P → Bytes → ClientResponse → Session P
  responded d incoming response = record s {
    daemon = d;
    incoming = incoming;
    outgoing = s.outgoing ++ P.client_response_codec.to_vec response;
  }

  alone-IsAnswered :
      (request : ClientRequest) (tree' : Tree) (d : DaemonState P) (incoming : Bytes)
      (response : ClientResponse)
      → handle_client_request P draws request s ≡ (ok tt, responded d incoming response)
      → IsWhole P tree' d
      → d.local ≡ s.daemon.local
      → IsReply P draws tree request s (responded d incoming response) response []
      → length incoming ≤ length s.incoming
      → IsAnswered P draws tree request s
  alone-IsAnswered request tree' d incoming response run whole same reply shorter = record {
    last = responded d incoming response;
    tree = tree';
    response = response;
    bytes = [];
    runs = run;
    whole = whole;
    unbroken = unbroken;
    same = same;
    answered = rw (append-nil) refl;
    reply = reply;
    shorter = shorter;
  }

  answer-find : (path : Str) → IsAnswered P draws tree (ClientRequest.find path) s
  unfolding handle_client_request handle_client_find send_message_tcp
  answer-find path =
      let found = resolve tree (split slash path) in
      let run =
        recursive_find-resolve P lawful tree s.daemon (IsWhole-IsLocalTree P tree s.daemon W) draws
          (fuel_of P path) path (omega arith) in
      alone-IsAnswered (ClientRequest.find path) tree s.daemon s.incoming
        (ClientResponse.find found) (ground (arith, run)) W refl (refl, refl, refl, refl)
        (omega arith)

  module _ (path node : Str) (here : node ≡ s.daemon.local.name) where
    answer-place :
        EndsWhole P (place_file P draws (fuel_of P path) path s.daemon.local.name false) s.daemon
        → IsAnswered P draws tree (ClientRequest.place path node) s
    unfolding handle_client_request handle_client_place send_message_tcp
    answer-place E =
        alone-IsAnswered (ClientRequest.place path node) E.tree E.last s.incoming
          (ClientResponse.place E.result) (ground (arith, E.runs)) E.whole E.same
          (
            E.result,
            refl,
            ap (λ n. place_file P draws (fuel_of P path) path n false s.daemon) here ∙ E.runs,
            refl,
            refl,
          )
          (omega arith)

    answer-mkdir :
        EndsWhole P (place_file P draws (fuel_of P path) path s.daemon.local.name true) s.daemon
        → IsAnswered P draws tree (ClientRequest.mkdir path node) s
    unfolding handle_client_request handle_client_mkdir send_message_tcp
    answer-mkdir E =
        alone-IsAnswered (ClientRequest.mkdir path node) E.tree E.last s.incoming
          (ClientResponse.mkdir E.result) (ground (arith, E.runs)) E.whole E.same
          (
            E.result,
            refl,
            ap (λ n. place_file P draws (fuel_of P path) path n true s.daemon) here ∙ E.runs,
            refl,
            refl,
          )
          (omega arith)

  answer-read :
      (location : Location)
      → location.node_name ≡ s.daemon.local.name
      → IsAnswered P draws tree (ClientRequest.read location) s
  unfolding handle_client_request handle_client_read send_message_tcp read_local
  answer-read location here = elim (Option-cases (s.daemon.disk.files location.uri)) [
    | inl missing ↦
        alone-IsAnswered (ClientRequest.read location) tree s.daemon s.incoming
          (ClientResponse.read (failure does_not_exist))
          (ground (arith, eq_refl s.daemon.local.name, W.unpoisoned)) W refl
          (rw missing (refl, refl), refl, refl) (omega arith)
    | inr (file, there) ↦
        let response = ClientResponse.read (success (length file.bytes)) in
        record {
          last = record s {
            outgoing = (s.outgoing ++ P.client_response_codec.to_vec response) ++ file.bytes;
          };
          tree = tree;
          response = response;
          bytes = file.bytes;
          runs = ground (arith, eq_refl s.daemon.local.name, W.unpoisoned);
          whole = W;
          unbroken = unbroken;
          same = refl;
          reply = (rw there (refl, refl), refl, refl);
          answered = append_assoc s.outgoing (P.client_response_codec.to_vec response) file.bytes;
          shorter = omega arith;
        }
  ]

  answer-write :
      (location : Location) (len : ℕ)
      → location.node_name ≡ s.daemon.local.name
      → len ≤ length s.incoming
      → tree location.uri ≡ none
      → IsAnswered P draws tree (ClientRequest.write location len) s
  unfolding handle_client_request handle_client_write send_message_tcp write_local
  answer-write location len here come free =
      let bytes = fill len s.incoming in
      let rest = drop len s.incoming in
      let first = fill-take len s.incoming come in
      let written = files-put_file location.uri bytes s.daemon.disk in
      let fewer : length rest ≤ length s.incoming = omega (arith, length-drop len s.incoming) in
      elim (Option-cases (s.daemon.disk.files location.uri)) [
        | inl missing ↦
            alone-IsAnswered (ClientRequest.write location len) tree s.daemon rest
              (ClientResponse.write (failure does_not_exist))
              (ground (arith, eq_refl s.daemon.local.name, W.unpoisoned)) W refl
              (rw missing (refl, refl), refl, refl) fewer
        | inr (file, there) ↦
            alone-IsAnswered (ClientRequest.write location len) tree
              (set_disk P (put_file location.uri bytes s.daemon.disk) s.daemon) rest
              (ClientResponse.write (success (length bytes)))
              (ground (arith, eq_refl s.daemon.local.name, W.unpoisoned))
              (IsWhole-put_file P tree s.daemon W location.uri bytes free) refl
              (
                rw there (
                  ap (λ (b : Bytes). ClientResponse.write (success (length b))) first,
                  written.0 ∙ ap (λ (b : Bytes). some b) first,
                  written.1,
                ),
                refl,
                refl,
              )
              fewer
      ]

  -- With a lawful encoding of directory entries, where the daemon is whole (IsWhole), the
  -- connection is not broken, a draw gives a free name, and the request is fair (what it places,
  -- reads or writes is at this daemon, the bytes that it writes have come, and the file that it
  -- writes is no directory), the handling of the request ends without a panic, with the
  -- connection unbroken and a daemon that is whole and is the same node. What it sent is one
  -- response, of the kind of the request: what the tree has at the path to be found, what
  -- place_file of a file, or of a directory for Mkdir, returns, the length of the file that is
  -- read, with its bytes behind it, or the length that was written, and DoesNotExist where the
  -- file to be read or written is missing. The bytes to be written are taken off what comes, and
  -- are then those of the file, all other files being as before; the other requests take nothing
  -- off, and Find and Read change nothing at the daemon.
  pub handle_client_request-IsAnswered :
      (request : ClientRequest)
      → IsFair P draws request s
      → CanDraw P draws s.daemon
      → IsAnswered P draws tree request s
  handle_client_request-IsAnswered (ClientRequest.find path) fair can = answer-find path
  handle_client_request-IsAnswered (ClientRequest.place path node) fair (uri, disk, drawn) =
      answer-place path node fair (
        place_file-EndsWhole P lawful draws (fuel_of P path) tree s.daemon W path false uri disk
          drawn (omega arith))
  handle_client_request-IsAnswered (ClientRequest.mkdir path node) fair (uri, disk, drawn) =
      answer-mkdir path node fair (
        place_file-EndsWhole P lawful draws (fuel_of P path) tree s.daemon W path true uri disk
          drawn (omega arith))
  handle_client_request-IsAnswered (ClientRequest.read location) fair can =
      answer-read location fair
  handle_client_request-IsAnswered (ClientRequest.write location len) fair can =
      answer-write location len fair.0 fair.1 (fair.2 tree W)
