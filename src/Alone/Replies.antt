-- ===== src/Alone/Replies.antt =====
-- What daemon.rs sends for each request of a client, and which requests a daemon on its own can
-- answer.
use vpfs_iroh.Base.{
  ℕ, ◌-◌, ◌≤◌, Str, ◌==◌, str_eq, eq_refl, if-elim, ◌≢◌, true, false, Option, none, some, [], ◌++◌,
  length, take, drop, append-nil, success, failure, ok, ◌≡◌, refl, arith,
}
use vpfs_iroh.Messages.{does_not_exist, ClientRequest, ClientResponse}
use vpfs_iroh.Text.{slash, split}
use vpfs_iroh.Files.{Bytes, File, Disk, put_file, fs_read, create_file_with_random_uri}
use vpfs_iroh.Platform.{Platform}
use vpfs_iroh.State.{DaemonState}
use vpfs_iroh.Find.Local.{Tree, resolve}
use vpfs_iroh.Place.{PlaceResult, place_file}
use vpfs_iroh.Service.{Session, fuel_of, fill, handle_client_request}
use vpfs_iroh.Alone.{IsWhole}

module _ (P : Platform) (draws : ℕ) where
  -- The request is for this daemon, its bytes have come, and it writes no directory.
  abbrev pub IsFair : ClientRequest → Session P → Type 0
  IsFair (ClientRequest.find path) s = Unit
  IsFair (ClientRequest.place path node) s = node ≡ s.daemon.local.name
  IsFair (ClientRequest.mkdir path node) s = node ≡ s.daemon.local.name
  IsFair (ClientRequest.read location) s = location.node_name ≡ s.daemon.local.name
  IsFair (ClientRequest.write location len) s =
      (location.node_name ≡ s.daemon.local.name)
      × (len ≤ length s.incoming)
      × ((tree : Tree) → IsWhole P tree s.daemon → tree location.uri ≡ none)

  -- A name can be drawn.
  abbrev pub CanDraw : DaemonState P → Type 0
  CanDraw d =
      (uri : Str) × (disk : Disk) × (create_file_with_random_uri P.random draws d.disk
        ≡ (ok uri, disk))

  -- What a read of a file is answered with, and the bytes behind it.
  abbrev pub IsReadReply : Option File → ClientResponse → Bytes → Type 0
  IsReadReply none response bytes =
      (response ≡ ClientResponse.read (failure does_not_exist)) × (bytes ≡ [])
  IsReadReply (some file) response bytes =
      (response ≡ ClientResponse.read (success (length file.bytes))) × (bytes ≡ file.bytes)

  -- What a write of the bytes to a file is answered with, and the daemon after it: the file has the
  -- bytes, and the others are as they were.
  abbrev pub IsWriteReply :
      Str → Bytes → Option File → DaemonState P → DaemonState P → ClientResponse → Type 0
  IsWriteReply uri written none d d' response =
      (response ≡ ClientResponse.write (failure does_not_exist)) × (d' ≡ d)
  IsWriteReply uri written (some file) d d' response =
      (response ≡ ClientResponse.write (success (length written)))
      × (fs_read uri d'.disk ≡ some written)
      × ((other : Str) → other ≢ uri → d'.disk.files other ≡ d.disk.files other)

  -- The response to a request, the bytes behind it, and the session after it, where the directories
  -- of the daemon are those of the tree.
  abbrev pub IsReply :
      Tree → ClientRequest → Session P → Session P → ClientResponse → Bytes → Type 0
  IsReply before (ClientRequest.find path) s last response bytes =
      (response ≡ ClientResponse.find (resolve before (split slash path)))
      × (bytes ≡ [])
      × (last.daemon ≡ s.daemon)
      × (last.incoming ≡ s.incoming)
  IsReply before (ClientRequest.place path node) s last response bytes =
      (result : PlaceResult) × (response ≡ ClientResponse.place result)
      × (place_file P draws (fuel_of P path) path node false s.daemon ≡ (ok result, last.daemon))
      × (bytes ≡ [])
      × (last.incoming ≡ s.incoming)
  IsReply before (ClientRequest.mkdir path node) s last response bytes =
      (result : PlaceResult) × (response ≡ ClientResponse.mkdir result)
      × (place_file P draws (fuel_of P path) path node true s.daemon ≡ (ok result, last.daemon))
      × (bytes ≡ [])
      × (last.incoming ≡ s.incoming)
  IsReply before (ClientRequest.read location) s last response bytes =
      IsReadReply (s.daemon.disk.files location.uri) response bytes
      × (last.daemon ≡ s.daemon)
      × (last.incoming ≡ s.incoming)
  IsReply before (ClientRequest.write location len) s last response bytes =
      IsWriteReply location.uri (take len s.incoming) (s.daemon.disk.files location.uri) s.daemon
        last.daemon response
      × (bytes ≡ [])
      × (last.incoming ≡ drop len s.incoming)

  -- The handling of a request ends without a panic in a session whose daemon is whole, and what it
  -- sent is the response to the request with the bytes behind it.
  pub record IsAnswered (before : Tree) (request : ClientRequest) (s : Session P) : Type 0 where
    pub last : Session P
    pub tree : Tree
    pub response : ClientResponse
    pub bytes : Bytes
    pub runs : handle_client_request P draws request s ≡ (ok tt, last)
    pub whole : IsWhole P tree last.daemon
    pub unbroken : last.broken ≡ false
    pub same : last.daemon.local ≡ s.daemon.local
    pub answered : last.outgoing ≡ s.outgoing ++ (P.client_response_codec.to_vec response ++ bytes)
    pub reply : IsReply before request s last response bytes
    pub shorter : length last.incoming ≤ length s.incoming

pub files-put_file :
    (uri : Str) (bytes : Bytes) (d : Disk)
    → (fs_read uri (put_file uri bytes d) ≡ some bytes)
      × ((other : Str) → other ≢ uri → (put_file uri bytes d).files other ≡ d.files other)
files-put_file uri bytes d = (
  ground (arith, eq_refl uri),
  λ other differs.
      if-elim (λ (f : Option File). f ≡ d.files other) (other == uri)
        (λ h. absurd (differs (ground arith))) (λ h. refl),
)

-- Where enough bytes come, the buffer has the first of them.
pub fill-take : (n : ℕ) (bytes : Bytes) → n ≤ length bytes → fill n bytes ≡ take n bytes
fill-take n bytes enough =
    let none_left : n - length bytes ≡ 0 = omega arith in rw (none_left) (append-nil (take n bytes))
