-- ===== src/Find/Answers.antt =====
-- file_system.rs: what `read_remote` does with the answer of the owner of a file.
use vpfs_iroh.Base.{
  ℕ, ◌<◌, ◌^◌, Bool, false, some, ◌++◌, length, success, failure, ok, ◌≡◌, ap, ◌∙◌, subst, arith,
}
use vpfs_iroh.Messages.{
  Location, CacheEntry, not_modified, DaemonRequest, DaemonResponse, location_eq,
}
use vpfs_iroh.Files.{Bytes, fs_read}
use vpfs_iroh.Codec.{IsLawful}
use vpfs_iroh.Lru.{IsLru, lookup, promote}
use vpfs_iroh.Platform.{Platform}
use vpfs_iroh.State.{DaemonState}
use vpfs_iroh.Cache.{add_cache_entry}
use vpfs_iroh.Cache.Evict.{items}
use vpfs_iroh.Wire.{on_net, send_message}
use vpfs_iroh.Wire.Frames.{IsStream, frame, receive_message-frame}
use vpfs_iroh.Remote.{stream_for}
use vpfs_iroh.Remote.Kept.{IsKept, IsKept-trans, on_net-Keeps, send_message-Keeps, stream_for-Keeps}
use vpfs_iroh.Find.{poison, cached_time, receive_read, read_remote}

-- The daemon after the lookup in its cache.
abbrev pub looked_up : (P : Platform) → Location → DaemonState P → DaemonState P
looked_up P location s = record s { cache = (P.lru.get location s.cache).1 }

-- The owner is reached and asked for the file, and the given bytes arrive.
pub record Asked (P : Platform) (incoming : P.Stream → P.Net → Bytes) (location : Location)
    (s : DaemonState P) (arrived : Bytes) : Type 0 where
  pub connection : P.Connection
  pub stream : P.Stream
  pub sent : Bool
  pub reached : DaemonState P
  pub opened : DaemonState P
  pub asked : DaemonState P
  pub reaches :
      stream_for P location.node_name (looked_up P location s) ≡ (ok (some connection), reached)
  pub opens : on_net P (P.open_bi connection) reached ≡ (ok (some stream), opened)
  pub asks :
      send_message P P.request_codec stream
        (DaemonRequest.read location.uri
          (cached_time P (P.lru.get location s.cache).0 (looked_up P location s)))
        opened
      ≡ (ok sent, asked)
  pub came : incoming stream asked.net ≡ arrived

module _ (P : Platform) where
  -- What the owner sends for a file that it reads, and for one that was not modified.
  abbrev pub read_answer : Bytes → Bytes → Bytes
  read_answer bytes rest =
      frame P.response_codec (DaemonResponse.read (success tt))
      ++ (frame P.bytes_codec bytes ++ rest)

  abbrev pub not_modified_answer : Bytes → Bytes
  not_modified_answer rest =
      frame P.response_codec (DaemonResponse.read (failure not_modified)) ++ rest

module _ (P : Platform) (incoming outgoing : P.Stream → P.Net → Bytes)
    (finished : P.Stream → P.Net → Bool) (S : IsStream P incoming outgoing finished)
    (responses : IsLawful P.response_codec) (draws : ℕ) (location : Location) where
  -- Asking changes nothing of the daemon but its network and its connections.
  pub Asked-IsKept :
      (s : DaemonState P) (arrived : Bytes) (A : Asked P incoming location s arrived)
      → IsKept P (looked_up P location s) A.asked
  Asked-IsKept s arrived A =
      let start = looked_up P location s in
      let reached =
        subst (λ r. IsKept P start r.1) A.reaches
          ((stream_for-Keeps P location.node_name).from start) in
      let opened =
        subst (λ r. IsKept P A.reached r.1) A.opens
          ((on_net-Keeps P (P.open_bi A.connection)).from A.reached) in
      let asked =
        subst (λ r. IsKept P A.opened r.1) A.asks
          ((send_message-Keeps P P.request_codec A.stream _).from A.opened) in
      IsKept-trans P start A.reached A.asked reached
        (IsKept-trans P A.reached A.opened A.asked opened asked)

  -- What read_remote does with the owner's response.
  read_remote-answered :
      (s : DaemonState P) (response : DaemonResponse P.PublicKey) (rest : Bytes)
      (A : Asked P incoming location s (frame P.response_codec response ++ rest))
      → s.disk.poisoned ≡ false
      → length (P.response_codec.to_vec response) < 256 ^ 8
      → (net : P.Net) × (read_remote P draws location s
          ≡ poison P (
              receive_read P draws location
                (P.lru.get location s.cache).0
                A.stream
                (some response)
                (record A.asked { net = net })))
        × (incoming A.stream net ≡ rest)
  unfolding read_remote
  read_remote-answered s response rest A unpoisoned fits =
      let (net, received, left) =
        receive_message-frame P incoming outgoing finished S P.response_codec responses A.stream
          A.asked response rest A.came fits in
      (net, ground (arith, A.reaches, A.opens, A.asks, received, unpoisoned), left)

  -- Where the file has not been modified, the copy is read, and stays.
  pub read_remote-not_modified :
      (L : IsLru P.lru) (s : DaemonState P) (entry : CacheEntry) (bytes rest : Bytes)
      (A : Asked P incoming location s (not_modified_answer P rest))
      → s.disk.poisoned ≡ false
      → length (P.response_codec.to_vec (DaemonResponse.read (failure not_modified))) < 256 ^ 8
      → lookup location (items P s) ≡ some entry
      → fs_read entry.uri s.disk ≡ some bytes
      → (s' : DaemonState P) × (read_remote P draws location s ≡ (ok (success bytes), s'))
        × (s'.disk ≡ s.disk)
        × (items P s' ≡ promote location (items P s))
  read_remote-not_modified L s entry bytes rest A unpoisoned fits found there =
      let response = DaemonResponse.read (failure not_modified) in
      let K = Asked-IsKept s (frame P.response_codec response ++ rest) A in
      let (net, runs, left) = read_remote-answered s response rest A unpoisoned fits in
      let hit = L.get-lookup location s.cache ∙ found in
      let copy = ap (λ d. fs_read entry.uri d) K.disk ∙ there in
      (
        record A.asked { net = net },
        runs ∙ ground (arith, hit, copy),
        K.disk,
        ap P.lru.iter K.cache ∙ L.iter-get location s.cache,
      )

  -- A file that is sent is returned, and added to the cache.
  pub read_remote-sent :
      (payloads : IsLawful P.bytes_codec) (s : DaemonState P) (bytes rest : Bytes)
      (A : Asked P incoming location s (read_answer P bytes rest))
      → s.disk.poisoned ≡ false
      → length (P.response_codec.to_vec (DaemonResponse.read (success tt))) < 256 ^ 8
      → length (P.bytes_codec.to_vec bytes) < 256 ^ 8
      → (net : P.Net) × ((s' : DaemonState P)
          → add_cache_entry P draws location bytes (record A.asked { net = net }) ≡ (ok tt, s')
          → read_remote P draws location s ≡ (ok (success bytes), s'))
  read_remote-sent payloads s bytes rest A unpoisoned fits fits' =
      let response = DaemonResponse.read (success tt) in
      let (net, runs, left) =
        read_remote-answered s response (frame P.bytes_codec bytes ++ rest) A unpoisoned fits in
      let (net', received, left') =
        receive_message-frame P incoming outgoing finished S P.bytes_codec payloads A.stream
          (record A.asked { net = net }) bytes rest left fits' in
      (net', λ s' added. runs ∙ ground (arith, received, added))
