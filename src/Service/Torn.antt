-- ===== src/Service/Torn.antt =====
-- daemon.rs: a client that disconnects in the middle of a write.
use vpfs_iroh.Base.{
  ℕ, zero, suc, ◌-◌, ◌≤◌, Str, str_eq, some, [], ◌∷◌, length, take, drop, length-append, append-nil,
  ok, ◌≡◌, ◌≢◌, refl, ap, arith,
}
use vpfs_iroh.Messages.{Location}
use vpfs_iroh.Files.{Bytes}
use vpfs_iroh.Platform.{Platform}
use vpfs_iroh.State.{DaemonState}
use vpfs_iroh.Wire.{on_net}
use vpfs_iroh.Remote.{stream_for}
use vpfs_iroh.Service.{Session, zeros, fill, handle_client_write, write_on}

length-zeros : (n : ℕ) → length (zeros n) ≡ n
length-zeros zero = refl
length-zeros (suc n) = ap suc (length-zeros n)

take-long : (n : ℕ) (bytes : Bytes) → length bytes ≤ n → take n bytes ≡ bytes
take-long zero [] h = refl
take-long zero (b ∷ bytes) h = absurd (omega arith)
take-long (suc n) [] h = refl
take-long (suc n) (b ∷ bytes) h = ap (λ r. b ∷ r) (take-long n bytes (omega arith))

drop-long : (n : ℕ) (bytes : Bytes) → length bytes ≤ n → drop n bytes ≡ []
drop-long zero [] h = refl
drop-long zero (b ∷ bytes) h = absurd (omega arith)
drop-long (suc n) [] h = refl
drop-long (suc n) (b ∷ bytes) h = drop-long n bytes (omega arith)

-- A buffer is full.
length-fill : (n : ℕ) (bytes : Bytes) → length bytes ≤ n → length (fill n bytes) ≡ n
length-fill n bytes h =
    rw
      (
        take-long n bytes h,
        length-append bytes (zeros (n - length bytes)),
        length-zeros (n - length bytes),
      )
      (omega arith)

fill_idem : (n : ℕ) (bytes : Bytes) → length bytes ≤ n → fill n (fill n bytes) ≡ fill n bytes
fill_idem n bytes h =
    let full = length-fill n bytes h in
    let none_left : n - length (fill n bytes) ≡ 0 = omega arith in
    rw (take-long n (fill n bytes) (omega arith), none_left, append-nil) refl

module _ (P : Platform) (draws : ℕ) where
  write_on-fill :
      (uri : Str) (file_len : ℕ) (stream : P.Stream) (s : Session P)
      → length s.incoming ≤ file_len
      → write_on P draws uri file_len (some stream) s
        ≡ write_on P draws uri file_len
            (some stream)
            (record s { incoming = fill file_len s.incoming })
  write_on-fill uri file_len stream s few =
      let same = fill_idem file_len s.incoming few in
      let gone = drop-long file_len s.incoming few in
      let gone' =
        drop-long file_len (fill file_len s.incoming)
          (omega (arith, length-fill file_len s.incoming few)) in
      rw (same, gone, gone') refl

  -- Where a client writes to a file at another node, to which stream_for gives a connection on
  -- which a stream opens, and no more bytes come than the client announced, handle_client_write
  -- does what it does for a client that sends the bytes that came, filled up with zeros: the
  -- outcome, the daemon with all that it sent, and what the client gets are the same.
  pub handle_client_write-fill :
      (location : Location) (file_len : ℕ) (s : Session P) (connection : P.Connection)
      (stream : P.Stream) (reached opened : DaemonState P)
      → location.node_name ≢ s.daemon.local.name
      → stream_for P location.node_name s.daemon ≡ (ok (some connection), reached)
      → on_net P (P.open_bi connection) reached ≡ (ok (some stream), opened)
      → length s.incoming ≤ file_len
      → handle_client_write P draws location file_len s
        ≡ handle_client_write P draws location file_len
            (record s { incoming = fill file_len s.incoming })
  unfolding handle_client_write
  handle_client_write-fill location file_len s connection stream reached opened away known got few =
      let filled = write_on-fill location.uri file_len stream (record s { daemon = opened }) few in
      ground (arith, away, known, got, filled)
