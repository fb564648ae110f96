-- ===== src/Wire/Frames.antt =====
-- A message that was sent is received, and one that the end of the stream cuts off is not.
use vpfs_iroh.Base.{
  ℕ, ◌+◌, ◌≤◌, ◌<◌, ◌^◌, Bool, true, none, some, ◌++◌, length, take, drop, length-append,
  take-length_append, take-append, length-drop, drop-length_append, append_assoc, ◌≡◌, sym, ap, ◌∙◌,
  arith, ok,
}
use native.Mathlib.Decide.{dec_le}
use vpfs_iroh.Codec.{Codec, IsLawful}
use vpfs_iroh.Files.{Bytes}
use vpfs_iroh.Platform.{Platform}
use vpfs_iroh.State.{DaemonState}
use vpfs_iroh.Wire.{to_be_bytes, from_be_bytes, send_message, receive_message}
use vpfs_iroh.Wire.Numbers.{length-to_be_bytes, from_be_bytes-to_be_bytes}

-- The bytes of a message on a stream.
abbrev pub frame : {A : Type 0} → Codec A → A → Bytes
frame codec message = to_be_bytes 8 (length (codec.to_vec message)) ++ codec.to_vec message

-- The documented behaviour of iroh's streams. `incoming` is the bytes that have arrived, and
-- `finished` tells whether the other side has finished the stream, so that none follow. `read_exact`
-- gives the next bytes where they have arrived, and fails where the stream is finished before them.
-- Else it waits, and what comes of that is left open. `write_all` that succeeds adds its bytes behind
-- the others.
pub record IsStream (P : Platform) (incoming outgoing : P.Stream → P.Net → Bytes)
    (finished : P.Stream → P.Net → Bool) : Type 0 where
  pub read_enough :
      (stream : P.Stream) (n : ℕ) (net : P.Net)
      → n ≤ length (incoming stream net)
      → ((P.read_exact stream n net).0 ≡ some (take n (incoming stream net)))
        × (incoming stream (P.read_exact stream n net).1 ≡ drop n (incoming stream net))
        × (finished stream (P.read_exact stream n net).1 ≡ finished stream net)
  pub read_short :
      (stream : P.Stream) (n : ℕ) (net : P.Net)
      → finished stream net ≡ true
      → length (incoming stream net) < n
      → (P.read_exact stream n net).0 ≡ none
  pub written :
      (stream : P.Stream) (bytes : Bytes) (net : P.Net)
      → (P.write_all stream bytes net).0 ≡ true
      → outgoing stream (P.write_all stream bytes net).1 ≡ outgoing stream net ++ bytes

take-size : (size payload : Bytes) → length size ≡ 8 → take 8 (size ++ payload) ≡ size
take-size size payload eight =
    ap (λ n. take n (size ++ payload)) (sym eight) ∙ take-length_append size payload

module _ (P : Platform) (incoming outgoing : P.Stream → P.Net → Bytes)
    (finished : P.Stream → P.Net → Bool) (S : IsStream P incoming outgoing finished) where
  -- A read of the first of two parts.
  read_part :
      (stream : P.Stream) (net : P.Net) (part rest : Bytes) (n : ℕ)
      → incoming stream net ≡ part ++ rest
      → length part ≡ n
      → ((P.read_exact stream n net).0 ≡ some part)
        × (incoming stream (P.read_exact stream n net).1 ≡ rest)
  read_part stream net part rest n arrived size =
      let (got, left, _) =
        S.read_enough stream n net (omega (arith, ap length arrived, length-append part rest)) in
      (
        got ∙ rw (arrived, ← size, take-length_append part rest),
        left ∙ rw (arrived, ← size, drop-length_append part rest),
      )

  -- With a lawful encoding and a network that meets IsStream, on a stream where the length and
  -- the encoding of a message have arrived, whatever follows, and where the length of the
  -- encoding fits in eight bytes, receive_message returns the message, leaves what follows on the
  -- stream, and changes nothing of the daemon but the network.
  pub receive_message-frame :
      {A : Type 0} (codec : Codec A) (lawful : IsLawful codec) (stream : P.Stream)
      (s : DaemonState P) (message : A) (rest : Bytes)
      → incoming stream s.net ≡ frame codec message ++ rest
      → length (codec.to_vec message) < 256 ^ 8
      → (net : P.Net) × (receive_message P codec stream s
          ≡ (ok (some message), record s { net = net }))
        × (incoming stream net ≡ rest)
  unfolding receive_message
  receive_message-frame codec lawful stream s message rest arrived fits =
      let payload = codec.to_vec message in
      let size = to_be_bytes 8 (length payload) in
      let (got_size, left) =
        read_part stream s.net size (payload ++ rest) 8 (arrived ∙ append_assoc size payload rest)
          (length-to_be_bytes 8 (length payload)) in
      let net1 = (P.read_exact stream 8 s.net).1 in
      let count = from_be_bytes-to_be_bytes 8 (length payload) fits in
      let (got, left') =
        read_part stream net1 payload rest (from_be_bytes 0 size) left (sym count) in
      (
        (P.read_exact stream (from_be_bytes 0 size) net1).1,
        ground (arith, got_size, got, lawful.read_slice message),
        left',
      )

  -- With a network that meets IsStream, on a stream that the other side has finished, where only
  -- a proper start of the length and the encoding of a message has arrived, and the length of the
  -- encoding fits in eight bytes, receive_message returns an error.
  pub receive_message-short :
      {A : Type 0} (codec : Codec A) (stream : P.Stream) (s : DaemonState P) (message : A)
      (missing : Bytes)
      → finished stream s.net ≡ true
      → incoming stream s.net ++ missing ≡ frame codec message
      → 0 < length missing
      → length (codec.to_vec message) < 256 ^ 8
      → (receive_message P codec stream s).0 ≡ ok none
  unfolding receive_message
  receive_message-short codec stream s message missing ended cut some_missing fits =
      let payload = codec.to_vec message in
      let size = to_be_bytes 8 (length payload) in
      let here = incoming stream s.net in
      let eight = length-to_be_bytes 8 (length payload) in
      let sizes : length here + length missing ≡ 8 + length payload =
        omega
          (arith, ap length cut, length-append here missing, length-append size payload, eight) in
      elim (dec_le 8 (length here)) [
        | no few ↦ ground (arith, S.read_short stream 8 s.net ended (omega arith))
        | yes enough ↦
            let (got, left, still) = S.read_enough stream 8 s.net enough in
            let first : take 8 here ≡ size =
              sym (take-append 8 here missing enough)
              ∙ ap (take 8) cut
              ∙ take-size size payload eight in
            let net1 = (P.read_exact stream 8 s.net).1 in
            let count = from_be_bytes-to_be_bytes 8 (length payload) fits in
            let none_left =
              S.read_short stream (from_be_bytes 0 size) net1 (still ∙ ended)
                (omega (arith, ap length left, length-drop 8 here, count)) in
            ground (arith, got, first, none_left)
      ]

  -- With a network that meets IsStream, where send_message succeeds, the length and the encoding
  -- of the message are behind what was sent on the stream before.
  send_message-frame :
      {A : Type 0} (codec : Codec A) (stream : P.Stream) (s : DaemonState P) (message : A)
      → (send_message P codec stream message s).0 ≡ ok true
      → outgoing stream (send_message P codec stream message s).1.net
        ≡ outgoing stream s.net ++ frame codec message
  unfolding send_message
  send_message-frame codec stream s message sent =
      let payload = codec.to_vec message in
      let size = to_be_bytes 8 (length payload) in
      let net1 = (P.write_all stream size s.net).1 in
      ground (
        arith,
        S.written stream size s.net,
        S.written stream payload net1,
        append_assoc (outgoing stream s.net) size payload,
      )
