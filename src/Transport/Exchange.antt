-- ===== src/Transport/Exchange.antt =====
-- distbench-py/distbench/transport/tcp.py: a client and a server at the two ends of one connection.
use distributed_algo.Prelude.{
  ℕ, ◌^◌, ◌<◌, ◌≡◌, refl, arith, [], ◌∷◌, ◌++◌, Bool, true, false, Option, none, some, length, ltb,
  ok, if◌then◌else◌, if-true, ap, ◌∙◌,
}
use distributed_algo.Framework.Messages.{Bytes}
use distributed_algo.Transport.Framing.{
  cast_marker, bytes_u32, bytes_u16, pack_u32, unpack, read_exactly, unpack-bytes_u32, read_prefix,
  read_whole,
}
use distributed_algo.Transport.Server.{Server, Served, served, stopped, disconnected, handle_client}
use distributed_algo.Transport.Requests.{Request, after_send, frame, frames, run, handle_client-run}
use distributed_algo.Transport.Connection.{
  TcpConnection, opened, returned, read_response, read_length, send_packed, send,
}

-- `send` has `b""` for the answer `None`
abbrev pub response_bytes : Option Bytes → Bytes
response_bytes none = []
response_bytes (some response) = response

-- the number and the bytes behind it
abbrev reply_bytes : Option Bytes → Bytes
reply_bytes response = bytes_u32 (length (response_bytes response)) ++ response_bytes response

pack_fits : (n : ℕ) → n < 2 ^ 32 → pack_u32 n ≡ ok (bytes_u32 n)
unfolding pack_u32
pack_fits n h = ground arith

after_send_lem :
    {S : Type 0} (writes : Bytes → Bool) (s : S) (response : Option Bytes)
    (next : S → Bytes → Served S)
    → length (response_bytes response) < 2 ^ 32
    → writes [] ≡ true
    → after_send writes (s, ok response) [] next ≡ next s (reply_bytes response)
after_send_lem writes s none next h taken =
    if-true {b = writes []} _ _ taken ∙ (unfold bytes_u32 in refl)
after_send_lem writes s (some response) next h taken =
    if-true {b = ltb (length response) (2 ^ 32)} _ _ (ground (arith, h))
    ∙ if-true {b = writes []} _ _ taken

read_length_lem :
    (c : TcpConnection) (w : Bytes) (response : Bytes)
    → length response < 2 ^ 32
    → read_length c w (read_exactly 4 (bytes_u32 (length response) ++ response))
      ≡ returned c w (ok response) []
unfolding read_length read_response
read_length_lem c w [] h = unfold bytes_u32 unpack read_exactly in refl
read_length_lem c w (b ∷ bs) h =
    let n = length (b ∷ bs) in
    let unpacked = unpack-bytes_u32 n h in
    let positive : ltb 0 (unpack (bytes_u32 n)) ≡ true = ground (arith, unpacked) in
    rw (read_prefix n (b ∷ bs), positive, read_whole (b ∷ bs) (omega (arith, h))) refl

-- what `run` writes for one `send`
run-written :
    {S : Type 0} (server : Server S) (id : ℕ) (s s' : S) (m : Bytes) (response : Option Bytes)
    → server.is_set s ≡ false
    → server.handle s id m ≡ (s', ok response)
    → length (response_bytes response) < 2 ^ 32
    → server.writes [] ≡ true
    → (run server id (Request.send m ∷ []) s []).written ≡ reply_bytes response
unfolding run
run-written {S} server id s s' m response running handled fits taken =
    rw (running, handled)
      (ap (λ (v : Served S). v.written) (after_send_lem server.writes s' response _ fits taken)
        ∙ written_either (server.is_set s'))
  where
    written_either :
        (b : Bool)
        → (if b
            then served s' (reply_bytes response) stopped
            else served s' (reply_bytes response) disconnected).written
          ≡ reply_bytes response
    written_either true = refl
    written_either false = refl

-- and the state that it leaves
run-state :
    {S : Type 0} (server : Server S) (id : ℕ) (s s' : S) (m : Bytes) (response : Option Bytes)
    → server.is_set s ≡ false
    → server.handle s id m ≡ (s', ok response)
    → length (response_bytes response) < 2 ^ 32
    → server.writes [] ≡ true
    → (run server id (Request.send m ∷ []) s []).state ≡ s'
unfolding run
run-state {S} server id s s' m response running handled fits taken =
    rw (running, handled)
      (ap (λ (v : Served S). v.state) (after_send_lem server.writes s' response _ fits taken)
        ∙ state_either (server.is_set s'))
  where
    state_either :
        (b : Bool)
        → (if b
            then served s' (reply_bytes response) stopped
            else served s' (reply_bytes response) disconnected).state
          ≡ s'
    state_either true = refl
    state_either false = refl

-- The state behind the exchange below is the one that the node leaves.
pub handle_client-state :
    {S : Type 0} (server : Server S) (id : ℕ) (s s' : S) (m : Bytes) (response : Option Bytes)
    → id < 2 ^ 16
    → length m < cast_marker
    → server.is_set s ≡ false
    → server.handle s id m ≡ (s', ok response)
    → length (response_bytes response) < 2 ^ 32
    → server.writes [] ≡ true
    → (handle_client server s (bytes_u16 id ++ frames (Request.send m ∷ []))).state ≡ s'
handle_client-state server id s s' m response id_fits fits running handled response_fits taken =
    rw (handle_client-run server s id (Request.send m ∷ []) id_fits (fits, tt))
      (run-state server id s s' m response running handled response_fits taken)

send_reads :
    (m response : Bytes)
    → length m < 2 ^ 32
    → length response < 2 ^ 32
    → send opened m true (bytes_u32 (length response) ++ response)
      ≡ returned opened (bytes_u32 (length m) ++ m) (ok response) []
unfolding send send_packed
send_reads m response h fits =
    rw (pack_fits (length m) h) (read_length_lem opened (bytes_u32 (length m) ++ m) response fits)

-- A node that is not stopped, and answers a client's message, answers it through the connection: the
-- bytes that the server writes, on reading the client's id and the bytes that `send` writes, are
-- such that this `send` returns the node's response (`b""` for None), with the connection open and
-- nothing left to read. The connection takes the reply, the id fits in 16 bits, the response's length in 32, and the message is
-- shorter than the mark of a `cast`.
pub send-handle_client :
    {S : Type 0} (server : Server S) (id : ℕ) (s s' : S) (m : Bytes) (response : Option Bytes)
    → id < 2 ^ 16
    → length m < cast_marker
    → server.is_set s ≡ false
    → server.handle s id m ≡ (s', ok response)
    → length (response_bytes response) < 2 ^ 32
    → server.writes [] ≡ true
    → send opened m true
        (handle_client server s (bytes_u16 id ++ frames (Request.send m ∷ []))).written
      ≡ returned opened (frame (Request.send m)) (ok (response_bytes response)) []
unfolding frame
send-handle_client server id s s' m response id_fits fits running handled response_fits taken =
    let wire : (handle_client server s (bytes_u16 id ++ frames (Request.send m ∷ []))).written
        ≡ reply_bytes response =
      rw (handle_client-run server s id (Request.send m ∷ []) id_fits (fits, tt))
        (run-written server id s s' m response running handled response_fits taken) in
    rw wire (send_reads m (response_bytes response) (omega (arith, fits)) response_fits)
