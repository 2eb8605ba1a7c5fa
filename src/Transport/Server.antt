-- ===== src/Transport/Server.antt =====
-- distbench-py/distbench/transport/tcp.py: `handle_client`, which serves one connection. The bytes
-- that the client sends, up to the end of its stream, are given. The node that answers is a
-- parameter: the state `S` of the program, a message that changes it, and the stop event in it.
use distributed_algo.Prelude.{
  ℕ, zero, suc, [], ◌++◌, nat_eqb, Bool, true, false, Option, none, some, if◌then◌else◌, length,
  Result, ok, raises, Exception, connection_error, ◌>>=◌,
}
use distributed_algo.Framework.Messages.{Bytes}
use distributed_algo.Transport.Framing.{cast_marker, pack_u32, unpack, read_exactly}

pub record Server (S : Type 0) : Type 0 where
  pub is_set : S → Bool
  -- `server.handle(address, message)`
  pub handle : S → ℕ → Bytes → S × Result (Option Bytes)
  -- whether the connection takes a reply behind the bytes that were written to it
  pub writes : Bytes → Bool

-- How the loop ends; the connection is closed behind each of them. The last one is the model's.
pub data Ending : Type 0 where
  stopped disconnected : Ending
  failed : Exception → Ending
  out_of_fuel : Ending

-- the state, the bytes written to the client, and the end
pub record Served (S : Type 0) : Type 0 where
  pub state : S
  pub written : Bytes
  pub ending : Ending

abbrev pub served : {S : Type 0} → S → Bytes → Ending → Served S
served s w e = record { state = s; written = w; ending = e }

-- the bytes that answer a `send`, if their number can be packed
unfoldable pub reply : Option Bytes → Result Bytes
unfolding pack_u32
reply none = pack_u32 0
reply (some response) = do prefix ← pack_u32 (length response); ok (prefix ++ response)

-- `next` is the loop behind the round, from the state, the bytes written and the rest of the stream
unfoldable pub write_reply :
    {S : Type 0} → (Bytes → Bool) → Result Bytes → S → Bytes → (S → Bytes → Served S) → Served S
write_reply writes (raises x) s w next = served s w (failed x)
write_reply writes (ok bytes) s w next =
    if writes w then next s (w ++ bytes) else served s w (failed connection_error)

-- the round behind the call of `handle`: a `cast` has no answer
unfoldable pub answer :
    {S : Type 0}
    → (Bytes → Bool)
    → (is_cast : Bool) → S × Result (Option Bytes)
    → Bytes
    → (S → Bytes → Served S)
    → Served S
unfolding reply write_reply
answer writes is_cast (s, raises x) w next = served s w (failed x)
answer writes true (s, ok response) w next = next s w
answer writes false (s, ok response) w next = write_reply writes (reply response) s w next

module _ {S : Type 0} (server : Server S) (remote : ℕ) where
  unfoldable pub on_body :
      (next : S → Bytes → Bytes → Served S) → S → Bytes → Bool → Option (Bytes × Bytes) → Served S
  unfolding answer
  on_body next s w is_cast none = served s w disconnected
  on_body next s w is_cast (some (message, rest)) =
      answer server.writes is_cast (server.handle s remote message) w (λ s w. next s w rest)

  unfoldable pub on_cast :
      (S → Bytes → Bytes → Served S) → S → Bytes → Option (Bytes × Bytes) → Served S
  unfolding on_body
  on_cast next s w none = served s w disconnected
  on_cast next s w (some (prefix, rest)) = on_body next s w true (read_exactly (unpack prefix) rest)

  unfoldable pub on_length : (S → Bytes → Bytes → Served S) → S → Bytes → ℕ → Bytes → Served S
  unfolding on_body on_cast
  on_length next s w value rest =
      if nat_eqb value cast_marker
      then on_cast next s w (read_exactly 4 rest)
      else on_body next s w false (read_exactly value rest)

  unfoldable pub on_first :
      (S → Bytes → Bytes → Served S) → S → Bytes → Option (Bytes × Bytes) → Served S
  unfolding on_length
  on_first next s w none = served s w disconnected
  on_first next s w (some (first, rest)) = on_length next s w (unpack first) rest

  -- the loop, of which `fuel` bounds the rounds
  unfoldable pub serve_loop : (fuel : ℕ) → S → Bytes → Bytes → Served S
  unfolding on_first
  serve_loop zero s w stream = served s w out_of_fuel
  serve_loop (suc fuel) s w stream =
      if server.is_set s
      then served s w stopped
      else on_first (serve_loop fuel) s w (read_exactly 4 stream)

module _ {S : Type 0} (server : Server S) where
  -- the loop behind the two bytes with the client's id
  unfoldable pub identified : S → Option (Bytes × Bytes) → Served S
  unfolding serve_loop
  identified s none = served s [] disconnected
  identified s (some (id_bytes, rest)) =
      serve_loop server (unpack id_bytes) (suc (length rest)) s [] rest

  unfoldable pub handle_client : S → Bytes → Served S
  unfolding identified
  handle_client s stream = identified s (read_exactly 2 stream)
