-- ===== src/Transport/Failure.antt =====
-- distbench-py/distbench/transport/tcp.py: what a call that fails leaves of the client's connection.
use distributed_algo.Prelude.{
  ℕ, ◌≡◌, ◌≢◌, refl, arith, [], ◌++◌, length, Bool, true, false, Option, none, some, ltb, Result,
  ok, raises, Exception, connection_error, if-cases, ◌>>=◌,
}
use distributed_algo.Framework.Messages.{Bytes}
use distributed_algo.Transport.Framing.{cast_marker, pack_u32, unpack, read_exactly}
use distributed_algo.Transport.Connection.{
  TcpConnection, opened, Called, returned, close, give_up, read_response, read_length, send_packed,
  send, cast_packed, cast,
}

-- A call that raises a ConnectionError has marked the connection, and not closed its writer.
abbrev pub GivesUp : {R : Type 0} → Called R → Type 0
GivesUp r =
    r.result ≡ raises connection_error
    → (r.connection.closed ≡ true) × (r.connection.is_writer_closed ≡ false)

same_raise :
    (A B : Type 0) (x : Exception)
    → ◌≡◌ {A = Result A} (raises x) (raises connection_error)
    → ◌≡◌ {A = Result B} (raises x) (raises connection_error)
same_raise A B x e = cc

module _ (c : TcpConnection) (is_open : c.is_writer_closed ≡ false) where
  give_up-GivesUp : {R : Type 0} (w incoming : Bytes) → GivesUp (give_up {R = R} c w incoming)
  unfolding give_up close
  give_up-GivesUp w incoming e = (refl, is_open)

  read_response-GivesUp : (w : Bytes) (r : Option (Bytes × Bytes)) → GivesUp (read_response c w r)
  unfolding read_response
  read_response-GivesUp w none e = give_up-GivesUp {R = Bytes} w [] e
  read_response-GivesUp w (some (response, rest)) e = absurd (cc)

  read_length-GivesUp : (w : Bytes) (r : Option (Bytes × Bytes)) → GivesUp (read_length c w r)
  unfolding read_length
  read_length-GivesUp w none = give_up-GivesUp {R = Bytes} w []
  read_length-GivesUp w (some (prefix, rest)) =
      if-cases (λ (r : Called Bytes). GivesUp r) (ltb 0 (unpack prefix))
        (λ h. read_response-GivesUp w (read_exactly (unpack prefix) rest)) (λ h e. absurd (cc))

  send_packed-GivesUp :
      (m : Bytes) (drains : Bool) (incoming : Bytes) (r : Result Bytes)
      → r ≢ raises connection_error
      → GivesUp (send_packed c m drains incoming r)
  unfolding send_packed
  send_packed-GivesUp m drains incoming (raises x) h e = absurd (h e)
  send_packed-GivesUp m false incoming (ok prefix) h e =
      give_up-GivesUp {R = Bytes} (prefix ++ m) incoming e
  send_packed-GivesUp m true incoming (ok prefix) h e =
      read_length-GivesUp (prefix ++ m) (read_exactly 4 incoming) e

  cast_packed-GivesUp :
      (m : Bytes) (drains : Bool) (incoming : Bytes) (r : Result Bytes)
      → r ≢ raises connection_error
      → GivesUp (cast_packed c m drains incoming r)
  unfolding cast_packed
  cast_packed-GivesUp m drains incoming (raises x) h e = absurd (h (same_raise Unit Bytes x e))
  cast_packed-GivesUp m false incoming (ok prefix) h e =
      give_up-GivesUp {R = Unit} (prefix ++ m) incoming e
  cast_packed-GivesUp m true incoming (ok prefix) h e = absurd (cc)

pack_u32-ne : (n : ℕ) → pack_u32 n ≢ raises connection_error
unfolding pack_u32
pack_u32-ne n e = ground arith

prefixes-ne :
    (a b : Result Bytes)
    → a ≢ raises connection_error
    → b ≢ raises connection_error
    → (do marker ← a; prefix ← b; ok (marker ++ prefix)) ≢ raises connection_error
prefixes-ne (raises x) b h k e = absurd (h e)
prefixes-ne (ok v) (raises x) h k e = absurd (k e)
prefixes-ne (ok v) (ok u) h k e = absurd (cc)

-- What the handler leaves for the next calls: `send` and `cast` raise and write nothing, and `close`
-- does nothing, so that the writer stays open.
abbrev pub Abandoned : TcpConnection → Type 0
Abandoned c =
    (m : Bytes) (drains : Bool) (incoming : Bytes)
    → (send c m drains incoming ≡ returned c [] (raises connection_error) incoming)
      × (cast c m drains incoming ≡ returned c [] (raises connection_error) incoming)
      × (close c ≡ c)
      × (c.is_writer_closed ≡ false)

closed-Abandoned :
    (c : TcpConnection) → (c.closed ≡ true) × (c.is_writer_closed ≡ false) → Abandoned c
unfolding send cast close
closed-Abandoned c (marked, is_open) m drains incoming =
    (rw marked refl, rw marked refl, rw marked refl, is_open)

-- When a `send` on an open connection raises a ConnectionError, every later `send` and `cast` on it
-- raises a ConnectionError and writes nothing, and `close` never closes its writer.
pub send-Abandoned :
    (m : Bytes) (drains : Bool) (incoming : Bytes)
    → (send opened m drains incoming).result ≡ raises connection_error
    → Abandoned (send opened m drains incoming).connection
unfolding send
send-Abandoned m drains incoming e = closed-Abandoned _ (
    send_packed-GivesUp opened refl m drains incoming (pack_u32 (length m)) (pack_u32-ne (length m))
      e)

-- The same behind a `cast` that raises a ConnectionError.
pub cast-Abandoned :
    (m : Bytes) (drains : Bool) (incoming : Bytes)
    → (cast opened m drains incoming).result ≡ raises connection_error
    → Abandoned (cast opened m drains incoming).connection
unfolding cast
cast-Abandoned m drains incoming e = closed-Abandoned _ (
    cast_packed-GivesUp opened refl m drains incoming _
      (prefixes-ne (pack_u32 cast_marker) (pack_u32 (length m)) (pack_u32-ne cast_marker)
        (pack_u32-ne (length m)))
      e)
