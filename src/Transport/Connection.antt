-- ===== src/Transport/Connection.antt =====
-- distbench-py/distbench/transport/tcp.py: the client's connection. The network is given at each
-- call: whether `drain` succeeds, and the bytes that can still be read before the stream ends.
use distributed_algo.Prelude.{
  ℕ, String, [], ◌++◌, Bool, true, false, Option, none, some, length, ltb, Result, ok, raises,
  connection_error, type_error, if◌then◌else◌, ◌>>=◌, eq_nat, Dict, get,
}
use distributed_algo.Framework.Messages.{Bytes}
use distributed_algo.Transport.Framing.{cast_marker, pack_u32, pack_u16, unpack, read_exactly}

pub record SocketAddress : Type 0 where
  pub host : String
  pub port : ℕ

-- The `writer` of a connection is open until `writer.close()`.
pub record TcpConnection : Type 0 where
  pub closed : Bool
  pub is_writer_closed : Bool

-- `TcpConnection(reader, writer)`
abbrev pub opened : TcpConnection
opened = record { closed = false; is_writer_closed = false }

-- what a call leaves: the connection, the bytes written, the result and what is still to be read
pub record Called (R : Type 0) : Type 0 where
  pub connection : TcpConnection
  pub written : Bytes
  pub result : Result R
  pub incoming : Bytes

unfoldable pub close : TcpConnection → TcpConnection
close c = if c.closed then c else record { closed = true; is_writer_closed = true }

-- the handler of a failed call
unfoldable pub give_up : {R : Type 0} → TcpConnection → Bytes → Bytes → Called R
unfolding close
give_up c written incoming = record {
  connection = close (record c { closed = true });
  written = written;
  result = raises connection_error;
  incoming = incoming;
}

abbrev pub returned : {R : Type 0} → TcpConnection → Bytes → Result R → Bytes → Called R
returned c written r incoming = record {
  connection = c;
  written = written;
  result = r;
  incoming = incoming;
}

unfoldable pub read_response : TcpConnection → Bytes → Option (Bytes × Bytes) → Called Bytes
unfolding give_up
read_response c written none = give_up c written []
read_response c written (some (response, rest)) = returned c written (ok response) rest

unfoldable pub read_length : TcpConnection → Bytes → Option (Bytes × Bytes) → Called Bytes
unfolding read_response
read_length c written none = give_up c written []
read_length c written (some (prefix, rest)) =
    if ltb 0 (unpack prefix)
    then read_response c written (read_exactly (unpack prefix) rest)
    else returned c written (ok []) rest

unfoldable pub send_packed :
    TcpConnection → Bytes → (drains : Bool) → (incoming : Bytes) → Result Bytes → Called Bytes
unfolding read_length
send_packed c m drains incoming (raises x) = returned c [] (raises x) incoming
send_packed c m false incoming (ok prefix) = give_up c (prefix ++ m) incoming
send_packed c m true incoming (ok prefix) = read_length c (prefix ++ m) (read_exactly 4 incoming)

unfoldable pub send : TcpConnection → Bytes → (drains : Bool) → (incoming : Bytes) → Called Bytes
unfolding send_packed pack_u32
send c m drains incoming =
    if c.closed
    then returned c [] (raises connection_error) incoming
    else send_packed c m drains incoming (pack_u32 (length m))

unfoldable pub cast_packed :
    TcpConnection → Bytes → (drains : Bool) → (incoming : Bytes) → Result Bytes → Called Unit
unfolding give_up
cast_packed c m drains incoming (raises x) = returned c [] (raises x) incoming
cast_packed c m false incoming (ok prefix) = give_up c (prefix ++ m) incoming
cast_packed c m true incoming (ok prefix) = returned c (prefix ++ m) (ok tt) incoming

-- the marker and the length, then the message
unfoldable pub cast : TcpConnection → Bytes → (drains : Bool) → (incoming : Bytes) → Called Unit
unfolding cast_packed pack_u32
cast c m drains incoming =
    if c.closed
    then returned c [] (raises connection_error) incoming
    else cast_packed c m drains incoming
        (do marker ← pack_u32 cast_marker; prefix ← pack_u32 (length m); ok (marker ++ prefix))

-- An address is a number of tcp.py, or some other address.
pub data Address : Type 0 where
  tcp_address : ℕ → Address
  other_address : String → Address

-- What `asyncio.open_connection` does: it opens the connection, or fails with an OSError or timeout.
pub data Opening : Type 0 where
  opens fails : Opening

unfoldable pub identify : Opening → Result Bytes → Result (TcpConnection × Bytes)
identify fails id_bytes = raises connection_error
identify opens id_bytes = do written ← id_bytes; ok (opened, written)

unfoldable pub connect_to :
    ℕ → (SocketAddress → Opening) → Option SocketAddress → Result (TcpConnection × Bytes)
unfolding identify pack_u16
connect_to id dial none = raises connection_error
connect_to id dial (some socket) = identify (dial socket) (pack_u16 id)

-- `TcpTransport.connect`: the connection, and the bytes written on it
unfoldable pub connect :
    (local_numeric_id : ℕ)
    → Dict ℕ SocketAddress
    → (SocketAddress → Opening)
    → Address
    → Result (TcpConnection × Bytes)
unfolding connect_to
connect id sockets dial (other_address a) = raises type_error
connect id sockets dial (tcp_address a) = connect_to id dial (get sockets a)
