-- ===== src/Transport/Framing.antt =====
-- distbench-py/distbench/transport/tcp.py: numbers in the byte stream, which are big-endian and of
-- two or four bytes, and reads from a stream that has an end.
use distributed_algo.Prelude.{
  ℕ, zero, suc, ◌+◌, ◌*◌, ◌/◌, ◌%◌, ◌^◌, ◌≤◌, ◌<◌, [], ◌∷◌, ◌++◌, ◌≡◌, refl, arith, ltb, Option,
  none, some, if◌then◌else◌, length, Result, ok, raises, struct_error,
}
use mathlib.Core.List.{append-nil}
use distributed_algo.Framework.Messages.{Bytes}

-- 0xFFFFFFFF
abbrev pub cast_marker : ℕ
cast_marker = 4294967295

-- the four bytes of `struct.pack("!I", n)`, and the two of `struct.pack("!H", n)`
unfoldable pub bytes_u32 : ℕ → Bytes
bytes_u32 n = n / 16777216 % 256 ∷ n / 65536 % 256 ∷ n / 256 % 256 ∷ n % 256 ∷ []

unfoldable pub pack_u32 : ℕ → Result Bytes
unfolding bytes_u32
pack_u32 n = if ltb n (2 ^ 32) then ok (bytes_u32 n) else raises struct_error

unfoldable pub bytes_u16 : ℕ → Bytes
bytes_u16 n = n / 256 % 256 ∷ n % 256 ∷ []

unfoldable pub pack_u16 : ℕ → Result Bytes
unfolding bytes_u16
pack_u16 n = if ltb n (2 ^ 16) then ok (bytes_u16 n) else raises struct_error

-- `struct.unpack`, on as many bytes as were packed
unfoldable pub unpack_from : ℕ → Bytes → ℕ
unpack_from n [] = n
unpack_from n (b ∷ bs) = unpack_from (n * 256 + b) bs

unfoldable pub unpack : Bytes → ℕ
unfolding unpack_from
unpack bs = unpack_from 0 bs

unfoldable pub before : ℕ → Option (Bytes × Bytes) → Option (Bytes × Bytes)
before b none = none
before b (some (front, back)) = some (b ∷ front, back)

-- `reader.readexactly(n)` on a stream that ends: the bytes and the rest, or IncompleteReadError
unfoldable pub read_exactly : ℕ → Bytes → Option (Bytes × Bytes)
unfolding before
read_exactly zero stream = some ([], stream)
read_exactly (suc n) [] = none
read_exactly (suc n) (b ∷ stream) = before b (read_exactly n stream)

pub read_exactly-append :
    (front back : Bytes) → read_exactly (length front) (front ++ back) ≡ some (front, back)
unfolding read_exactly before
read_exactly-append [] back = refl
read_exactly-append (b ∷ front) back = rw (read_exactly-append front back) refl

length-before :
    (n : ℕ) (b : ℕ) (stream front back : Bytes) (r : Option (Bytes × Bytes))
    → ((f g : Bytes) → r ≡ some (f, g) → length stream ≡ n + length g)
    → before b r ≡ some (front, back)
    → length (b ∷ stream) ≡ suc n + length back
unfolding before
length-before n b stream front back none later e = ground arith
length-before n b stream front back (some (f, g)) later e = ground (arith, later f g refl)

-- What is read is not read again.
pub length-read_exactly :
    (n : ℕ) (stream front back : Bytes)
    → read_exactly n stream ≡ some (front, back)
    → length stream ≡ n + length back
unfolding read_exactly before
length-read_exactly zero stream front back e = ground arith
length-read_exactly (suc n) [] front back e = ground arith
length-read_exactly (suc n) (b ∷ stream) front back e =
    length-before n b stream front back (read_exactly n stream) (length-read_exactly n stream) e

pub unpack-bytes_u32 : (n : ℕ) → n < 2 ^ 32 → unpack (bytes_u32 n) ≡ n
unfolding unpack unpack_from bytes_u32
unpack-bytes_u32 n h = omega arith

pub unpack-bytes_u16 : (n : ℕ) → n < 2 ^ 16 → unpack (bytes_u16 n) ≡ n
unfolding unpack unpack_from bytes_u16
unpack-bytes_u16 n h = omega arith

pub read_prefix :
    (n : ℕ) (rest : Bytes) → read_exactly 4 (bytes_u32 n ++ rest) ≡ some (bytes_u32 n, rest)
unfolding bytes_u32
read_prefix n rest = read_exactly-append (bytes_u32 n) rest

pub read_id :
    (n : ℕ) (rest : Bytes) → read_exactly 2 (bytes_u16 n ++ rest) ≡ some (bytes_u16 n, rest)
unfolding bytes_u16
read_id n rest = read_exactly-append (bytes_u16 n) rest

pub read_body :
    (m rest : Bytes)
    → length m ≤ cast_marker
    → read_exactly (unpack (bytes_u32 (length m))) (m ++ rest) ≡ some (m, rest)
read_body m rest h =
    rw (unpack-bytes_u32 (length m) (omega (arith, h))) (read_exactly-append m rest)

pub read_whole :
    (m : Bytes)
    → length m ≤ cast_marker
    → read_exactly (unpack (bytes_u32 (length m))) m ≡ some (m, [])
read_whole m h = rw append-nil at (read_body m [] h)
