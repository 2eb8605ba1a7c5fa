-- ===== src/Transport/Requests.antt =====
-- distbench-py/distbench/transport/tcp.py: the client's side of the stream, and what the server
-- makes of the requests of a client.
use distributed_algo.Prelude.{
  ℕ, zero, suc, ◌^◌, ◌≤◌, ◌<◌, ◌≡◌, refl, sym, subst, ◌∙◌, arith, List, [], ◌∷◌, ◌++◌, Bool, true,
  false, Option, length, length-append, Result, ok, raises, if◌then◌else◌, All, nat_eqb, ltb, some,
  none, Bool-cases, inl, inr, struct_error, connection_error,
}
use mathlib.Core.List.{append_assoc}
use distributed_algo.Framework.Messages.{Bytes}
use distributed_algo.Transport.Framing.{
  cast_marker, bytes_u32, bytes_u16, unpack-bytes_u16, unpack, read_exactly, unpack-bytes_u32,
  pack_u32, read_prefix, read_id, read_body,
}
use distributed_algo.Transport.Server.{
  Server, Served, served, stopped, disconnected, failed, answer, write_reply, reply, on_body,
  on_cast, on_length, on_first, serve_loop, identified, handle_client,
}

pub data Request : Type 0 where
  send cast : Bytes → Request

-- what `send` and `cast` write
unfoldable pub frame : Request → Bytes
unfolding bytes_u32
frame (send m) = bytes_u32 (length m) ++ m
frame (cast m) = bytes_u32 cast_marker ++ (bytes_u32 (length m) ++ m)

unfoldable pub frames : List Request → Bytes
unfolding frame
frames [] = []
frames (q ∷ qs) = frame q ++ frames qs

-- The length of a `send` is not the number that marks a `cast`, and every length fits in 32 bits.
abbrev pub IsFramable : Request → Type 0
IsFramable (send m) = length m < cast_marker
IsFramable (cast m) = length m ≤ cast_marker

-- what a handled `cast` leaves, with what follows: nothing is written
abbrev pub after_cast :
    {S : Type 0} → S × Result (Option Bytes) → Bytes → (S → Bytes → Served S) → Served S
after_cast (s, raises x) w next = served s w (failed x)
after_cast (s, ok response) w next = next s w

-- what a handled `send` leaves: the length of the response and the response are written, with no
-- response as an empty one, if the connection takes them; a response whose length takes more
-- than 32 bits is an error
abbrev pub after_send :
    {S : Type 0}
    → (Bytes → Bool)
    → S × Result (Option Bytes)
    → Bytes
    → (S → Bytes → Served S)
    → Served S
after_send writes (s, raises x) w next = served s w (failed x)
after_send writes (s, ok none) w next =
    if writes w then next s (w ++ bytes_u32 0) else served s w (failed connection_error)
after_send writes (s, ok (some response)) w next =
    if ltb (length response) (2 ^ 32)
    then (if writes w
        then next s (w ++ (bytes_u32 (length response) ++ response))
        else served s w (failed connection_error))
    else served s w (failed struct_error)

module _ {S : Type 0} (server : Server S) (remote : ℕ) where
  -- The promise of the transport: a connection is a sequence of requests, each of which the node
  -- handles whole and answers before the next.
  unfoldable pub run : List Request → S → Bytes → Served S
  run [] s w = if server.is_set s then served s w stopped else served s w disconnected
  run (send m ∷ qs) s w =
      let rest = run qs in
      if server.is_set s
      then served s w stopped
      else after_send server.writes (server.handle s remote m) w rest
  run (cast m ∷ qs) s w =
      let rest = run qs in
      if server.is_set s then served s w stopped else after_cast (server.handle s remote m) w rest

if_first :
    {A : Type 0} (b : Bool) (z : A) {x y : A} → x ≡ y → (if b then x else z) ≡ (if b then y else z)
if_first b z e = rw e refl

answer-after_cast :
    {S : Type 0} (writes : Bytes → Bool) (s : S) (r : Result (Option Bytes)) (w : Bytes)
    (f g : S → Bytes → Served S)
    → ((s : S) (w : Bytes) → f s w ≡ g s w)
    → answer writes true (s, r) w f ≡ after_cast (s, r) w g
unfolding answer
answer-after_cast writes s (raises x) w f g h = refl
answer-after_cast writes s (ok response) w f g h = h s w

answer-after_send :
    {S : Type 0} (writes : Bytes → Bool) (s : S) (r : Result (Option Bytes)) (w : Bytes)
    (f g : S → Bytes → Served S)
    → ((s : S) (w : Bytes) → f s w ≡ g s w)
    → answer writes false (s, r) w f ≡ after_send writes (s, r) w g
unfolding answer reply write_reply pack_u32
answer-after_send writes s (raises x) w f g h = refl
answer-after_send writes s (ok none) w f g h = if_first (writes w) _ (h s _)
answer-after_send writes s (ok (some response)) w f g h =
    elim (Bool-cases (ltb (length response) (2 ^ 32))) [
      | inl fits ↦ rw fits (if_first (writes w) _ (h s _))
      | inr long ↦ rw long refl
    ]

module _ {S : Type 0} (server : Server S) (remote : ℕ) where
  send_round :
      (next : S → Bytes → Bytes → Served S) (s : S) (w m rest : Bytes)
      → length m < cast_marker
      → on_first server remote next s w (read_exactly 4 (frame (send m) ++ rest))
        ≡ answer server.writes false (server.handle s remote m) w (λ s w. next s w rest)
  unfolding frame on_first on_length on_body
  send_round next s w m rest h =
      let body = read_body m rest (omega (arith, h)) in
      let is_length : nat_eqb (unpack (bytes_u32 (length m))) cast_marker ≡ false =
        ground (arith, unpack-bytes_u32 (length m) (omega (arith, h)), h) in
      rw
        (
          append_assoc (bytes_u32 (length m)) m rest,
          read_prefix (length m) (m ++ rest),
          is_length,
          body,
        )
        refl

  cast_round :
      (next : S → Bytes → Bytes → Served S) (s : S) (w m rest : Bytes)
      → length m ≤ cast_marker
      → on_first server remote next s w (read_exactly 4 (frame (cast m) ++ rest))
        ≡ answer server.writes true (server.handle s remote m) w (λ s w. next s w rest)
  unfolding frame on_first on_length on_cast on_body
  cast_round next s w m rest h =
      let is_marker : nat_eqb (unpack (bytes_u32 cast_marker)) cast_marker ≡ true =
        ground (arith, unpack-bytes_u32 cast_marker (omega arith)) in
      rw
        (
          append_assoc (bytes_u32 cast_marker) (bytes_u32 (length m) ++ m) rest,
          append_assoc (bytes_u32 (length m)) m rest,
          read_prefix cast_marker (bytes_u32 (length m) ++ (m ++ rest)),
          is_marker,
          read_prefix (length m) (m ++ rest),
          read_body m rest h,
        )
        refl

  if_same :
      {A : Type 0} (b : Bool) (x : A) {y z : A}
      → y ≡ z
      → (if b then x else y) ≡ (if b then x else z)
  if_same b x e = rw e refl

  shorter :
      (q : Request) (qs : List Request) (fuel : ℕ)
      → length (frames (q ∷ qs)) < suc fuel
      → length (frames qs) < fuel
  unfolding frames frame bytes_u32
  shorter (send m) qs fuel h = omega (arith, length-append m (frames qs), h)
  shorter (cast m) qs fuel h = omega (arith, length-append m (frames qs), h)

  serve_loop-run :
      (qs : List Request) (fuel : ℕ) (s : S) (w : Bytes)
      → length (frames qs) < fuel
      → All IsFramable qs
      → serve_loop server remote fuel s w (frames qs) ≡ run server remote qs s w
  unfolding serve_loop run frames
  serve_loop-run qs zero s w h framable = absurd (omega arith)
  serve_loop-run [] (suc fuel) s w h framable = unfold on_first read_exactly in refl
  serve_loop-run (send m ∷ qs) (suc fuel) s w h (fits, later) =
      let (s', r) = server.handle s remote m in
      if_same (server.is_set s) _ (
        send_round (serve_loop server remote fuel) s w m (frames qs) fits
        ∙ answer-after_send server.writes s' r w _ _
            (λ s w. serve_loop-run qs fuel s w (shorter (send m) qs fuel h) later))
  serve_loop-run (cast m ∷ qs) (suc fuel) s w h (fits, later) =
      let (s', r) = server.handle s remote m in
      if_same (server.is_set s) _ (
        cast_round (serve_loop server remote fuel) s w m (frames qs) fits
        ∙ answer-after_cast server.writes s' r w _ _
            (λ s w. serve_loop-run qs fuel s w (shorter (cast m) qs fuel h) later))

-- On the bytes that a client writes, its id and then its requests one behind the other, the server's
-- loop over bytes does what the sequence of requests does: each message arrives whole and in order,
-- with the sender's id, each `send` and no `cast` is answered, with the length of the response and
-- the response, up to the stop event or an exception.
-- The id fits in 16 bits, and each length in 32, for a `send` below the mark of a `cast`.
pub handle_client-run :
    {S : Type 0} (server : Server S) (s : S) (id : ℕ) (qs : List Request)
    → id < 2 ^ 16
    → All IsFramable qs
    → handle_client server s (bytes_u16 id ++ frames qs) ≡ run server id qs s []
unfolding handle_client identified
handle_client-run server s id qs fits framable = rw (read_id id (frames qs)) (
    subst
      (λ n. serve_loop server n (suc (length (frames qs))) s [] (frames qs) ≡ run server id qs s [])
      (sym (unpack-bytes_u16 id fits))
      (serve_loop-run server id qs (suc (length (frames qs))) s [] (omega arith) framable))
