-- ===== src/Transport/Ends.antt =====
-- distbench-py/distbench/transport/tcp.py: the loop of `handle_client` ends on every stream.
use distributed_algo.Prelude.{
  ℕ, zero, suc, ◌<◌, ◌≡◌, ◌≢◌, refl, arith, Bool, true, false, Option, none, some, length, Result,
  ok, raises, if-cases, nat_eqb, [],
}
use distributed_algo.Framework.Messages.{Bytes}
use distributed_algo.Transport.Framing.{cast_marker, unpack, read_exactly, length-read_exactly}
use distributed_algo.Transport.Server.{
  Server, Served, out_of_fuel, reply, write_reply, answer, on_body, on_cast, on_length, on_first,
  serve_loop, identified, handle_client,
}

abbrev IsEnd : {S : Type 0} → Served S → Type 0
IsEnd r = r.ending ≢ out_of_fuel

module _ {S : Type 0} where
  write_reply-IsEnd :
      (writes : Bytes → Bool) (r : Result Bytes) (s : S) (w : Bytes) (next : S → Bytes → Served S)
      → ((s : S) (w : Bytes) → IsEnd (next s w))
      → IsEnd (write_reply writes r s w next)
  unfolding write_reply
  write_reply-IsEnd writes (raises x) s w next h = λ e. cc
  write_reply-IsEnd writes (ok bytes) s w next h =
      if-cases IsEnd (writes w) (λ taken. h s _) (λ broken. λ e. cc)

  answer-IsEnd :
      (writes : Bytes → Bool) (is_cast : Bool) (s : S) (r : Result (Option Bytes)) (w : Bytes)
      (next : S → Bytes → Served S)
      → ((s : S) (w : Bytes) → IsEnd (next s w))
      → IsEnd (answer writes is_cast (s, r) w next)
  unfolding answer
  answer-IsEnd writes is_cast s (raises x) w next h = λ e. cc
  answer-IsEnd writes true s (ok response) w next h = h s w
  answer-IsEnd writes false s (ok response) w next h =
      write_reply-IsEnd writes (reply response) s w next h

module _ {S : Type 0} (server : Server S) (remote : ℕ) where
  abbrev EndsBelow : ℕ → (S → Bytes → Bytes → Served S) → Type 0
  EndsBelow n next = (s : S) (w rest : Bytes) → length rest < n → IsEnd (next s w rest)

  on_body-IsEnd :
      (n : ℕ) (next : S → Bytes → Bytes → Served S) (s : S) (w : Bytes) (is_cast : Bool)
      (r : Option (Bytes × Bytes))
      → EndsBelow n next
      → ((f g : Bytes) → r ≡ some (f, g) → length g < n)
      → IsEnd (on_body server remote next s w is_cast r)
  unfolding on_body
  on_body-IsEnd n next s w is_cast none h short = λ e. cc
  on_body-IsEnd n next s w is_cast (some (m, rest)) h short =
      let (s', r) = server.handle s remote m in
      answer-IsEnd server.writes is_cast s' r w (λ s w. next s w rest)
        (λ s w. h s w rest (short m rest refl))

  read-short :
      (n k : ℕ) (rest f g : Bytes)
      → length rest < n
      → read_exactly k rest ≡ some (f, g)
      → length g < n
  read-short n k rest f g h e = omega (arith, length-read_exactly k rest f g e)

  on_cast-IsEnd :
      (n : ℕ) (next : S → Bytes → Bytes → Served S) (s : S) (w : Bytes) (r : Option (Bytes × Bytes))
      → EndsBelow n next
      → ((f g : Bytes) → r ≡ some (f, g) → length g < n)
      → IsEnd (on_cast server remote next s w r)
  unfolding on_cast
  on_cast-IsEnd n next s w none h short = λ e. cc
  on_cast-IsEnd n next s w (some (prefix, rest)) h short =
      on_body-IsEnd n next s w true _ h
        (λ f g e. read-short n (unpack prefix) rest f g (short prefix rest refl) e)

  on_first-IsEnd :
      (n : ℕ) (next : S → Bytes → Bytes → Served S) (s : S) (w : Bytes) (r : Option (Bytes × Bytes))
      → EndsBelow n next
      → ((f g : Bytes) → r ≡ some (f, g) → length g < n)
      → IsEnd (on_first server remote next s w r)
  unfolding on_first on_length
  on_first-IsEnd n next s w none h short = λ e. cc
  on_first-IsEnd n next s w (some (first, rest)) h short =
      if-cases (λ (r : Served S). IsEnd r) (nat_eqb (unpack first) cast_marker)
        (λ e.
          on_cast-IsEnd n next s w _ h
            (λ f g at. read-short n 4 rest f g (short first rest refl) at))
        (λ e.
          on_body-IsEnd n next s w false _ h
            (λ f g at. read-short n (unpack first) rest f g (short first rest refl) at))

  serve_loop-IsEnd : (fuel : ℕ) → EndsBelow fuel (serve_loop server remote fuel)
  unfolding serve_loop
  serve_loop-IsEnd zero s w stream h = absurd (omega arith)
  serve_loop-IsEnd (suc fuel) s w stream h =
      if-cases (λ (r : Served S). IsEnd r) (server.is_set s) (λ e at. cc)
        (λ e.
          on_first-IsEnd fuel (serve_loop server remote fuel) s w (read_exactly 4 stream)
            (serve_loop-IsEnd fuel) (λ f g at. omega (arith, length-read_exactly 4 stream f g at)))

module _ {S : Type 0} (server : Server S) where
  identified-IsEnd : (s : S) (r : Option (Bytes × Bytes)) → IsEnd (identified server s r)
  unfolding identified
  identified-IsEnd s none = λ e. cc
  identified-IsEnd s (some (id_bytes, rest)) =
      serve_loop-IsEnd server (unpack id_bytes) (suc (length rest)) s [] rest (omega arith)

  -- Whatever bytes a client sends before it closes its stream, and whatever the node answers, the
  -- loop that serves the client ends: by the stop event, at the end of the stream, or by an exception.
  pub handle_client-Ends :
      (s : S) (stream : Bytes) → (handle_client server s stream).ending ≢ out_of_fuel
  unfolding handle_client
  handle_client-Ends s stream = identified-IsEnd s (read_exactly 2 stream)
