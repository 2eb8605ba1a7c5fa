-- ===== src/Tests/TransportRun.antt =====
-- Runs of the TCP transport, and its theorems on a small server.
use distributed_algo.Prelude.{
  length, ℕ, ◌+◌, List, [], ◌∷◌, ◌++◌, true, some, leb, ok, raises, connection_error, ◌≡◌, ◌≢◌,
  refl, arith,
}
use distributed_algo.Transport.Framing.{bytes_u16, unpack, read_exactly}
use distributed_algo.Transport.Server.{
  Server, served, stopped, disconnected, out_of_fuel, handle_client,
}
use distributed_algo.Transport.Ends.{handle_client-Ends}
use distributed_algo.Transport.Requests.{Request, frame, frames, run, handle_client-run}
use distributed_algo.Transport.Connection.{opened, returned, send}
use distributed_algo.Transport.Exchange.{send-handle_client}
use distributed_algo.Transport.Failure.{Abandoned, send-Abandoned}

-- counts its messages, stops behind the second, and answers with the sender's id and the message
abbrev counter : Server ℕ
counter = record {
  is_set = λ n. leb 2 n;
  handle = λ n id m. (n + 1, ok (some (id ∷ m)));
  writes = λ w. leb (length w) 100;
}

abbrev three_requests : List Request
three_requests = Request.cast (7 ∷ []) ∷ Request.send (8 ∷ 9 ∷ []) ∷ Request.send [] ∷ []

counter_run :
    handle_client counter 0 (bytes_u16 300 ++ frames three_requests)
    ≡ served 2 (0 ∷ 0 ∷ 0 ∷ 3 ∷ 300 ∷ 8 ∷ 9 ∷ []) stopped
unfolding handle_client frames bytes_u16 read_exactly unpack
counter_run = refl

-- half a message is not handled
counter_cut : handle_client counter 0 (0 ∷ 5 ∷ 0 ∷ 0 ∷ 0 ∷ 9 ∷ 1 ∷ []) ≡ served 0 [] disconnected
unfolding handle_client read_exactly unpack
counter_cut = refl

handle_client-Ends_example :
    (handle_client counter 0 (0 ∷ 5 ∷ 255 ∷ 255 ∷ 255 ∷ 255 ∷ [])).ending ≢ out_of_fuel
handle_client-Ends_example = handle_client-Ends counter 0 (0 ∷ 5 ∷ 255 ∷ 255 ∷ 255 ∷ 255 ∷ [])

handle_client-run_example :
    handle_client counter 0 (bytes_u16 300 ++ frames three_requests)
    ≡ run counter 300 three_requests 0 []
handle_client-run_example =
    handle_client-run counter 0 300 three_requests (omega arith)
      (omega arith, (omega arith, (omega arith, tt)))

send-handle_client_example :
    send opened
      (8 ∷ 9 ∷ [])
      true
      (handle_client counter 0 (bytes_u16 5 ++ frames (Request.send (8 ∷ 9 ∷ []) ∷ []))).written
    ≡ returned opened (frame (Request.send (8 ∷ 9 ∷ []))) (ok (5 ∷ 8 ∷ 9 ∷ [])) []
send-handle_client_example =
    send-handle_client counter 5 0 1 (8 ∷ 9 ∷ []) (some (5 ∷ 8 ∷ 9 ∷ [])) (omega arith)
      (omega arith) refl refl (omega arith) refl

cut_short : (send opened (7 ∷ []) true (0 ∷ 0 ∷ [])).result ≡ raises connection_error
unfolding send read_exactly
cut_short = refl

send-Abandoned_example : Abandoned (send opened (7 ∷ []) true (0 ∷ 0 ∷ [])).connection
send-Abandoned_example = send-Abandoned (7 ∷ []) true (0 ∷ 0 ∷ []) cut_short
