-- ===== src/Actors/Scheduler/Replies.antt =====
-- How often a reply port of crates/actors/src/scheduler.rs is sent on.
use lasr.Base.{
  ℕ, ◌+◌, ◌≤◌, ◌≡◌, arith, String, Bool, false, List, [], ◌∷◌, ◌++◌, ◌==◌, if◌then◌else◌, nat_eq,
  string_eq,
}
use lasr.Base.Map
use lasr.Base.Map.{Map}
use lasr.Actors.Messages.{Hasher}
use lasr.Actors.Scheduler.{
  Port, Ports, TransactionResponse, send_response, call_response, async_call_response,
  transaction_error, register_program_response, SchedulerMessage, SchedulerEnv, Sent, answer,
  handle, run, reply, call, send, register_program, get_account, transaction_applied,
  send_transaction_failure, call_transaction_applied, call_transaction_failure,
  call_transaction_async_pending, registration_success, registration_failure, unhandled,
}

module _ (p : Port) where
  abbrev pub one_if : Bool → ℕ
  one_if b = if b then 1 else 0

  -- the replies on the port, the entries that hold it, and the requests that bring it
  abbrev is_reply : Sent → Bool
  is_reply (reply port _) = port == p
  is_reply _ = false

  abbrev pub replies : List Sent → ℕ
  replies [] = 0
  replies (s ∷ ss) = one_if (is_reply s) + replies ss

  abbrev pub held : Ports → ℕ
  held [] = 0
  held (x ∷ m) = one_if (x.1 == p) + held m

  abbrev pub brings : SchedulerMessage → Bool
  brings (call _ port) = port == p
  brings (send _ port) = port == p
  brings (register_program _ port) = port == p
  brings (get_account _ port) = port == p
  brings _ = false

  abbrev pub requests : List (SchedulerEnv × SchedulerMessage) → ℕ
  requests [] = 0
  requests (m ∷ ms) = one_if (brings m.1) + requests ms

  replies-append : (xs ys : List Sent) → replies (xs ++ ys) ≡ replies xs + replies ys
  replies-append [] ys = ground arith
  replies-append (x ∷ xs) ys = ground (arith, replies-append xs ys)

  held-insert :
      (k : String) (port : Port) (m : Ports)
      → held (Map.insert k port m) ≤ one_if (port == p) + held m
  unfolding Map.insert
  held-insert k port [] = ground arith
  held-insert k port (x ∷ m) = ground (arith, held-insert k port m)

  held-remove : (k : String) (m : Ports) → held (Map.remove k m) ≤ held m
  unfolding Map.remove
  held-remove k [] = ground arith
  held-remove k (x ∷ m) = ground (arith, held-remove k m)

  answer_lem :
      (k : String) (r : TransactionResponse) (m : Ports)
      → let (out, m') = answer k r m in replies out + held m' ≤ held m
  unfolding answer Map.get Map.remove
  answer_lem k r [] = ground arith
  answer_lem k r (x ∷ m) = ground (arith, answer_lem k r m, held-remove k m)

  pub handle_lem :
      ⦃h : Hasher⦄ (env : SchedulerEnv) (message : SchedulerMessage) (m : Ports)
      → let (out, m') = handle env message m in
        replies out + held m' ≤ one_if (brings message) + held m
  unfolding handle
  handle_lem ⦃h⦄ env (call tx port) m = ground (arith, held-insert (h.hash_string tx) port m)
  handle_lem ⦃h⦄ env (send tx port) m = ground (arith, held-insert (h.hash_string tx) port m)
  handle_lem ⦃h⦄ env (register_program tx port) m =
      ground (arith, held-insert (h.hash_string tx) port m)
  handle_lem env (get_account address port) m = ground arith
  handle_lem env (transaction_applied hash token) m =
      omega (arith, answer_lem hash (send_response token) m)
  handle_lem env (send_transaction_failure hash) m =
      omega (arith, answer_lem hash transaction_error m)
  handle_lem env (call_transaction_applied hash account) m =
      omega (arith, answer_lem hash (call_response account) m)
  handle_lem env (call_transaction_failure hash) m =
      omega (arith, answer_lem hash transaction_error m)
  handle_lem env (call_transaction_async_pending hash) m =
      omega (arith, answer_lem hash (async_call_response hash) m)
  handle_lem ⦃h⦄ env (registration_success tx program_id) m =
      omega (arith, answer_lem (h.hash_string tx) (register_program_response program_id) m)
  handle_lem env (registration_failure hash) m = ground arith
  handle_lem env unhandled m = ground arith

  -- Over any run of messages, in whatever environments: a port is not sent on more often than it
  -- was held at the start and brought by a request, less what is held at the end. So a client that
  -- asks once gets at most one answer, whichever answers come for its hash.
  pub run-replies :
      ⦃h : Hasher⦄ (ms : List (SchedulerEnv × SchedulerMessage)) (m : Ports)
      → let (out, m') = run ms m in replies out + held m' ≤ requests ms + held m
  unfolding run
  run-replies [] m = ground arith
  run-replies (x ∷ ms) m =
      let (out, m') = handle x.0 x.1 m in
      ground (arith, handle_lem x.0 x.1 m, run-replies ms m', replies-append out (run ms m').0)
