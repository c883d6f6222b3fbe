-- ===== src/Wallet/Sends.antt =====
-- A send from a wallet through the client's interface and all the actors, and the wallet's copy of
-- the account after it: crates/wallet/src/wallet.rs over crates/actors/src.
use lasr.Base.{
  ◌+◌, ◌^◌, ◌<◌, ◌≡◌, refl, sym, ap, ◌∙◌, inl, inr, arith, true, some, [], ◌∷◌, nat_eq,
  Option-cases,
}
use lasr.Base.Map.{beq_refl}
use lasr.Base.Result.{ok}
use lasr.Types.Address.{Address}
use lasr.Types.Address.Hex.{HexDecoder, lower_hex}
use lasr.Types.Address.Hex.Trips.{parses-texts}
use lasr.Types.Account.{Account, balance}
use lasr.Types.Account.Send.Transfer.{CanReceive}
use lasr.Types.Account.Validate.{validate_balance}
use lasr.Types.Account.Validate.Laws.{validate_balance_iff, validate_nonce_iff}
use lasr.Types.Token.{Token}
use lasr.Types.Transaction
use lasr.Types.Transaction.{Payload, Transaction, signed}
use lasr.Types.U256.{U256, u256_mod, Uint}
use lasr.Actors.Messages.{Hasher}
use lasr.Actors.Scheduler
use lasr.Actors.Scheduler.{Port, response, send_response, get_account_response}
use lasr.Actors.PendingActor.Runs.{IsQuiet}
use lasr.Actors.Validator.{Signatures}
use lasr.Actors.Batch.{Encoder}
use lasr.Actors.Batcher.Sends.Conserves.{CanSend, HasRoom, balance_at, nonce_at}
use lasr.Actors.RpcServer
use lasr.Actors.RpcServer.{
  Json, LasrRpc, json_text, answer_send, answer_get_account, get_account_at, handle_request_method,
}
use lasr.Actors.System.{System, Node, deliver, drain, world_of, found_account, to_scheduler}
use lasr.Actors.System.SendPath.{PathUp, send_answered}
use lasr.Actors.System.Clients.{ask, node_rpc}
use lasr.Wallet
use lasr.Wallet.{Wallet, Session, Signer, payload_of}

-- the transaction that `Wallet::send` submits
abbrev pub sent_by : Signer → Wallet → Address → Address → U256 → Transaction
sent_by sign w to program_id value =
    let payload =
      payload_of (Transaction.send w.account.nonce) w to program_id "" "" value
        (w.account.nonce + 1) in
    signed payload (sign payload)

-- The signer holds the key of the address: what it signs verifies.
abbrev pub IsKeyOf : ⦃v : Signatures⦄ → Signer → Address → Type 0
IsKeyOf ⦃v⦄ sign address =
    (p : Payload) → p.from ≡ address → v.verify_signature (signed p (sign p)) ≡ true

-- what the wallet does with the answers of any client
module _ ⦃u : Uint⦄ {J N : Type 0} (json : Json J) (client : LasrRpc J N) (sign : Signer) where
  get_account_lem :
      (w : Wallet) (s s' : N) (a : Account)
      → client.get_account (lower_hex w.address) s ≡ (ok (json_text (json.account_text a)), s')
      → Wallet.get_account json client sign w.address (record { wallet = w; network = s })
        ≡ (ok tt, record { wallet = record w { account = a }; network = s' })
  unfolding Wallet.get_account
  get_account_lem w s s' a e = ground (arith, e, json.parse_account-text a)

  send_lem :
      (w : Wallet) (to program_id : Address) (value : U256) (s s' s'' : N) (t : Token) (a : Account)
      → validate_balance program_id value w.account ≡ ok tt
      → w.account.nonce + 1 < u256_mod
      → client.send (sent_by sign w to program_id value) s
        ≡ (ok (json_text (json.token_text t)), s')
      → client.get_account (lower_hex w.address) s' ≡ (ok (json_text (json.account_text a)), s'')
      → Wallet.send json client sign to program_id value (record { wallet = w; network = s })
        ≡ (ok t, record { wallet = record w { account = a }; network = s'' })
  unfolding Wallet.send
  send_lem w to program_id value s s' s'' t a valid fits e e' = ground (
    arith,
    valid,
    u.add_fits w.account.nonce 1 fits,
    e,
    json.parse_token-text t,
    get_account_lem w s' s'' a e',
  )

module _ ⦃h : Hasher⦄ ⦃u : Uint⦄ ⦃c : Encoder⦄ ⦃v : Signatures⦄ ⦃d : HexDecoder⦄ (n : Node)
    (up : PathUp n.env.registry) {J : Type 0} (json : Json J) (port : Port) where
  ask-send :
      (tx : Transaction) (s s' : System) (t : Token)
      → drain n 7 (to_scheduler (Scheduler.send tx port) ∷ []) (record s { replies = [] }) ≡ some s'
      → s'.replies ≡ (port, response (send_response t)) ∷ []
      → ask n 7 port (RpcServer.send tx) s ≡ (some (response (send_response t)), s')
  unfolding ask handle_request_method
  ask-send tx s s' t run replied = ground (arith, up.scheduler, run, replied, beq_refl port)

  ask-account :
      (address : Address) (s : System) (a : Account)
      → found_account n s address ≡ some a
      → ask n 7 port (RpcServer.get_account address) s ≡ (
        some (response (get_account_response a)),
        record s { replies = (port, response (get_account_response a)) ∷ [] },
      )
  unfolding ask handle_request_method drain deliver Scheduler.handle
  ask-account address s a found = ground (arith, up.scheduler, found, beq_refl port)

  rpc-send :
      (tx : Transaction) (s s' : System) (t : Token)
      → ask n 7 port (RpcServer.send tx) s ≡ (some (response (send_response t)), s')
      → (node_rpc n 7 port json).send tx s ≡ (ok (json_text (json.token_text t)), s')
  unfolding answer_send
  rpc-send tx s s' t e = rw e refl

  -- the address that the wallet writes is the one that the server reads
  rpc-account :
      (address : Address) (s s' : System) (a : Account)
      → address < 2 ^ 160
      → ask n 7 port (RpcServer.get_account address) s
        ≡ (some (response (get_account_response a)), s')
      → (node_rpc n 7 port json).get_account (lower_hex address) s
        ≡ (ok (json_text (json.account_text a)), s')
  unfolding get_account_at answer_get_account
  rpc-account address s s' a fits e =
      let (_, _, _, read) = parses-texts address fits in
      ap (λ r. get_account_at json (ask n 7 port) r s) read ∙ rw e refl

  balance_found :
      (s : System) (k address : Address) (a : Account)
      → found_account n s address ≡ some a
      → balance_at n.env (world_of s) k address ≡ balance k a
  balance_found s k address a found = ground (arith, found)

  -- what is left of an account whose nonce is not zero
  found_nonce :
      (s : System) (address : Address) (m : U256)
      → nonce_at n.env (world_of s) address ≡ m + 1
      → (a : Account) × (found_account n s address ≡ some a) × (a.nonce ≡ m + 1)
  found_nonce s address m e = elim (Option-cases (found_account n s address)) [
    | inl none_found ↦ absurd (ground (arith, none_found, e))
    | inr (a, found) ↦ (a, found, ground (arith, found, e))
  ]

  -- A wallet, whose address has 20 bytes and whose signatures pass the check for it, sends tokens to
  -- another account. Every actor on the way is up, nothing waits in the pending transaction actor,
  -- the wallet's copy is the account that the network has, both accounts are found under their own
  -- addresses and keep each token under its own program, the wallet's account holds its own token
  -- with enough and its nonce can grow by one, the other account can receive, the program is known,
  -- which is that its account is found or that it is one of the two currencies ETH and VERSE, and
  -- the batches have room. Then the wallet gets a token and no error,
  -- its new copy is again the account that the network has, with a nonce that is one higher and a
  -- balance that is lower by the value, and the other account has the value more. Again
  -- nothing waits.
  pub send-network :
      (sign : Signer) (w : Wallet) (to program_id : Address) (value : U256) (s : System)
      (b : Account)
      → let tx = sent_by sign w to program_id value in
        w.address < 2 ^ 160
        → IsKeyOf sign w.address
        → IsQuiet s.pending
        → CanSend n.env tx (world_of s) w.account b
        → CanReceive tx b
        → HasRoom n.env tx (world_of s) w.account b
        → (t : Token) × (a : Account) × (s' : System) × (Wallet.send json
              (node_rpc n 7 port json)
              sign
              to
              program_id
              value
              (record { wallet = w; network = s })
            ≡ (ok t, record { wallet = record w { account = a }; network = s' }))
          × (found_account n s' w.address ≡ some a)
          × (a.nonce ≡ w.account.nonce + 1)
          × (balance program_id a + value ≡ balance program_id w.account)
          × (balance_at n.env (world_of s') program_id to
              ≡ balance_at n.env (world_of s) program_id to + value)
          × IsQuiet s'.pending
  unfolding signed
  send-network sign w to program_id value s b fits key quiet can receives room =
      let a = w.account in
      let tx = sent_by sign w to program_id value in
      let valid : validate_balance program_id value a ≡ ok tt =
        (validate_balance_iff program_id value a).1
          (let (t, has, _, cover) = can.pays in (t, has, cover)) in
      let (s₁, run, (t, replied), _, from, reached, grown, quiet₁) =
        send_answered n tx a.nonce refl up (record s { replies = [] }) a b port quiet can receives
          room (key _ refl) ((validate_nonce_iff tx.nonce a).1 (inl (omega arith))) in
      let (a₁, found, nonce) =
        found_nonce s₁ w.address a.nonce (grown ∙ ap (λ m. m + 1) (ground (arith, can.sender))) in
      let s₂ : System = record s₁ { replies = (port, response (get_account_response a₁)) ∷ [] } in
      let run_wallet =
        send_lem json (node_rpc n 7 port json) sign w to program_id value s s₁ s₂ t a₁ valid
          can.next_nonce (rpc-send tx s s₁ t (ask-send tx s s₁ t run replied))
          (rpc-account w.address s₁ s₂ a₁ fits (ask-account w.address s₁ a₁ found)) in
      let paid : balance program_id a₁ + value ≡ balance program_id a =
        ap (λ m. m + value) (sym (balance_found s₁ program_id w.address a₁ found))
        ∙ from
        ∙ balance_found s program_id w.address a can.sender in
      (t, a₁, s₂, run_wallet, found, nonce, paid, reached, quiet₁)
