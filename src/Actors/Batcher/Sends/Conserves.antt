-- ===== src/Actors/Batcher/Sends/Conserves.antt =====
-- A send through the batcher keeps the sum of the two balances, unless the recipient refuses it.
use lasr.Base.{
  ◌+◌, ◌<◌, ◌≡◌, ◌≢◌, refl, sym, ap, ◌∙◌, inr, arith, true, false, Option, none, some, [], ◌∷◌,
  ◌++◌, ◌==◌, if◌then◌else◌, nat_eq, string_eq,
}
use lasr.Base.Map
use lasr.Base.Map.{Map, get-insert}
use lasr.Base.Result.{Result, ok, err, panic}
use lasr.Types.Address.{Address}
use lasr.Types.Error.{TypesError, owner_mismatch}
use lasr.Types.Account.{Account, balance, token_owner}
use lasr.Types.Account.Send.{apply_send_transaction}
use lasr.Types.Account.Send.Laws.{IsKeyed, apply_send_transaction-Writes}
use lasr.Types.Account.Send.Transfer.{
  CanPay, CanPay-cover, send_stranger, CanReceive, send_pays, send-conserves,
}
use lasr.Types.Token.{Token}
use lasr.Types.Transaction.{Transaction, is_bridge_in}
use lasr.Types.U256.{U256, u256_mod, Uint}
use lasr.Actors.Messages.{Hasher, scheduler_transaction_applied, pending_valid}
use lasr.Actors.Batch.{Encoder, insert_transaction}
use lasr.Actors.Batcher.{Batcher, placed}
use lasr.Actors.Batcher.World.{Env, World, ended, find_account}
use lasr.Actors.Batcher.Tasks.{write_all, place_all}
use lasr.Actors.Batcher.Sends.{add_transaction_to_account}
use lasr.Actors.Batcher.Sends.Moves.{
  bumped, Succeeds-ok, Succeeds-same, IsKnown, sender_lem, buffer_lem, finished, finish_lem,
}

-- what the batcher finds of an account: its balance in a program, and its nonce
abbrev balance_of : Address → Option Account → U256
balance_of k none = 0
balance_of k (some a) = balance k a

abbrev pub balance_at : Env → World → Address → Address → U256
balance_at env w k address = balance_of k (find_account env address w)

abbrev nonce_of : Option Account → U256
nonce_of none = 0
nonce_of (some a) = a.nonce

abbrev pub nonce_at : Env → World → Address → U256
nonce_at env w address = nonce_of (find_account env address w)

abbrev pub AllUp : Env → Type 0
AllUp env =
    (env.registry.account_cache ≡ true)
    × (env.registry.scheduler ≡ true)
    × (env.registry.pending_transactions ≡ true)

-- A send of another's tokens between two accounts that the batcher finds: the sender's can pay.
pub record CanSend (env : Env) (tx : Transaction) (w : World) (a b : Account) : Type 0 where
  pub sender : find_account env tx.from w ≡ some a
  pub recipient : find_account env tx.to w ≡ some b
  pub sender_address : token_owner a ≡ tx.from
  pub recipient_address : token_owner b ≡ tx.to
  pub sender_keyed : IsKeyed a
  pub recipient_keyed : IsKeyed b
  pub no_deposit : is_bridge_in tx.transaction_type ≡ false
  pub distinct : tx.to ≢ tx.from
  pub pays : CanPay tx a
  pub next_nonce : a.nonce + 1 < u256_mod
  pub known : IsKnown env tx w

two_entries :
    {V : Type 0} (j k : Address) (x y : V)
    → j ≢ k
    → Map.insert j y (Map.insert k x []) ≡ (k, x) ∷ (j, y) ∷ []
unfolding Map.insert
two_entries j k x y ne = ground (arith, nat_eq.beq_iff j k)

-- what is found after two accounts are written, the second of them last
found_after :
    (env : Env) (j k other : Address) (x y : Account) (w w' : World)
    → env.registry.account_cache ≡ true
    → j ≢ k
    → token_owner x ≡ k
    → token_owner y ≡ j
    → w'.cached ≡ write_all ((k, x) ∷ (j, y) ∷ []) w.cached
    → find_account env other w'
      ≡ (if other == k then some x else if other == j then some y else find_account env other w)
unfolding write_all
found_after env j k other x y w w' up ne ex ey e = ground (
  arith,
  get-insert other j y (Map.insert k x w.cached),
  get-insert other k x w.cached,
  nat_eq.beq_iff other k,
  nat_eq.beq_iff other j,
)

module _ ⦃u : Uint⦄ (env : Env) (tx : Transaction) where
  -- the two accounts after the send
  abbrev pub paid : Account → Account
  paid a = (apply_send_transaction tx none (bumped a)).1

  abbrev pub reached : World → Account → Account
  reached w b = (apply_send_transaction tx (find_account env tx.program_id w) b).1

  abbrev pub send_buffer : World → Account → Account → Map Address Account
  send_buffer w a b = (tx.from, paid a) ∷ (tx.to, reached w b) ∷ []

  -- the batches have room for the two accounts and the transaction
  abbrev pub HasRoom : ⦃h : Hasher⦄ → ⦃c : Encoder⦄ → World → Account → Account → Type 0
  HasRoom w a b =
      (b₁ b₂ : Batcher) × (place_all (send_buffer w a b) w.batcher ≡ some b₁)
      × (placed (insert_transaction tx) b₁ ≡ some b₂)

  module _ ⦃h : Hasher⦄ ⦃c : Encoder⦄ where
    -- the scheduler and the pending transaction actor hear of the send
    abbrev pub Notifies : World → World → Type 0
    Notifies w w' =
        (t : Token) × (w'.sent
          ≡ (w.sent ++ scheduler_transaction_applied (h.hash_string tx) t ∷ [])
            ++ pending_valid tx ∷ [])

    -- The task ends without an error, with the two accounts written under their addresses.
    send_lem :
        (w : World) (a b : Account) (r : Result TypesError Token)
        → CanSend env tx w a b
        → AllUp env
        → HasRoom w a b
        → apply_send_transaction tx (find_account env tx.program_id w) b ≡ (r, reached w b)
        → r ≢ panic
        → (w' : World) × (add_transaction_to_account env tx w ≡ ended (ok tt) w')
          × Notifies w w'
          × ((other : Address)
              → find_account env other w' ≡ (
                  if other == tx.from
                  then some (paid a)
                  else if other == tx.to
                  then some (reached w b)
                  else find_account env other w))
    send_lem w a b r s (cache, scheduler, pending) (b₁, b₂, room, room') e np =
        let (ra, _) = send_pays none tx (bumped a) s.sender_keyed s.no_deposit s.distinct s.pays in
        let (t, ea) = Succeeds-ok (apply_send_transaction tx none (bumped a)) ra in
        let same =
          Succeeds-same (bumped a) tx.program_id (apply_send_transaction tx none (bumped a))
            (apply_send_transaction-Writes none tx (bumped a) s.sender_keyed) in
        let same' =
          Succeeds-same b tx.program_id
            (apply_send_transaction tx (find_account env tx.program_id w) b)
            (apply_send_transaction-Writes (find_account env tx.program_id w) tx b
              s.recipient_keyed) in
        let buffered =
          buffer_lem env tx b (reached w b) w r (Map.insert tx.from (paid a) []) s.recipient
            s.distinct s.known e np in
        let two =
          ap (λ m. ended (ok m) w) (two_entries tx.to tx.from (paid a) (reached w b) s.distinct) in
        let w' = finished tx w t (send_buffer w a b) b₂ in
        (
          w',
          finish_lem env tx w (some a) t (paid a) (send_buffer w a b) b₁ b₂ s.sender
              (sender_lem env tx a (paid a) t w s.next_nonce ea) (buffered ∙ two) cache scheduler
              pending room room',
          (t, refl),
          λ other.
              found_after env tx.to tx.from other (paid a) (reached w b) w w' cache s.distinct
                (same.1 ∙ s.sender_address) (same'.1 ∙ s.recipient_address) refl,
        )

    -- the same with the messages that are sent
    pub send_moves_sent :
        (w : World) (a b : Account)
        → CanSend env tx w a b
        → CanReceive tx b
        → AllUp env
        → HasRoom w a b
        → let k = tx.program_id in
          (w' : World) × (add_transaction_to_account env tx w ≡ ended (ok tt) w')
          × Notifies w w'
          × (balance_at env w' k tx.from + tx.value ≡ balance_at env w k tx.from)
          × (balance_at env w' k tx.to ≡ balance_at env w k tx.to + tx.value)
          × (nonce_at env w' tx.from ≡ nonce_at env w tx.from + 1)
    send_moves_sent w a b s receives up room =
        let k = tx.program_id in
        let p = find_account env k w in
        let (ra, rb, ea, eb, _) =
          send-conserves tx (bumped a) b none p s.sender_keyed s.recipient_keyed s.no_deposit
            s.distinct s.pays receives in
        let (t, eb') = Succeeds-ok (apply_send_transaction tx p b) rb in
        let (w', run, sent, found) = send_lem w a b (ok t) s up room eb' (λ e. cc) in
        let same =
          Succeeds-same (bumped a) k (apply_send_transaction tx none (bumped a))
            (apply_send_transaction-Writes none tx (bumped a) s.sender_keyed) in
        let at_from : find_account env tx.from w' ≡ some (paid a) = ground (arith, found tx.from) in
        let at_to : find_account env tx.to w' ≡ some (reached w b) =
          ground (arith, found tx.to, nat_eq.beq_iff tx.to tx.from) in
        (
          w',
          run,
          sent,
          rw (at_from, s.sender) ea,
          rw (at_to, s.recipient) eb,
          rw (at_from, s.sender) same.0,
        )

    -- A send between two different accounts that the batcher finds under their own addresses, where
    -- the sender's holds its token with enough, the recipient's can receive, the program is known,
    -- the nonce can grow, the actors are up and the batches have room: the task ends without an
    -- error, and what the batcher finds then has the value moved from the sender's balance to the
    -- recipient's and the sender's nonce grown by one.
    pub send_moves :
        (w : World) (a b : Account)
        → CanSend env tx w a b
        → CanReceive tx b
        → AllUp env
        → HasRoom w a b
        → let k = tx.program_id in
          (w' : World) × (add_transaction_to_account env tx w ≡ ended (ok tt) w')
          × (balance_at env w' k tx.from + tx.value ≡ balance_at env w k tx.from)
          × (balance_at env w' k tx.to ≡ balance_at env w k tx.to + tx.value)
          × (nonce_at env w' tx.from ≡ nonce_at env w tx.from + 1)
    send_moves w a b s receives up room =
        let (w', run, _, from, to, nonce) = send_moves_sent w a b s receives up room in
        (w', run, from, to, nonce)

    -- A send between two different accounts that the batcher finds under their own addresses, where
    -- the sender's can pay and its nonce can grow, the program is known, the actors are up, the
    -- batches have room, and the recipient's token has an owner that is neither the sender nor the
    -- recipient: the task ends without an error, the sender's balance has fallen by the value, and
    -- the recipient's is what it was.
    pub send_loses :
        (w : World) (a b : Account) (t : Token)
        → CanSend env tx w a b
        → Map.get tx.program_id b.programs ≡ some t
        → tx.from ≢ t.owner_id
        → tx.to ≢ t.owner_id
        → AllUp env
        → HasRoom w a b
        → let k = tx.program_id in
          (w' : World) × (add_transaction_to_account env tx w ≡ ended (ok tt) w')
          × (balance_at env w' k tx.from + tx.value ≡ balance_at env w k tx.from)
          × (balance_at env w' k tx.to ≡ balance_at env w k tx.to)
    send_loses w a b t s e not_sender not_recipient up room =
        let k = tx.program_id in
        let p = find_account env k w in
        let (ra, ea) = send_pays none tx (bumped a) s.sender_keyed s.no_deposit s.distinct s.pays in
        let cover = CanPay-cover tx a s.pays in
        let refused = send_stranger p tx b t e not_sender not_recipient (inr s.distinct) in
        let kept : reached w b ≡ b = ap (λ o. o.1) refused in
        let refused' : apply_send_transaction tx p b ≡ (err owner_mismatch, reached w b) =
          refused ∙ ap (λ x. (err owner_mismatch, x)) (sym kept) in
        let (w', run, _, found) =
          send_lem w a b (err owner_mismatch) s up room refused' (λ e. cc) in
        let at_from : find_account env tx.from w' ≡ some (paid a) = ground (arith, found tx.from) in
        let at_to : find_account env tx.to w' ≡ some b =
          ground (arith, found tx.to, nat_eq.beq_iff tx.to tx.from, kept) in
        (w', run, rw (at_from, s.sender) (omega (arith, ea, cover)), rw (at_to, s.recipient) refl)
