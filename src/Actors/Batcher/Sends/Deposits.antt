-- ===== src/Actors/Batcher/Sends/Deposits.antt =====
-- A deposit through `add_transaction_to_account` of crates/actors/src/batcher.rs: the sender is the
-- recipient, and may be new.
use lasr.Base.{◌+◌, ◌<◌, ◌≡◌, refl, ◌∙◌, inr, arith, true, Option, none, some, [], ◌∷◌, nat_eq}
use lasr.Base.Map
use lasr.Base.Map.{Map, get-insert, beq_refl}
use lasr.Base.Result.{ok}
use lasr.Types.Account.{Account, user, balance, token_owner, new_account}
use lasr.Types.Account.Send.{apply_send_transaction}
use lasr.Types.Account.Send.Laws.{IsKeyed, apply_send_transaction-Writes}
use lasr.Types.Account.Send.Deposits.{CanDeposit, deposit_credits}
use lasr.Types.Token.{Token}
use lasr.Types.Transaction.{Transaction, is_bridge_in}
use lasr.Types.U256.{u256_mod, Uint}
use lasr.Actors.Messages.{Hasher}
use lasr.Actors.Batch.{Encoder, insert_transaction}
use lasr.Actors.Batcher.{Batcher, placed}
use lasr.Actors.Batcher.World.{Env, World, ended, find_account, fresh_account}
use lasr.Actors.Batcher.Tasks.{write_all, place_all, call_ok}
use lasr.Actors.Batcher.Sends.{apply_to_sender, buffer_recipient, add_transaction_to_account}
use lasr.Actors.Batcher.Sends.Moves.{
  bumped, Succeeds-ok, Succeeds-same, sender_lem, finished, finish_lem,
}
use lasr.Actors.Batcher.Sends.Conserves.{balance_at, Notifies, AllUp}

module _ ⦃u : Uint⦄ (env : Env) (tx : Transaction) where
  -- what the deposit is made to: the account that is found, with the next nonce, or a new one
  abbrev pub receiver : Option Account → Account
  receiver none = fresh_account user tx.from
  receiver (some a) = bumped a

  abbrev program_of : World → Option Account → Option Account
  program_of w none = find_account env tx.program_id w
  program_of w (some a) = none

  abbrev pub credited : World → Option Account → Account
  credited w o = (apply_send_transaction tx (program_of w o) (receiver o)).1

  -- an account that exists stands under its own address and takes the token
  abbrev pub IsDepositor : Option Account → Type 0
  IsDepositor none = Unit
  IsDepositor (some a) =
      (token_owner a ≡ tx.from) × IsKeyed a × CanDeposit tx a × (a.nonce + 1 < u256_mod)

  abbrev pub HasDepositRoom : ⦃h : Hasher⦄ → ⦃c : Encoder⦄ → World → Option Account → Type 0
  HasDepositRoom w o =
      (b₁ b₂ : Batcher) × (place_all ((tx.from, credited w o) ∷ []) w.batcher ≡ some b₁)
      × (placed (insert_transaction tx) b₁ ≡ some b₂)

  receiver-IsKeyed : (o : Option Account) → IsDepositor o → IsKeyed (receiver o)
  unfolding Map.get new_account
  receiver-IsKeyed none _ = λ k t e. ground arith
  receiver-IsKeyed (some a) (_, keyed, _, _) = keyed

  receiver-CanDeposit : (o : Option Account) → IsDepositor o → CanDeposit tx (receiver o)
  unfolding Map.get new_account
  receiver-CanDeposit none _ = inr refl
  receiver-CanDeposit (some a) (_, _, can, _) = can

  receiver_located : (o : Option Account) → IsDepositor o → token_owner (receiver o) ≡ tx.from
  unfolding new_account
  receiver_located none _ = refl
  receiver_located (some a) (located, _, _, _) = located

  receiver_balance :
      (w : World) (o : Option Account)
      → find_account env tx.from w ≡ o
      → balance_at env w tx.program_id tx.from ≡ balance tx.program_id (receiver o)
  unfolding Map.get new_account
  receiver_balance w none at = ground arith
  receiver_balance w (some a) at = ground arith

  sender_deposits :
      (w : World) (o : Option Account) (t : Token)
      → is_bridge_in tx.transaction_type ≡ true
      → IsDepositor o
      → apply_send_transaction tx (program_of w o) (receiver o) ≡ (ok t, credited w o)
      → apply_to_sender env tx o w ≡ ended (ok (t, credited w o)) w
  sender_deposits w none t deposits _ e = rw deposits (
      call_ok (apply_send_transaction tx (program_of w none)) (receiver none) (credited w none) t w
        e)
  sender_deposits w (some a) t deposits (_, _, _, fits) e =
      sender_lem env tx a (credited w (some a)) t w fits e

  buffer_deposit :
      (w : World) (a : Account)
      → is_bridge_in tx.transaction_type ≡ true
      → tx.to ≡ tx.from
      → buffer_recipient env tx (Map.insert tx.from a []) w ≡ ended (ok ((tx.from, a) ∷ [])) w
  unfolding buffer_recipient Map.insert
  buffer_deposit w a deposits self = ground (arith, nat_eq.beq_iff tx.to tx.from)

  pub deposit_moves :
      ⦃h : Hasher⦄ ⦃c : Encoder⦄ (w : World) (o : Option Account)
      → is_bridge_in tx.transaction_type ≡ true
      → tx.to ≡ tx.from
      → find_account env tx.from w ≡ o
      → IsDepositor o
      → AllUp env
      → HasDepositRoom w o
      → (w' : World) × (add_transaction_to_account env tx w ≡ ended (ok tt) w')
        × Notifies env tx w w'
        × (find_account env tx.from w' ≡ some (credited w o))
        × (balance_at env w' tx.program_id tx.from
            ≡ balance_at env w tx.program_id tx.from + tx.value)
  unfolding write_all
  deposit_moves w o deposits self at depositor (cache, scheduler, pending) (b₁, b₂, room, room') =
      let p = program_of w o in
      let keyed = receiver-IsKeyed o depositor in
      let (r, grown) =
        deposit_credits p tx (receiver o) keyed deposits (receiver-CanDeposit o depositor) in
      let (t, e) = Succeeds-ok (apply_send_transaction tx p (receiver o)) r in
      let (_, same) =
        Succeeds-same (receiver o) tx.program_id (apply_send_transaction tx p (receiver o))
          (apply_send_transaction-Writes p tx (receiver o) keyed) in
      let a' = credited w o in
      let w' = finished tx w t ((tx.from, a') ∷ []) b₂ in
      let located : token_owner a' ≡ tx.from = same ∙ receiver_located o depositor in
      let found : find_account env tx.from w' ≡ some a' =
        ground
          (arith, located, get-insert tx.from (token_owner a') a' w.cached, beq_refl tx.from) in
      let gained : balance_at env w' tx.program_id tx.from
          ≡ balance_at env w tx.program_id tx.from + tx.value =
        ground (arith, found, grown, receiver_balance w o at) in
      (
        w',
        finish_lem env tx w o t a' ((tx.from, a') ∷ []) b₁ b₂ at
            (sender_deposits w o t deposits depositor e) (buffer_deposit w a' deposits self) cache
            scheduler pending room room',
        (t, refl),
        found,
        gained,
      )
