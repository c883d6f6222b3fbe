-- ===== src/Actors/Batcher/Sends/Moves.antt =====
-- What a send does to the accounts in the cache.
use lasr.Base.{
  ◌+◌, ◌<◌, ◌≡◌, ◌≢◌, refl, ap, ◌∙◌, ◌⊎◌, inl, inr, arith, true, ◌||◌, Option, none, some, [], ◌∷◌,
  ◌++◌, ◌==◌, nat_eq, string_eq,
}
use lasr.Base.Map
use lasr.Base.Map.{Map, get-insert}
use lasr.Base.Result.{Result, ok, err, panic}
use lasr.Types.Address.{Address, eth_addr, verse_addr}
use lasr.Types.Error.{TypesError}
use lasr.Types.Account.{Account, AccountMethod, token_owner, increment_nonce}
use lasr.Types.Account.Send.{apply_send_transaction}
use lasr.Types.Account.Send.Laws.{Writes}
use lasr.Types.Account.Send.Transfer.{Succeeds}
use lasr.Types.Token.{Token}
use lasr.Types.Transaction.{Transaction}
use lasr.Types.U256.{u256_mod, Uint, checked_add_lem}
use lasr.Actors.Messages.{Hasher, scheduler_transaction_applied, pending_valid}
use lasr.Actors.Batch.{Encoder, insert_transaction}
use lasr.Actors.Batcher.{Batcher, placed}
use lasr.Actors.Batcher.World.{Env, World, ended, and_then, pure, call, try_call, find_account}
use lasr.Actors.Batcher.Tasks.{
  after, call_ok, write_all, place_all, add_accounts_lem, add_transaction_lem,
}
use lasr.Actors.Batcher.Sends.{
  apply_to_sender, apply_with, apply_to_recipient, buffer_other, buffer_recipient,
  add_transaction_to_account,
}

-- the batcher can find the program: it is one of the two currencies, or has an account
abbrev pub IsKnown : Env → Transaction → World → Type 0
IsKnown env tx w =
    ((p : Account) × (find_account env tx.program_id w ≡ some p))
    ⊎ ((tx.program_id == eth_addr || tx.program_id == verse_addr) ≡ true)

-- the account with the next nonce
abbrev pub bumped : Account → Account
bumped a = record a { nonce = a.nonce + 1 }

-- the world at the end of the task
abbrev pub finished :
    ⦃h : Hasher⦄ → Transaction → World → Token → Map Address Account → Batcher → World
finished ⦃h⦄ tx w t buffer batcher = record {
  cached = write_all buffer w.cached;
  batcher = batcher;
  sent =
      (w.sent ++ scheduler_transaction_applied (h.hash_string tx) t ∷ []) ++ pending_valid tx ∷ [];
}

-- a successful call, with the token that it returned
pub Succeeds-ok :
    (o : Result TypesError Token × Account) → Succeeds o.0 → (t : Token) × (o ≡ (ok t, o.1))
Succeeds-ok (ok t, a) s = (t, refl)
Succeeds-ok (err x, a) s = absurd s
Succeeds-ok (panic, a) s = absurd s

-- a successful call keeps the account's address and its nonce
pub Succeeds-same :
    (a : Account) (k : Address) (o : Result TypesError Token × Account)
    → Writes a k o
    → (o.1.nonce ≡ a.nonce) × (token_owner o.1 ≡ token_owner a)
Succeeds-same a k (ok t, a') w = (w.nonce, ground (arith, w.account_type, w.owner_address))
Succeeds-same a k (err x, a') w = (ap (λ x. x.nonce) w, ap token_owner w)
Succeeds-same a k (panic, a') w = (ap (λ x. x.nonce) w, ap token_owner w)

module _ ⦃u : Uint⦄ where
  pub increment_nonce_lem :
      (a : Account) → a.nonce + 1 < u256_mod → increment_nonce a ≡ (ok tt, bumped a)
  unfolding increment_nonce
  increment_nonce_lem a fits = ground (arith, checked_add_lem a.nonce 1)

  kept_lem :
      (m : AccountMethod Token) (r : Result TypesError Token) (b b' : Account) (w : World)
      → m b ≡ (r, b')
      → r ≢ panic
      → try_call m b w ≡ ended (ok b') w
  kept_lem m (ok t) b b' w e np = rw e refl
  kept_lem m (err x) b b' w e np = rw e refl
  kept_lem m panic b b' w e np = absurd (np refl)

  module _ (env : Env) (tx : Transaction) where
    pub sender_lem :
        (a a' : Account) (t : Token) (w : World)
        → a.nonce + 1 < u256_mod
        → apply_send_transaction tx none (bumped a) ≡ (ok t, a')
        → apply_to_sender env tx (some a) w ≡ ended (ok (t, a')) w
    sender_lem a a' t w fits e =
        after (call increment_nonce a) (λ r. call (apply_send_transaction tx none) r.1) w w
          (tt, bumped a) (call_ok increment_nonce a (bumped a) tt w (increment_nonce_lem a fits))
        ∙ call_ok (apply_send_transaction tx none) (bumped a) a' t w e

    -- the error of the recipient's part is dropped
    apply_with_lem :
        (p : Option Account) (b b' : Account) (w : World) (r : Result TypesError Token)
        → ((q : Account) × (p ≡ some q))
          ⊎ ((tx.program_id == eth_addr || tx.program_id == verse_addr) ≡ true)
        → apply_send_transaction tx p b ≡ (r, b')
        → r ≢ panic
        → apply_with env tx b p w ≡ ended (ok b') w
    apply_with_lem (some q) b b' w r known e np =
        kept_lem (apply_send_transaction tx (some q)) r b b' w e np
    apply_with_lem none b b' w r (inl (q, absent)) e np = cc
    apply_with_lem none b b' w r (inr known) e np =
        rw known (kept_lem (apply_send_transaction tx none) r b b' w e np)

    recipient_lem :
        (b b' : Account) (w : World) (r : Result TypesError Token)
        → IsKnown env tx w
        → apply_send_transaction tx (find_account env tx.program_id w) b ≡ (r, b')
        → r ≢ panic
        → apply_to_recipient env tx b w ≡ ended (ok b') w
    recipient_lem b b' w r known e np =
        apply_with_lem (find_account env tx.program_id w) b b' w r known e np

    pub buffer_lem :
        (b b' : Account) (w : World) (r : Result TypesError Token) (buffer : Map Address Account)
        → find_account env tx.to w ≡ some b
        → tx.to ≢ tx.from
        → IsKnown env tx w
        → apply_send_transaction tx (find_account env tx.program_id w) b ≡ (r, b')
        → r ≢ panic
        → buffer_recipient env tx buffer w ≡ ended (ok (Map.insert tx.to b' buffer)) w
    unfolding buffer_recipient
    buffer_lem b b' w r buffer at ne known e np =
        let other : buffer_recipient env tx buffer w ≡ buffer_other env tx buffer w =
          ground arith in
        other
        ∙ rw at (
            ap (and_then (λ x. pure (Map.insert tx.to x buffer)))
              (recipient_lem b b' w r known e np))

    -- the tail of the task, for a buffer
    pub finish_lem :
        ⦃h : Hasher⦄ ⦃c : Encoder⦄ (w : World) (found : Option Account) (t : Token) (a' : Account)
        (buffer : Map Address Account) (b₁ b₂ : Batcher)
        → find_account env tx.from w ≡ found
        → apply_to_sender env tx found w ≡ ended (ok (t, a')) w
        → buffer_recipient env tx (Map.insert tx.from a' []) w ≡ ended (ok buffer) w
        → env.registry.account_cache ≡ true
        → env.registry.scheduler ≡ true
        → env.registry.pending_transactions ≡ true
        → place_all buffer w.batcher ≡ some b₁
        → placed (insert_transaction tx) b₁ ≡ some b₂
        → add_transaction_to_account env tx w ≡ ended (ok tt) (finished tx w t buffer b₂)
    unfolding add_transaction_to_account
    finish_lem w found t a' buffer b₁ b₂ at sent buffered cache scheduler pending room room' =
        ground (
          arith,
          sent,
          buffered,
          add_accounts_lem env buffer w b₁ cache room,
          add_transaction_lem env tx (record w { cached = write_all buffer w.cached; batcher = b₁ })
              b₂ room',
        )
