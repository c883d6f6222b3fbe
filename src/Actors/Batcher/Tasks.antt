-- ===== src/Actors/Batcher/Tasks.antt =====
-- How tasks go on, and what the additions to the batches do to the world.
use lasr.Base.{
  ◌≡◌, refl, ap, ◌∙◌, inl, inr, arith, true, Option, none, some, [], ◌∷◌, nat_eq, Option-cases,
}
use lasr.Base.Map.{Map}
use lasr.Base.Result.{ok, err, panic}
use lasr.Types.Address.{Address}
use lasr.Types.Account.{Account, AccountMethod}
use lasr.Types.Transaction.{Transaction}
use lasr.Actors.Messages.{Hasher}
use lasr.Actors.AccountCache.{write_entry}
use lasr.Actors.Batch.{Encoder, insert_transaction, insert_account}
use lasr.Actors.Batcher.{Batcher, placed}
use lasr.Actors.Batcher.World.{
  Env, World, Task, ended, and_then, ◌>>=◌, call, add_account_to_batch, add_transaction_to_batch,
  add_accounts_to_batch,
}

-- what a task does after a step that succeeds
pub after :
    {A B : Type 0} (m : Task A) (f : A → Task B) (w w' : World) (a : A)
    → m w ≡ ended (ok a) w'
    → (m >>= f) w ≡ f a w'
after m f w w' a e = ap (and_then f) e

pub after_err :
    {A B : Type 0} (m : Task A) (f : A → Task B) (w w' : World) (x : _)
    → m w ≡ ended (err x) w'
    → (m >>= f) w ≡ ended (err x) w'
after_err m f w w' x e = ap (and_then f) e

pub after_panic :
    {A B : Type 0} (m : Task A) (f : A → Task B) (w w' : World)
    → m w ≡ ended panic w'
    → (m >>= f) w ≡ ended panic w'
after_panic m f w w' e = ap (and_then f) e

pub call_ok :
    {A : Type 0} (m : AccountMethod A) (account account' : Account) (a : A) (w : World)
    → m account ≡ (ok a, account')
    → call m account w ≡ ended (ok (a, account')) w
call_ok m account account' a w e = rw e refl

-- The accounts of the buffer, written to the cache one after the other.
unfoldable pub write_all : Map Address Account → Map Address Account → Map Address Account
write_all [] cached = cached
write_all ((_, account) ∷ buffer) cached = write_all buffer (write_entry account cached)

module _ ⦃c : Encoder⦄ where
  -- The accounts of the buffer, placed one after the other; `none` if one finds no room.
  unfoldable pub place_all : Map Address Account → Batcher → Option Batcher
  place_all [] batcher = some batcher
  place_all ((_, account) ∷ buffer) batcher = elim (placed (insert_account account) batcher) [
    | none ↦ none
    | some batcher' ↦ place_all buffer batcher'
  ]

  module _ (env : Env) where
    pub add_account_lem :
        (account : Account) (w : World) (batcher : Batcher)
        → env.registry.account_cache ≡ true
        → placed (insert_account account) w.batcher ≡ some batcher
        → add_account_to_batch env account w
          ≡ ended (ok tt) (record w { cached = write_entry account w.cached; batcher = batcher })
    unfolding add_account_to_batch
    add_account_lem account w batcher up room = ground arith

    pub add_accounts_lem :
        (buffer : Map Address Account) (w : World) (batcher : Batcher)
        → env.registry.account_cache ≡ true
        → place_all buffer w.batcher ≡ some batcher
        → add_accounts_to_batch env buffer w
          ≡ ended (ok tt) (record w { cached = write_all buffer w.cached; batcher = batcher })
    unfolding add_accounts_to_batch place_all write_all
    add_accounts_lem [] w batcher up room = ground arith
    add_accounts_lem ((k, account) ∷ buffer) w batcher up room =
        elim (Option-cases (placed (insert_account account) w.batcher)) [
          | inl e ↦ ground arith
          | inr (b, e) ↦
              let w' : World = record w { cached = write_entry account w.cached; batcher = b } in
              after (add_account_to_batch env account) (λ _. add_accounts_to_batch env buffer) w w'
                tt (add_account_lem account w b up e)
              ∙ add_accounts_lem buffer w' batcher up (ground arith)
        ]

    pub add_transaction_lem :
        ⦃h : Hasher⦄ (tx : Transaction) (w : World) (batcher : Batcher)
        → placed (insert_transaction tx) w.batcher ≡ some batcher
        → add_transaction_to_batch env tx w ≡ ended (ok tt) (record w { batcher = batcher })
    unfolding add_transaction_to_batch
    add_transaction_lem tx w batcher room = ground arith
