-- ===== src/Types/Token/Balance.antt =====
-- What `debit` and `credit` do to a balance.
use lasr.Base.{◌+◌, ◌-◌, ◌<◌, ◌≡◌, arith, ltb, if◌then◌else◌}
use lasr.Base.Result.{ok, err, panic}
use lasr.Types.Error.{exceeds_balance}
use lasr.Types.Token.{Token, debit, credit}
use lasr.Types.U256.{U256, u256_mod, Uint, checked_add_lem, checked_sub_lem}

module _ ⦃u : Uint⦄ (amount : U256) (t : Token) where
  -- debit, in full
  pub debit_lem : debit amount t ≡ (
      if ltb t.balance amount
      then (err exceeds_balance, t)
      else (ok tt, record t { balance = t.balance - amount }))
  unfolding debit
  debit_lem = ground (arith, checked_sub_lem t.balance amount)

  pub credit_lem : credit amount t ≡ (
      if ltb (t.balance + amount) u256_mod
      then (ok tt, record t { balance = t.balance + amount })
      else (panic, t))
  unfolding credit
  credit_lem = ground (arith, checked_add_lem t.balance amount)

  pub debit-credit : t.balance + amount < u256_mod → debit amount (credit amount t).1 ≡ (ok tt, t)
  unfolding debit credit
  debit-credit h =
      ground (arith, checked_add_lem t.balance amount, checked_sub_lem (t.balance + amount) amount)
