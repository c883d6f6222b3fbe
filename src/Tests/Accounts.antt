-- ===== src/Tests/Accounts.antt =====
-- The theorems on accounts at concrete inputs.
use lasr.Base.{
  ◌+◌, ◌^◌, ◌<◌, ◌≡◌, refl, inl, arith, not, ◌&&◌, ◌||◌, none, some, List, [], ◌∷◌, nat_eq,
  string_eq, contains,
}
use lasr.Base.Map
use lasr.Base.Result.{ok, err}
use lasr.Types.Error.{token_ids_not_owned}
use lasr.Types.Account.{
  Account, AccountType, user, program, balance, AddressOrNamespace, increment_nonce,
}
use lasr.Types.Account.Apply.{
  apply_transfer_from_instruction, apply_transfer_to_instruction, apply_burn_instruction,
  apply_token_distribution, apply_token_update,
}
use lasr.Types.Account.Apply.Transfers.{holds, Covers, transfer-conserves, transfer_from_not_atomic}
use lasr.Types.Account.Apply.Updates.{token_update_keeps}
use lasr.Types.Account.Send.{apply_send_transaction}
use lasr.Types.Account.Send.Laws.{IsKeyed, Writes, apply_send_transaction-Writes}
use lasr.Types.Account.Send.Transfer.{CanPay, CanReceive, Succeeds, send-conserves}
use lasr.Types.Token.{Token}
use lasr.Types.TokenUpdate
use lasr.Types.TokenUpdate.{TokenUpdateField}
use lasr.Types.U256.{U256}
use lasr.Tests.{test_uint, test_token, alice, bob, payment}

abbrev seven : List U256
seven = 7 ∷ []

abbrev nine : List U256
nine = 9 ∷ []

pub alice-IsKeyed : IsKeyed alice
unfolding Map.get
alice-IsKeyed k t e = ground arith

pub bob-IsKeyed : IsKeyed bob
unfolding Map.get
bob-IsKeyed k t e = ground arith

alice_pays : CanPay payment alice
unfolding Map.get
alice_pays = (test_token 1 10 50 (7 ∷ 8 ∷ []), refl, refl, omega arith)

bob_receives : CanReceive payment bob
unfolding Map.get
bob_receives = inl (test_token 1 20 5 [], refl, refl, omega arith)

send-conserves_example :
    let (r, a') = apply_send_transaction payment none alice in
    let (s, b') = apply_send_transaction payment (some alice) bob in
    Succeeds r
    × Succeeds s
    × (balance 1 a' + 30 ≡ balance 1 alice)
    × (balance 1 b' ≡ balance 1 bob + 30)
    × (balance 1 a' + balance 1 b' ≡ balance 1 alice + balance 1 bob)
send-conserves_example =
    send-conserves payment alice bob none (some alice) alice-IsKeyed bob-IsKeyed refl (omega arith)
      alice_pays bob_receives

apply_send_transaction-Writes_example : Writes alice 1 (apply_send_transaction payment none alice)
apply_send_transaction-Writes_example =
    apply_send_transaction-Writes none payment alice alice-IsKeyed

abbrev alice_token : Token
alice_token = test_token 1 10 50 (7 ∷ 8 ∷ [])

alice_has : Map.get 1 alice.programs ≡ some alice_token
unfolding Map.get
alice_has = refl

alice-Covers : Covers 1 (some 20) seven alice
unfolding Map.get
alice-Covers = record { token = alice_token; found = refl; enough = omega arith; owned = refl }

bob_has_room : balance 1 bob + 20 < 2 ^ 256
unfolding Map.get
bob_has_room = omega arith

transfer-conserves_example :
    let a' = (apply_transfer_from_instruction 1 (some 20) seven alice).1 in
    let b' = (apply_transfer_to_instruction 1 (some 20) seven none bob).1 in
    (balance 1 a' + balance 1 b' ≡ balance 1 alice + balance 1 bob)
    × (holds 1 7 a' ≡ (not (contains seven 7) && holds 1 7 alice))
    × (holds 1 7 b' ≡ (holds 1 7 bob || contains seven 7))
transfer-conserves_example =
    transfer-conserves 1 (some 20) seven none alice bob 7 alice-Covers bob_has_room

transfer_from_not_atomic_example :
    let (r, a') = apply_transfer_from_instruction 1 (some 20) nine alice in
    (r ≡ err token_ids_not_owned) × (balance 1 a' + 20 ≡ balance 1 alice)
transfer_from_not_atomic_example =
    transfer_from_not_atomic 1 20 nine alice alice_token alice_has (omega arith) refl

abbrev lock_it : TokenUpdateField
lock_it = record {
  field = TokenUpdate.TokenField.status;
  value = TokenUpdate.TokenFieldValue.status TokenUpdate.StatusValue.lock;
}

token_update_keeps_example :
    let a' = (apply_token_update 1 (lock_it ∷ []) bob alice).1 in
    (balance 1 a' ≡ balance 1 alice) × (holds 1 7 a' ≡ holds 1 7 alice)
token_update_keeps_example = token_update_keeps (lock_it ∷ []) bob 1 1 7 alice

abbrev rich : Token
rich = test_token 1 20 25 nine

distributed : (apply_token_distribution 1 (some 20) nine [] alice bob).0 ≡ ok rich
unfolding apply_token_distribution Map.get lasr.Types.Account.on_program
    lasr.Types.Account.Apply.give lasr.Types.Token.credit lasr.Types.Token.add_token_ids
    TokenUpdate.apply_update_fields
distributed = refl
