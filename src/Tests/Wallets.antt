-- ===== src/Tests/Wallets.antt =====
-- A send from a wallet, and the texts of addresses.
use lasr.Base.{
  ℕ, ◌+◌, ◌-◌, ◌*◌, ◌/◌, ◌%◌, ◌<◌, ◌≡◌, refl, ap, ◌∙◌, inl, inr, arith, Option, none, some, List,
  [], ◌∷◌, All, ltb, if◌then◌else◌, nat_eq,
}
use lasr.Base.Int.{pos}
use lasr.Base.Map
use lasr.Base.Result.{ok}
use lasr.Types.Address.Hex.{
  Text, HexDecoder, digit, encode, lower_hex, to_full_string, from_hex, from_str,
}
use lasr.Types.Address.Hex.Trips.{parses-texts}
use lasr.Types.Account.{Account, balance}
use lasr.Types.Account.Send.{apply_send_transaction}
use lasr.Types.Account.Send.Transfer.{CanReceive}
use lasr.Types.Token.{Token}
use lasr.Types.Transaction.{RecoverableSignature, Transaction, signed}
use lasr.Actors.PendingActor.Runs.{IsQuiet}
use lasr.Actors.Batch.{insert_account, insert_transaction}
use lasr.Actors.Batcher.{placed}
use lasr.Actors.Batcher.Tasks.{place_all}
use lasr.Actors.Batcher.Sends.Conserves.{CanSend, HasRoom, balance_at}
use lasr.Actors.RpcServer.{Json}
use lasr.Actors.System.{System, world_of, found_account}
use lasr.Actors.System.Clients.{node_rpc}
use lasr.Wallet
use lasr.Wallet.{Wallet, Session, Signer}
use lasr.Wallet.Sends.{sent_by, IsKeyOf, send-network}
use lasr.Tests.Network.{test_node, test_system, path_up, new_state-IsQuiet}
use lasr.Tests.Accounts.{alice-IsKeyed, bob-IsKeyed}
use lasr.Tests.Validation.{test_signatures}
use lasr.Tests.{test_uint, test_hasher, test_encoder, test_env, alice, bob, test_token}

-- two digits for a byte
abbrev undigit : ℕ → ℕ
undigit c = if ltb c 58 then c - 48 else c - 87

abbrev push_byte : ℕ → Option (List ℕ) → Option (List ℕ)
push_byte b none = none
push_byte b (some bytes) = some (b ∷ bytes)

unfoldable pub test_decode : Text → Option (List ℕ)
test_decode [] = some []
test_decode (c ∷ []) = none
test_decode (c ∷ d ∷ rest) = push_byte (undigit c * 16 + undigit d) (test_decode rest)

decoded_byte : (b : ℕ) → b < 256 → undigit (digit (b / 16)) * 16 + undigit (digit (b % 16)) ≡ b
decoded_byte b lt = ground arith

pub test_decode-encode :
    (bytes : List ℕ) → All (λ b. b < 256) bytes → test_decode (encode bytes) ≡ some bytes
unfolding test_decode encode
test_decode-encode [] _ = refl
test_decode-encode (b ∷ bytes) (lt, rest) =
    ap (push_byte _) (test_decode-encode bytes rest)
    ∙ ap (λ c. some (c ∷ bytes)) (decoded_byte b lt)

instance abbrev pub test_hex : HexDecoder
test_hex = record { decode = test_decode; decode-encode = test_decode-encode }

parses-texts_example :
    (from_hex (to_full_string 258) ≡ ok 258)
    × (from_hex (lower_hex 258) ≡ ok 258)
    × (from_str (to_full_string 258) ≡ ok 258)
    × (from_str (lower_hex 258) ≡ ok 258)
parses-texts_example = parses-texts 258 (omega arith)

-- texts of JSON that stand for what they hold
data TestText : Type 0 where
  token : Token → TestText
  account : Account → TestText

abbrev read_token : TestText → Option Token
read_token (token t) = some t
read_token (account a) = none

abbrev read_account : TestText → Option Account
read_account (token t) = none
read_account (account a) = some a

abbrev test_json : Json TestText
test_json = record {
  token_text = token;
  account_text = account;
  parse_token = read_token;
  parse_account = read_account;
  parse_token-text = λ t. refl;
  parse_account-text = λ a. refl;
}

abbrev test_sign : Signer
test_sign _ = record { r = 1; s = 2; v = pos 0 }

abbrev wallet : Wallet
wallet = record { address = 10; account = alice }

test_sign-IsKeyOf : IsKeyOf test_sign 10
unfolding signed
test_sign-IsKeyOf p e = ground (arith, e, nat_eq.beq_iff p.from 10)

abbrev tx : Transaction
tx = sent_by test_sign wallet 20 1 30

wallet-CanSend : CanSend test_env tx (world_of test_system) alice bob
unfolding Map.get signed
wallet-CanSend = record {
  sender = refl;
  recipient = refl;
  sender_address = refl;
  recipient_address = refl;
  sender_keyed = alice-IsKeyed;
  recipient_keyed = bob-IsKeyed;
  no_deposit = refl;
  distinct = omega arith;
  pays = (test_token 1 10 50 (7 ∷ 8 ∷ []), refl, refl, omega arith);
  next_nonce = omega arith;
  known = inr refl;
}

bob-CanReceive : CanReceive tx bob
unfolding Map.get signed
bob-CanReceive = inl (test_token 1 20 5 [], refl, refl, omega arith)

wallet-HasRoom : HasRoom test_env tx (world_of test_system) alice bob
unfolding place_all placed insert_account insert_transaction Map.insert apply_send_transaction
    Map.get lasr.Types.Transaction.try_from signed
wallet-HasRoom = (_, _, refl, refl)

send-network_example :
    (t : Token) × (a : Account) × (s' : System) × (Wallet.send test_json
        (node_rpc test_node 7 3 test_json)
        test_sign
        20
        1
        30
        (record { wallet = wallet; network = test_system })
      ≡ (ok t, record { wallet = record wallet { account = a }; network = s' }))
    × (found_account test_node s' 10 ≡ some a)
    × (a.nonce ≡ 5)
    × (balance 1 a + 30 ≡ balance 1 alice)
    × (balance_at test_env (world_of s') 1 20
        ≡ balance_at test_env (world_of test_system) 1 20 + 30)
    × IsQuiet s'.pending
send-network_example =
    send-network test_node path_up test_json 3 test_sign wallet 20 1 30 test_system bob
      (omega arith) test_sign-IsKeyOf new_state-IsQuiet wallet-CanSend bob-CanReceive wallet-HasRoom
