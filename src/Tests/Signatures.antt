-- ===== src/Tests/Signatures.antt =====
-- The theorems on messages and signatures, for a curve whose keys are numbers, at concrete inputs.
use lasr.Base.{ℕ, ◌≡◌, ◌↔◌, refl, arith, [], ◌∷◌, length}
use lasr.Base.Int.{pos, negsuc}
use lasr.Base.Result.{ok, err}
use lasr.Types.Address.Hex.{encode, bytes_of}
use lasr.Types.Transaction.{Payload, Transaction, send, signed}
use lasr.Types.Signing.{
  Bytes, secp, Digests, Curve, from_public_key, transaction_recover, verify_signature, sign,
}
use lasr.Types.Signing.Laws.{verify-sign, verify-recover}
use lasr.Types.Signing.Message.{IsSized, Formats, payload_json_injective}
use lasr.Types.Transaction.Fields.{
  not_byte, not_text, split, parse_all, hex, serialize_as_hex, deserialize_address_bytes_or_string,
  deserialize_sig_bytes_or_string,
}
use lasr.Types.Transaction.Fields.Trips.{fields_read}
use lasr.Tests.Wallets.{test_hex}

-- 32 bytes that depend on the first byte alone
abbrev test_hash : Bytes → Bytes
test_hash [] = bytes_of 32 0
test_hash (b ∷ bytes) = bytes_of 32 b

length-test_hash : (bytes : Bytes) → length (test_hash bytes) ≡ 32
unfolding bytes_of
length-test_hash [] = refl
length-test_hash (b ∷ bytes) = refl

instance abbrev test_digests : Digests
test_digests = record {
  to_string = λ _. 123 ∷ [];
  format = λ n. n ∷ [];
  keccak256 = test_hash;
  length-keccak256 = length-test_hash;
}

-- a signature that is the key that made it
abbrev test_curve : Curve ℕ ℕ ℕ
test_curve = record {
  from_i32 = λ v. elim v [ pos n ↦ ok n | negsuc n ↦ err (secp 1) ];
  from_compact = λ g. ok g.r;
  serialize_compact = λ s. record { id = 1; r = s; s = 0 };
  recover_ecdsa = λ digest s. ok s;
  sign_ecdsa_recoverable = λ digest k. k;
  public_key = λ k. k;
  serialize_uncompressed = λ pk. pk ∷ [];
  recover_electrum = λ r s v message. ok r;
  from_i32-id = λ s. refl;
  small_id = λ s. omega arith;
  from_compact-serialize_compact = λ s. refl;
  recover_ecdsa-sign = λ digest k. refl;
}

abbrev payload : Payload
payload = record {
  transaction_type = send 4;
  from = 10;
  to = 20;
  program_id = 1;
  op = "";
  inputs = "";
  value = 30;
  nonce = 5;
}

-- the key 10 has the address 10 here
verify-sign_example :
    let tx = signed payload (sign test_curve 10 payload) in
    (transaction_recover test_curve tx ≡ ok (from_public_key test_curve 10))
    × ((verify_signature test_curve tx ≡ ok tt) ↔ (10 ≡ from_public_key test_curve 10))
verify-sign_example = verify-sign test_curve 10 payload

key_10 : from_public_key test_curve 10 ≡ 10
unfolding from_public_key bytes_of
key_10 = refl

abbrev electrum : Transaction
electrum = signed payload (record { r = 10; s = 0; v = pos 27 })

verify-recover_example :
    (verify_signature test_curve electrum ≡ ok tt)
    ↔ (transaction_recover test_curve electrum ≡ ok 10)
unfolding signed
verify-recover_example = verify-recover test_curve electrum

electrum_verifies : verify_signature test_curve electrum ≡ ok tt
unfolding verify_signature signed
electrum_verifies = refl

test_digests-Formats : Formats
test_digests-Formats a b lt lt' e = cc e

payload-IsSized : IsSized payload
payload-IsSized = record {
  from = omega arith;
  to = omega arith;
  program_id = omega arith;
  value = omega arith;
  nonce = omega arith;
  number = omega arith;
}

payload_json_injective_example : payload ≡ payload
payload_json_injective_example =
    payload_json_injective test_digests-Formats payload payload payload-IsSized payload-IsSized refl

-- the texts "1, +20 " and "1, 256"
listed_bytes : parse_all (split (49 ∷ 44 ∷ 32 ∷ 43 ∷ 50 ∷ 48 ∷ 32 ∷ [])) ≡ ok (1 ∷ 20 ∷ [])
unfolding split parse_all
listed_bytes = refl

listed_large : parse_all (split (49 ∷ 44 ∷ 32 ∷ 50 ∷ 53 ∷ 54 ∷ [])) ≡ err not_byte
unfolding split parse_all
listed_large = refl

fields_read_example :
    (deserialize_address_bytes_or_string (hex (serialize_as_hex 20 258)) ≡ ok 258)
    × (deserialize_address_bytes_or_string (hex (encode (bytes_of 20 258))) ≡ ok 258)
    × (deserialize_sig_bytes_or_string (hex (serialize_as_hex 32 77)) ≡ ok 77)
    × (deserialize_sig_bytes_or_string (hex (encode (bytes_of 32 77))) ≡ err not_text)
fields_read_example = fields_read 258 77 (omega arith) (omega arith)
