-- ===== src/Types/Signing.antt =====
-- What is signed, and how a signature is checked: crates/types/src/signing.rs, the message and the
-- signature of crates/types/src/transaction.rs, and the address of a public key of
-- crates/types/src/account.rs. The crates `secp256k1`, `ethers_core`, `sha3`, `uint` and `serde_json`
-- are parameters.
pub mod Laws
pub mod Message
use lasr.Base.{
  ℕ, zero, suc, ◌-◌, ◌<◌, ◌≡◌, String, Bool, true, false, List, [], ◌∷◌, leb, ◌&&◌, ◌==◌, nat_eq,
  if◌then◌else◌, length,
}
use lasr.Base.Int.{ℤ, pos, negsuc}
use lasr.Base.Result.{Result, ok, err, panic}
use lasr.Types.Address.{Address}
use lasr.Types.Address.Hex.{Text, to_full_string, from_bytes}
use lasr.Types.Transaction.{
  TransactionType, bridge_in, send, call, bridge_out, register_program, Payload, Transaction,
  RecoverableSignature,
}
use lasr.Types.U256.{U256}

-- A JSON value as the macro `json!` builds it: a string that is written in hexadecimal is a text.
mutual
  pub data Value : Type 0 where
    string : String → Value
    hex : Text → Value
    object : Fields → Value

  pub data Fields : Type 0 where
    end : Fields
    field : String → Value → Fields → Fields

-- `secp256k1::Error`, with the two that the code names
pub data SecpError : Type 0 where
  invalid_message invalid_signature : SecpError
  secp : ℕ → SecpError

abbrev pub Bytes : Type 0
Bytes = List ℕ

-- the 64 bytes of a signature as two numbers, and its recovery id
pub record Compact : Type 0 where
  pub id : ℕ
  pub r : ℕ
  pub s : ℕ

-- The printer of JSON, the format `{:064x}`, and the hash, whose digests have 32 bytes.
pub record Digests : Type 0 where
  pub to_string : Value → Bytes
  pub format : U256 → Text
  pub keccak256 : Bytes → Bytes
  pub length-keccak256 : (bytes : Bytes) → length (keccak256 bytes) ≡ 32

-- The crates' functions on signatures `S`, secret keys `K` and public keys `P`, and what they
-- document: the ids are 0 to 3, a signature is read back from its compact form, and from what a key
-- has signed its public key is recovered. The signing is by `secp256k1`, and the recovery for an id
-- of 27 or 28, from r, s and v, by `ethers_core`.
pub record Curve (S K P : Type 0) : Type 0 where
  pub from_i32 : ℤ → Result SecpError ℕ
  pub from_compact : Compact → Result SecpError S
  pub serialize_compact : S → Compact
  pub recover_ecdsa : Bytes → S → Result SecpError P
  pub sign_ecdsa_recoverable : Bytes → K → S
  pub public_key : K → P
  pub serialize_uncompressed : P → Bytes
  pub recover_electrum : ℕ → ℕ → ℕ → Bytes → Result SecpError Address
  pub from_i32-id : (s : S) → from_i32 (pos (serialize_compact s).id) ≡ ok (serialize_compact s).id
  pub small_id : (s : S) → (serialize_compact s).id < 4
  pub from_compact-serialize_compact : (s : S) → from_compact (serialize_compact s) ≡ ok s
  pub recover_ecdsa-sign :
      (digest : Bytes) (k : K)
      → recover_ecdsa digest (sign_ecdsa_recoverable digest k) ≡ ok (public_key k)

-- `(low..=high).contains(&n)`
abbrev pub contains : ℕ → ℕ → ℤ → Bool
contains low high (pos n) = leb low n && leb n high
contains low high (negsuc n) = false

abbrev pub minus : ℤ → ℕ → ℤ
minus (pos n) k = pos (n - k)
minus (negsuc n) k = negsuc n

-- the recovery id that `TryFrom<&RecoverableSignature>` asks for
unfoldable pub recovery_id : ℤ → ℤ
recovery_id v =
    if contains 0 3 v
    then v
    else if contains 27 30 v
    then minus v 27
    else if contains 35 38 v
    then minus v 35
    else v

-- `map_err(|_| e)`
abbrev pub map_err : {A : Type 0} → SecpError → Result SecpError A → Result SecpError A
map_err e (ok a) = ok a
map_err e (err _) = err e
map_err e panic = panic

abbrev pub and_then :
    {A B : Type 0} → Result SecpError A → (A → Result SecpError B) → Result SecpError B
and_then (ok a) f = f a
and_then (err e) f = err e
and_then panic f = panic

-- `Message::from_digest_slice`
abbrev pub from_digest_slice : Bytes → Result SecpError Bytes
from_digest_slice bytes = if length bytes == 32 then ok bytes else err invalid_message

unfoldable pub drop : ℕ → Bytes → Bytes
drop zero bytes = bytes
drop (suc n) [] = []
drop (suc n) (b ∷ bytes) = drop n bytes

-- v as an unsigned number, where it is 27 or 28
abbrev pub unsigned_v : ℤ → ℕ
unsigned_v (pos n) = n
unsigned_v (negsuc n) = 0

-- the transaction without its signature
abbrev pub payload_part : Transaction → Payload
payload_part tx = record {
  transaction_type = tx.transaction_type;
  from = tx.from;
  to = tx.to;
  program_id = tx.program_id;
  op = tx.op;
  inputs = tx.inputs;
  value = tx.value;
  nonce = tx.nonce;
}

-- `Transaction::sig`
abbrev pub sig : Transaction → RecoverableSignature
sig tx = record { r = tx.r; s = tx.s; v = tx.v }

module _ ⦃d : Digests⦄ where
  unfoldable pub to_json : TransactionType → Value
  to_json (bridge_in n) = object (field "bridgeIn" (hex (48 ∷ 120 ∷ d.format n)) end)
  to_json (send n) = object (field "send" (hex (48 ∷ 120 ∷ d.format n)) end)
  to_json (call n) = object (field "call" (hex (48 ∷ 120 ∷ d.format n)) end)
  to_json (register_program n) = object (field "registerProgram" (hex (48 ∷ 120 ∷ d.format n)) end)
  to_json (bridge_out n) = object (field "bridgeOut" (hex (48 ∷ 120 ∷ d.format n)) end)

  -- the value that `Payload::as_bytes` prints
  unfoldable pub payload_json : Payload → Value
  unfolding to_json
  payload_json p = object (
      field "transactionType" (to_json p.transaction_type) (
        field "from" (hex (to_full_string p.from)) (
          field "to" (hex (to_full_string p.to)) (
            field "programId" (hex (to_full_string p.program_id)) (
              field "op" (string p.op) (
                field "transactionInputs" (string p.inputs) (
                  field "value" (hex (48 ∷ 120 ∷ d.format p.value))
                    (field "nonce" (hex (48 ∷ 120 ∷ d.format p.nonce)) end))))))))

  -- the value that `Transaction::as_bytes` prints
  unfoldable pub transaction_json : Transaction → Value
  unfolding to_json
  transaction_json tx = object (
      field "transactionType" (to_json tx.transaction_type) (
        field "from" (hex (to_full_string tx.from)) (
          field "to" (hex (to_full_string tx.to)) (
            field "programId" (hex (to_full_string tx.program_id)) (
              field "op" (string tx.op) (
                field "transactionInputs" (string tx.inputs) (
                  field "value" (hex (48 ∷ 120 ∷ d.format tx.value))
                    (field "nonce" (hex (48 ∷ 120 ∷ d.format tx.nonce)) end))))))))

  -- `Payload::hash`
  unfoldable pub payload_hash : Payload → Bytes
  unfolding payload_json
  payload_hash p = d.keccak256 (d.to_string (payload_json p))

  -- `Transaction::hash`
  unfoldable pub transaction_hash : Transaction → Bytes
  unfolding transaction_json
  transaction_hash tx = d.keccak256 (d.to_string (transaction_json tx))

module _ {S K P : Type 0} (c : Curve S K P) where
  -- `impl From<Signature> for RecoverableSignature`
  unfoldable pub recoverable : S → RecoverableSignature
  recoverable s =
      let compact = c.serialize_compact s in
      record { r = compact.r; s = compact.s; v = pos compact.id }

  -- `impl TryFrom<&RecoverableSignature> for Signature`
  unfoldable pub try_signature : RecoverableSignature → Result SecpError S
  unfolding recovery_id
  try_signature g =
      and_then (c.from_i32 (recovery_id g.v))
        (λ id. c.from_compact (record { id = id; r = g.r; s = g.s }))

module _ ⦃d : Digests⦄ {S K P : Type 0} (c : Curve S K P) where
  -- `impl From<PublicKey> for Address`
  unfoldable pub from_public_key : P → Address
  unfolding drop from_bytes
  from_public_key pk =
      let serialized_pk = c.serialize_uncompressed pk in
      let result =
        d.keccak256 (if length serialized_pk == 65 then drop 1 serialized_pk else serialized_pk) in
      from_bytes 0 (drop (length result - 20) result)

  -- `RecoverableSignature::recover`
  unfoldable pub recover : RecoverableSignature → Bytes → Result SecpError Address
  unfolding try_signature from_public_key
  recover g message_bytes =
      if contains 27 28 g.v
      then map_err invalid_signature (c.recover_electrum g.r g.s (unsigned_v g.v) message_bytes)
      else and_then (from_digest_slice message_bytes) (λ message.
        and_then (try_signature c g)
          (λ s. and_then (c.recover_ecdsa message s) (λ pk. ok (from_public_key pk))))

  -- `Transaction::recover`, whose error is any error
  unfoldable pub transaction_recover : Transaction → Result SecpError Address
  unfolding recover transaction_hash
  transaction_recover tx =
      if contains 27 28 tx.v
      then c.recover_electrum tx.r tx.s (unsigned_v tx.v) (transaction_hash tx)
      else recover (sig tx) (transaction_hash tx)

  -- `Transaction::verify_signature`
  unfoldable pub verify_signature : Transaction → Result SecpError (Unit {0})
  unfolding recover transaction_hash
  verify_signature tx =
      and_then (recover (sig tx) (transaction_hash tx))
        (λ addr. if tx.from == addr then ok tt else err invalid_signature)

  -- the signature of a payload's hash by a key, as `Wallet::send` and `Wallet::sign_payload` make it
  unfoldable pub sign : K → Payload → RecoverableSignature
  unfolding payload_hash recoverable
  sign k p = recoverable c (c.sign_ecdsa_recoverable (payload_hash p) k)
