-- ===== src/Types/Signing/Laws.antt =====
-- What a key signs verifies, what verifies was signed for the sender, and which recovery ids are read:
-- crates/types/src/signing.rs and crates/types/src/transaction.rs.
use lasr.Base.{
  ℕ, ◌<◌, ◌≡◌, refl, sym, ap, ◌∙◌, ◌↔◌, inl, inr, arith, false, nat_eq, Bool-cases, ◌==◌,
  if◌then◌else◌,
}
use lasr.Base.Int.{pos}
use lasr.Base.Result.{Result, ok, err, panic}
use lasr.Types.Address.{Address}
use lasr.Types.Transaction.{Payload, Transaction, RecoverableSignature, signed}
use lasr.Types.Signing.{
  Digests, Curve, SecpError, invalid_signature, contains, recovery_id, and_then, map_err,
  from_digest_slice, sig, payload_json, transaction_json, payload_hash, transaction_hash,
  from_public_key, recoverable, try_signature, recover, transaction_recover, verify_signature, sign,
}

recovery_id-small : (i : ℕ) → i < 4 → recovery_id (pos i) ≡ pos i
unfolding recovery_id
recovery_id-small i lt = ground arith

not_electrum : (i : ℕ) → i < 4 → contains 27 28 (pos i) ≡ false
not_electrum i lt = ground arith

module _ ⦃d : Digests⦄ where
  -- the message of a transaction is that of its payload, and holds no part of the signature
  hash-signed :
      (p : Payload) (g : RecoverableSignature) → transaction_hash (signed p g) ≡ payload_hash p
  unfolding transaction_hash payload_hash transaction_json payload_json signed
  hash-signed p g = refl

  message_of_payload : (p : Payload) → from_digest_slice (payload_hash p) ≡ ok (payload_hash p)
  unfolding payload_hash
  message_of_payload p = ground (arith, d.length-keccak256 (d.to_string (payload_json p)))

module _ {S K P : Type 0} (c : Curve S K P) where
  try_signature-recoverable : (s : S) → try_signature c (recoverable c s) ≡ ok s
  unfolding try_signature recoverable
  try_signature-recoverable s =
      rw (recovery_id-small (c.serialize_compact s).id (c.small_id s), c.from_i32-id s)
        (c.from_compact-serialize_compact s)

module _ ⦃d : Digests⦄ {S K P : Type 0} (c : Curve S K P) where
  recover-sign :
      (k : K) (p : Payload)
      → recover c (sign c k p) (payload_hash p) ≡ ok (from_public_key c (c.public_key k))
  unfolding recover sign recoverable
  recover-sign k p =
      let s = c.sign_ecdsa_recoverable (payload_hash p) k in
      rw
        (
          not_electrum (c.serialize_compact s).id (c.small_id s),
          message_of_payload p,
          try_signature-recoverable c s,
          c.recover_ecdsa-sign (payload_hash p) k,
        )
        refl

  signed_recover :
      (k : K) (p : Payload)
      → let tx = signed p (sign c k p) in
        recover c (sig tx) (transaction_hash tx) ≡ ok (from_public_key c (c.public_key k))
  unfolding signed
  signed_recover k p = ap (recover c (sign c k p)) (hash-signed p (sign c k p)) ∙ recover-sign k p

  verified_iff :
      (from addr : Address) (r : Result SecpError Address)
      → r ≡ ok addr
      → (and_then r (λ a. if from == a then ok tt else err invalid_signature) ≡ ok tt)
        ↔ (from ≡ addr)
  verified_iff from addr r e = rw e (ground (arith, nat_eq.beq_iff from addr))

  id_of_sign :
      (k : K) (p : Payload)
      → let tx = signed p (sign c k p) in
        transaction_recover c tx ≡ recover c (sig tx) (transaction_hash tx)
  unfolding transaction_recover sign recoverable signed
  id_of_sign k p =
      let s = c.sign_ecdsa_recoverable (payload_hash p) k in
      rw (not_electrum (c.serialize_compact s).id (c.small_id s)) refl

  -- A transaction that a key signs passes the check of the sender if the sender is the address of
  -- the key, and else fails it, the signature being another's.
  pub verify-sign :
      (k : K) (p : Payload)
      → let address = from_public_key c (c.public_key k) in
        let tx = signed p (sign c k p) in
        (transaction_recover c tx ≡ ok address)
        × ((verify_signature c tx ≡ ok tt) ↔ (p.from ≡ address))
  unfolding verify_signature signed
  verify-sign k p =
      let recovered = signed_recover k p in
      (
        id_of_sign k p ∙ recovered,
        verified_iff p.from (from_public_key c (c.public_key k)) _ recovered,
      )

  verified_none :
      (from : Address) (r : Result SecpError Address)
      → (and_then r (λ a. if from == a then ok tt else err invalid_signature) ≡ ok tt)
        ↔ (r ≡ ok from)
  verified_none from (ok a) = ground (arith, nat_eq.beq_iff from a)
  verified_none from (err e) = ground arith
  verified_none from panic = ground arith

  map_err_iff :
      (a : Address) (e : SecpError) (r : Result SecpError Address)
      → (map_err e r ≡ ok a) ↔ (r ≡ ok a)
  map_err_iff a e (ok b) = ground arith
  map_err_iff a e (err f) = ground arith
  map_err_iff a e panic = ground arith

  past_electrum :
      (tx : Transaction)
      → contains 27 28 tx.v ≡ false
      → recover c (sig tx) (transaction_hash tx) ≡ transaction_recover c tx
  unfolding transaction_recover
  past_electrum tx e = rw e refl

  recovers_iff :
      (tx : Transaction) (a : Address)
      → (recover c (sig tx) (transaction_hash tx) ≡ ok a) ↔ (transaction_recover c tx ≡ ok a)
  unfolding recover transaction_recover
  recovers_iff tx a = elim (Bool-cases (contains 27 28 tx.v)) [
    | inl e ↦ rw e (map_err_iff a invalid_signature _)
    | inr e ↦ (λ r. sym (past_electrum tx e) ∙ r, λ r. past_electrum tx e ∙ r)
  ]

  -- The check of a transaction's signature passes for exactly the transactions from which the method
  -- `recover` recovers their sender. The two recover on paths of their own for an id of 27 or 28.
  pub verify-recover :
      (tx : Transaction) → (verify_signature c tx ≡ ok tt) ↔ (transaction_recover c tx ≡ ok tx.from)
  unfolding verify_signature
  verify-recover tx =
      let (f, g) = verified_none tx.from (recover c (sig tx) (transaction_hash tx)) in
      let (h, k) = recovers_iff tx tx.from in (λ e. h (f e), λ e. g (k e))
