-- ===== src/Wallet/Keys.antt =====
-- The wallet's signature by its secret key, and the validator's check of it: crates/wallet/src/wallet.rs
-- over crates/types/src/signing.rs.
use lasr.Base.{refl, Bool, true, false}
use lasr.Base.Result.{Result, ok}
use lasr.Types.Signing.{Digests, Curve, SecpError, from_public_key, verify_signature, sign}
use lasr.Types.Signing.Laws.{verify-sign}
use lasr.Actors.Validator.{Signatures}
use lasr.Wallet.Sends.{IsKeyOf}

abbrev passed : Result SecpError (Unit {0}) → Bool
passed (ok _) = true
passed _ = false

module _ ⦃d : Digests⦄ {S K P : Type 0} (c : Curve S K P) where
  -- what the validator asks of a signature
  unfoldable pub key_signatures : Signatures
  unfolding verify_signature
  key_signatures = record { verify_signature = λ tx. passed (verify_signature c tx) }

  -- A wallet whose address is that of its secret key holds the key of the address.
  pub sign-IsKeyOf :
      (k : K) → IsKeyOf ⦃v = key_signatures⦄ (sign c k) (from_public_key c (c.public_key k))
  unfolding key_signatures
  sign-IsKeyOf k p e = rw ((verify-sign c k p).1.1 e) refl
