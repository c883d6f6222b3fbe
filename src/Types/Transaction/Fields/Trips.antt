-- ===== src/Types/Transaction/Fields/Trips.antt =====
-- The fields of a transaction are read back from the texts that are written of them.
use lasr.Base.{ℕ, ◌^◌, ◌<◌, ◌≡◌, refl, ap, ◌∙◌, arith, false, none, List, [], ◌∷◌, length, All}
use lasr.Base.Result.{ok, err}
use lasr.Types.Address.Hex.{Text, HexDecoder, encode, bytes_of, from_bytes, strip_prefix}
use lasr.Types.Address.Hex.Trips.{
  above, from_bytes-bytes_of, length-bytes_of, All-bytes_of, strip_prefix-encode,
}
use lasr.Types.Transaction.Fields.{
  not_text, hex, starts_with, into_array, decoded, serialize_as_hex,
  deserialize_address_bytes_or_string, deserialize_sig_bytes_or_string,
}

-- no digit is a bracket
starts_with-encode :
    (bytes : List ℕ) → All (λ b. b < 256) bytes → starts_with 91 (encode bytes) ≡ false
unfolding encode
starts_with-encode [] _ = refl
starts_with-encode (b ∷ bytes) (lt, _) = ground arith

above_32 : (r : ℕ) → r < 2 ^ 256 → above 32 r ≡ 0
above_32 r lt = omega arith

above_20 : (a : ℕ) → a < 2 ^ 160 → above 20 a ≡ 0
above_20 a lt = omega arith

into_array-same :
    (n : ℕ) (bytes : List ℕ) → length bytes ≡ n → into_array n bytes ≡ ok (from_bytes 0 bytes)
into_array-same n bytes e = ground arith

module _ ⦃h : HexDecoder⦄ where
  decoded-encode : (n a : ℕ) → above n a ≡ 0 → decoded n (h.decode (encode (bytes_of n a))) ≡ ok a
  decoded-encode n a fits =
      ap (decoded n) (h.decode-encode (bytes_of n a) (All-bytes_of n a))
      ∙ into_array-same n (bytes_of n a) (length-bytes_of n a)
      ∙ ap ok (from_bytes-bytes_of n a fits)

  -- a text that neither has the prefix nor stands in brackets
  address_plain :
      (s : Text)
      → strip_prefix s ≡ none
      → starts_with 91 s ≡ false
      → deserialize_address_bytes_or_string (hex s) ≡ decoded 20 (h.decode s)
  unfolding deserialize_address_bytes_or_string
  address_plain s e e' = ground (arith, e, e')

  sig_plain :
      (s : Text)
      → strip_prefix s ≡ none
      → starts_with 91 s ≡ false
      → deserialize_sig_bytes_or_string (hex s) ≡ err not_text
  unfolding deserialize_sig_bytes_or_string
  sig_plain s e e' = ground (arith, e, e')

  -- An address of 20 bytes is read as itself from its hexadecimal text with the prefix, which is what
  -- is written, and without it. Half of a signature, of 32 bytes, is read as itself from its text
  -- with the prefix, which is what is written; without the prefix it is refused.
  pub fields_read :
      (a r : ℕ)
      → a < 2 ^ 160
      → r < 2 ^ 256
      → (deserialize_address_bytes_or_string (hex (serialize_as_hex 20 a)) ≡ ok a)
        × (deserialize_address_bytes_or_string (hex (encode (bytes_of 20 a))) ≡ ok a)
        × (deserialize_sig_bytes_or_string (hex (serialize_as_hex 32 r)) ≡ ok r)
        × (deserialize_sig_bytes_or_string (hex (encode (bytes_of 32 r))) ≡ err not_text)
  unfolding deserialize_address_bytes_or_string deserialize_sig_bytes_or_string serialize_as_hex
  fields_read a r lt lt' =
      let text = λ (n x : ℕ). encode (bytes_of n x) in
      let no_prefix = λ (n x : ℕ). strip_prefix-encode (bytes_of n x) (All-bytes_of n x) in
      let no_bracket = λ (n x : ℕ). starts_with-encode (bytes_of n x) (All-bytes_of n x) in
      (
        decoded-encode 20 a (above_20 a lt),
        address_plain (text 20 a) (no_prefix 20 a) (no_bracket 20 a)
            ∙ decoded-encode 20 a (above_20 a lt),
        decoded-encode 32 r (above_32 r lt'),
        sig_plain (text 32 r) (no_prefix 32 r) (no_bracket 32 r),
      )
