-- ===== src/Types/Address/Hex/Trips.antt =====
-- The texts of an address are read back as the address.
use lasr.Base.{
  ℕ, zero, suc, ◌+◌, ◌*◌, ◌/◌, ◌%◌, ◌^◌, ◌<◌, ◌≡◌, refl, ap, ◌∙◌, arith, false, none, some, List,
  [], ◌∷◌, ◌++◌, length, All,
}
use lasr.Base.Result.{ok}
use lasr.Types.Address.{Address}
use lasr.Types.Address.Hex.{
  Text, encode, HexDecoder, FromHexError, odd_length, invalid_string_length, bytes_of, from_bytes,
  lower_hex, to_full_string, from_hex, from_str, strip_prefix, stripped, exactly_20, is_char,
}

from_bytes-append :
    (high b : ℕ) (bytes : List ℕ)
    → from_bytes high (bytes ++ b ∷ []) ≡ from_bytes high bytes * 256 + b
unfolding from_bytes
from_bytes-append high b [] = refl
from_bytes-append high b (c ∷ bytes) = from_bytes-append (high * 256 + c) b bytes

-- what is left of a number behind its lowest bytes
abbrev pub above : ℕ → ℕ → ℕ
above zero a = a
above (suc n) a = above n (a / 256)

pub from_bytes-bytes_of : (n a : ℕ) → above n a ≡ 0 → from_bytes 0 (bytes_of n a) ≡ a
unfolding bytes_of from_bytes
from_bytes-bytes_of zero a e = omega arith
from_bytes-bytes_of (suc n) a e =
    omega (
      arith,
      from_bytes-append 0 (a % 256) (bytes_of n (a / 256)),
      from_bytes-bytes_of n (a / 256) e,
    )

length-append_one : (b : ℕ) (bytes : List ℕ) → length (bytes ++ b ∷ []) ≡ suc (length bytes)
length-append_one b [] = refl
length-append_one b (c ∷ bytes) = ap suc (length-append_one b bytes)

pub length-bytes_of : (n a : ℕ) → length (bytes_of n a) ≡ n
unfolding bytes_of
length-bytes_of zero a = refl
length-bytes_of (suc n) a =
    length-append_one (a % 256) (bytes_of n (a / 256)) ∙ ap suc (length-bytes_of n (a / 256))

All-append_one :
    (b : ℕ) (bytes : List ℕ)
    → b < 256
    → All (λ c. c < 256) bytes
    → All (λ c. c < 256) (bytes ++ b ∷ [])
All-append_one b [] lt all_lt = (lt, tt)
All-append_one b (c ∷ bytes) lt (lt', all_lt) = (lt', All-append_one b bytes lt all_lt)

pub All-bytes_of : (n a : ℕ) → All (λ c. c < 256) (bytes_of n a)
unfolding bytes_of
All-bytes_of zero a = tt
All-bytes_of (suc n) a =
    All-append_one (a % 256) (bytes_of n (a / 256)) (omega arith) (All-bytes_of n (a / 256))

above-fits : (a : ℕ) → a < 2 ^ 160 → above 20 a ≡ 0
above-fits a lt = omega arith

-- no text of bytes begins with `0x`
pub strip_prefix-encode :
    (bytes : List ℕ) → All (λ b. b < 256) bytes → strip_prefix (encode bytes) ≡ none
unfolding encode
strip_prefix-encode [] _ = refl
strip_prefix-encode (b ∷ bytes) (lt, _) = ground arith

is_char-encode : (c : ℕ) (bytes : List ℕ) → is_char c (encode bytes) ≡ false
unfolding encode
is_char-encode c [] = refl
is_char-encode c (b ∷ bytes) = refl

exactly_20-some :
    (e : FromHexError) (bytes : List ℕ)
    → length bytes ≡ 20
    → exactly_20 e (some bytes) ≡ ok (from_bytes 0 bytes)
exactly_20-some e bytes h = ground arith

module _ ⦃h : HexDecoder⦄ where
  exactly_20-encode :
      (e : FromHexError) (bytes : List ℕ)
      → All (λ b. b < 256) bytes
      → length bytes ≡ 20
      → exactly_20 e (h.decode (encode bytes)) ≡ ok (from_bytes 0 bytes)
  exactly_20-encode e bytes small len =
      ap (exactly_20 e) (h.decode-encode bytes small) ∙ exactly_20-some e bytes len

  -- past the texts of one character
  from_str-stripped :
      (s : Text)
      → is_char 48 (stripped s (strip_prefix s)) ≡ false
      → is_char 49 (stripped s (strip_prefix s)) ≡ false
      → from_str s ≡ exactly_20 invalid_string_length (h.decode (stripped s (strip_prefix s)))
  unfolding from_str
  from_str-stripped s e e' = ground arith

  from_str-plain :
      (s : Text)
      → strip_prefix s ≡ none
      → is_char 48 s ≡ false
      → is_char 49 s ≡ false
      → from_str s ≡ exactly_20 invalid_string_length (h.decode s)
  unfolding from_str
  from_str-plain s e e' e'' = ground arith

  decoded-lower_hex :
      (e : FromHexError) (a : Address) → a < 2 ^ 160 → exactly_20 e (h.decode (lower_hex a)) ≡ ok a
  unfolding lower_hex
  decoded-lower_hex e a lt =
      exactly_20-encode e (bytes_of 20 a) (All-bytes_of 20 a) (length-bytes_of 20 a)
      ∙ ap ok (from_bytes-bytes_of 20 a (above-fits a lt))

  -- Both parsers read both texts of an address, with and without the prefix, as that address.
  pub parses-texts :
      (a : Address)
      → a < 2 ^ 160
      → (from_hex (to_full_string a) ≡ ok a)
        × (from_hex (lower_hex a) ≡ ok a)
        × (from_str (to_full_string a) ≡ ok a)
        × (from_str (lower_hex a) ≡ ok a)
  unfolding from_hex from_str lower_hex
  parses-texts a lt =
      let no_prefix = strip_prefix-encode (bytes_of 20 a) (All-bytes_of 20 a) in
      let not_0 = is_char-encode 48 (bytes_of 20 a) in
      let not_1 = is_char-encode 49 (bytes_of 20 a) in
      let read = λ (e : FromHexError). decoded-lower_hex e a lt in
      (
        read odd_length,
        ap (λ p. exactly_20 odd_length (h.decode (stripped (lower_hex a) p))) no_prefix
            ∙ read odd_length,
        from_str-stripped (to_full_string a) not_0 not_1 ∙ read invalid_string_length,
        from_str-plain (lower_hex a) no_prefix not_0 not_1 ∙ read invalid_string_length,
      )
