-- ===== src/Types/Address/Hex.antt =====
-- The hexadecimal texts of an address: `to_full_string`, `from_hex`, `from_str`, `LowerHex`,
-- `Serialize` and the visitor of `Deserialize` of crates/types/src/account.rs. A text is the list of
-- its characters' codes here, and a byte a number below 256. The decoder of the crate `hex` is a
-- parameter; its encoder writes what the format `{:02x}` writes.
pub mod Trips
use lasr.Base.{
  ℕ, zero, suc, ◌+◌, ◌*◌, ◌/◌, ◌%◌, ◌<◌, ◌≡◌, Bool, true, false, ◌&&◌, Option, none, some, List, [],
  ◌∷◌, ◌++◌, ltb, ◌==◌, nat_eq, if◌then◌else◌, length, All,
}
use lasr.Base.Result.{Result, ok, err}
use lasr.Types.Address.{Address}

abbrev pub Text : Type 0
Text = List ℕ

-- the digits of the format `{:x}`
abbrev pub digit : ℕ → ℕ
digit n = if ltb n 10 then 48 + n else 87 + n

-- the format `{:02x}` of each byte
unfoldable pub encode : List ℕ → Text
encode [] = []
encode (b ∷ bytes) = digit (b / 16) ∷ digit (b % 16) ∷ encode bytes

-- What the crate `hex` documents: it decodes what the encoder wrote.
pub record HexDecoder : Type 0 where
  pub decode : Text → Option (List ℕ)
  pub decode-encode :
      (bytes : List ℕ) → All (λ b. b < 256) bytes → decode (encode bytes) ≡ some bytes

-- the 20 bytes of the array, the highest first
unfoldable pub bytes_of : ℕ → ℕ → List ℕ
bytes_of zero a = []
bytes_of (suc n) a = bytes_of n (a / 256) ++ (a % 256) ∷ []

unfoldable pub from_bytes : ℕ → List ℕ → Address
from_bytes high [] = high
from_bytes high (b ∷ bytes) = from_bytes (high * 256 + b) bytes

pub data FromHexError : Type 0 where
  invalid odd_length invalid_string_length not_address : FromHexError

-- `LowerHex`, and `hex::encode`
unfoldable pub lower_hex : Address → Text
unfolding bytes_of encode
lower_hex a = encode (bytes_of 20 a)

-- `format!("0x{:x}")`, and the text that `serialize` writes
abbrev pub to_full_string : Address → Text
to_full_string a = 48 ∷ 120 ∷ lower_hex a

-- `strip_prefix("0x")`
abbrev pub strip_prefix : Text → Option Text
strip_prefix [] = none
strip_prefix (c ∷ []) = none
strip_prefix (c ∷ d ∷ rest) = if (c == 48) && (d == 120) then some rest else none

abbrev pub stripped : Text → Option Text → Text
stripped s none = s
stripped s (some v) = v

abbrev pub exactly_20 : FromHexError → Option (List ℕ) → Result FromHexError Address
exactly_20 e none = err invalid
exactly_20 e (some bytes) = if length bytes == 20 then ok (from_bytes 0 bytes) else err e

-- the text of the one character
abbrev pub is_char : ℕ → Text → Bool
is_char c (d ∷ []) = d == c
is_char c _ = false

module _ ⦃h : HexDecoder⦄ where
  unfoldable pub from_hex : Text → Result FromHexError Address
  unfolding from_bytes
  from_hex s = exactly_20 odd_length (h.decode (stripped s (strip_prefix s)))

  unfoldable pub from_str : Text → Result FromHexError Address
  unfolding from_bytes
  from_str s =
      let hex_str = stripped s (strip_prefix s) in
      if is_char 48 hex_str
      then ok 0
      else if is_char 49 hex_str
      then ok 1
      else exactly_20 invalid_string_length (h.decode hex_str)
