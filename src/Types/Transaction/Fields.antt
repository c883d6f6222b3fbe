-- ===== src/Types/Transaction/Fields.antt =====
-- How the addresses and the halves of a signature in a transaction are written to JSON and read:
-- `serialize_as_hex`, `deserialize_address_bytes_or_string` and `deserialize_sig_bytes_or_string` of
-- crates/types/src/transaction.rs. A text is the list of its characters' codes.
pub mod Trips
use lasr.Base.{
  ℕ, ◌+◌, ◌-◌, ◌*◌, Bool, true, false, ◌&&◌, ◌||◌, Option, none, some, List, [], ◌∷◌, leb, ltb,
  ◌==◌, nat_eq, if◌then◌else◌, length,
}
use lasr.Base.Result.{Result, ok, err, panic}
use lasr.Types.Address.Hex.{Text, HexDecoder, encode, bytes_of, from_bytes, strip_prefix}

-- `HexOr20Bytes` and `HexOr32Bytes`: a string, or an array of as many bytes as the type has
pub data HexOrBytes : Type 0 where
  hex : Text → HexOrBytes
  bytes : List ℕ → HexOrBytes

pub data FieldError : Type 0 where
  not_hex not_byte wrong_length not_text : FieldError

-- `str::split(',')`
unfoldable pub split : Text → List Text
split [] = [] ∷ []
split (c ∷ s) =
    let rest = split s in
    if c == 44
    then [] ∷ rest
    else elim rest [ [] ↦ (c ∷ []) ∷ [] | first ∷ others ↦ (c ∷ first) ∷ others ]

-- `char::is_whitespace`
abbrev pub is_whitespace : ℕ → Bool
is_whitespace c =
    (leb 9 c && leb c 13)
    || (c == 32)
    || (c == 133)
    || (c == 160)
    || (c == 5760)
    || (leb 8192 c && leb c 8202)
    || (c == 8232)
    || (c == 8233)
    || (c == 8239)
    || (c == 8287)
    || (c == 12288)

unfoldable pub trim_start : Text → Text
trim_start [] = []
trim_start (c ∷ s) = let rest = trim_start s in if is_whitespace c then rest else c ∷ s

-- what is left of a text without the white space at its end
unfoldable pub trim_end : Text → Text
trim_end [] = []
trim_end (c ∷ s) = elim (trim_end s) [
  | [] ↦ if is_whitespace c then [] else c ∷ []
  | d ∷ rest ↦ c ∷ d ∷ rest
]

-- the digits of a `u8` behind a value that was read
unfoldable pub digits : ℕ → Text → Option ℕ
digits n [] = some n
digits n (c ∷ s) =
    let n' = n * 10 + (c - 48) in
    let rest = digits n' s in if leb 48 c && leb c 57 && ltb n' 256 then rest else none

-- `str::parse::<u8>`, which takes a plus sign
unfoldable pub parse_u8 : Text → Option ℕ
unfolding digits
parse_u8 [] = none
parse_u8 (c ∷ []) = if c == 43 then none else digits 0 (c ∷ [])
parse_u8 (c ∷ d ∷ s) = if c == 43 then digits 0 (d ∷ s) else digits 0 (c ∷ d ∷ s)

-- each part trimmed and parsed, up to the first that is no byte
unfoldable pub parse_all : List Text → Result FieldError (List ℕ)
unfolding trim_start trim_end parse_u8
parse_all [] = ok []
parse_all (part ∷ parts) =
    let rest = parse_all parts in
    elim (parse_u8 (trim_end (trim_start part))) [
      | none ↦ err not_byte
      | some b ↦ elim rest [ ok bs ↦ ok (b ∷ bs) | err e ↦ err e | panic ↦ panic ]
    ]

abbrev pub starts_with : ℕ → Text → Bool
starts_with c [] = false
starts_with c (d ∷ s) = d == c

abbrev pub ends_with : ℕ → Text → Bool
ends_with c [] = false
ends_with c (d ∷ []) = d == c
ends_with c (d ∷ e ∷ s) = ends_with c (e ∷ s)

-- a text without its last character
abbrev pub but_last : Text → Text
but_last [] = []
but_last (c ∷ []) = []
but_last (c ∷ d ∷ s) = c ∷ but_last (d ∷ s)

-- `&value[1..value.len() - 1]`
abbrev pub inner : Text → Text
inner [] = []
inner (c ∷ s) = but_last s

-- `try_into` an array of n bytes, as a number
abbrev pub into_array : ℕ → List ℕ → Result FieldError ℕ
into_array n bs = if length bs == n then ok (from_bytes 0 bs) else err wrong_length

abbrev pub decoded : ℕ → Option (List ℕ) → Result FieldError ℕ
decoded n none = err not_hex
decoded n (some bs) = into_array n bs

abbrev pub parsed : ℕ → Result FieldError (List ℕ) → Result FieldError ℕ
parsed n (ok bs) = into_array n bs
parsed n (err e) = err e
parsed n panic = panic

-- the text that `serialize_as_hex` writes of a number's n bytes
unfoldable pub serialize_as_hex : ℕ → ℕ → Text
unfolding bytes_of encode
serialize_as_hex n a = 48 ∷ 120 ∷ encode (bytes_of n a)

module _ ⦃h : HexDecoder⦄ where
  unfoldable pub deserialize_address_bytes_or_string : HexOrBytes → Result FieldError ℕ
  unfolding from_bytes split parse_all
  deserialize_address_bytes_or_string (bytes v) = ok (from_bytes 0 v)
  deserialize_address_bytes_or_string (hex value) = elim (strip_prefix value) [
    | some s ↦ decoded 20 (h.decode s)
    | none ↦
        if starts_with 91 value && ends_with 93 value
        then parsed 20 (parse_all (split (inner value)))
        else decoded 20 (h.decode value)
  ]

  unfoldable pub deserialize_sig_bytes_or_string : HexOrBytes → Result FieldError ℕ
  unfolding from_bytes split parse_all
  deserialize_sig_bytes_or_string (bytes v) = ok (from_bytes 0 v)
  deserialize_sig_bytes_or_string (hex value) = elim (strip_prefix value) [
    | some s ↦ decoded 32 (h.decode s)
    | none ↦
        if starts_with 91 value && ends_with 93 value
        then parsed 32 (parse_all (split (inner value)))
        else err not_text
  ]
