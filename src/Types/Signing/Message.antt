-- ===== src/Types/Signing/Message.antt =====
-- The message that is hashed and signed: `as_bytes` of crates/types/src/transaction.rs, up to the printer of JSON.
use lasr.Base.{
  ◌^◌, ◌<◌, ◌≡◌, refl, sym, ap, ◌∙◌, String, Option, none, some, ◌==◌, string_eq, if◌then◌else◌,
  ◌∷◌,
}
use lasr.Types.Address.{Address}
use lasr.Types.Address.Hex.{HexDecoder, lower_hex, from_hex}
use lasr.Types.Address.Hex.Trips.{parses-texts}
use lasr.Types.Transaction.{
  TransactionType, bridge_in, send, call, bridge_out, register_program, Payload,
}
use lasr.Types.U256.{U256, u256_mod}
use lasr.Types.Signing.{Digests, hex, object, end, field, to_json, payload_json}

abbrev pub number : TransactionType → U256
number (bridge_in n) = n
number (send n) = n
number (call n) = n
number (bridge_out n) = n
number (register_program n) = n

-- the addresses of a payload have 20 bytes, and its numbers 32
pub record IsSized (p : Payload) : Type 0 where
  pub from : p.from < 2 ^ 160
  pub to : p.to < 2 ^ 160
  pub program_id : p.program_id < 2 ^ 160
  pub value : p.value < u256_mod
  pub nonce : p.nonce < u256_mod
  pub number : number p.transaction_type < u256_mod

-- Two numbers that the format `{:064x}` writes alike are the same.
abbrev pub Formats : ⦃d : Digests⦄ → Type 0
Formats ⦃d⦄ = (a b : U256) → a < u256_mod → b < u256_mod → d.format a ≡ d.format b → a ≡ b

lower_hex_injective :
    ⦃h : HexDecoder⦄ (a b : Address) → a < 2 ^ 160 → b < 2 ^ 160 → lower_hex a ≡ lower_hex b → a ≡ b
lower_hex_injective a b lt lt' e =
    let (_, read, _, _) = parses-texts a lt in
    let (_, read', _, _) = parses-texts b lt' in cc (sym read ∙ ap from_hex e ∙ read')

abbrev key : TransactionType → String
key (bridge_in _) = "bridgeIn"
key (send _) = "send"
key (call _) = "call"
key (bridge_out _) = "bridgeOut"
key (register_program _) = "registerProgram"

-- the type of a transaction from the key and the number of its JSON value
abbrev read_type : String → U256 → Option TransactionType
read_type k n =
    if k == "bridgeIn"
    then some (bridge_in n)
    else if k == "send"
    then some (send n)
    else if k == "call"
    then some (call n)
    else if k == "bridgeOut"
    then some (bridge_out n)
    else if k == "registerProgram"
    then some (register_program n)
    else none

read_type-key : (t : TransactionType) → read_type (key t) (number t) ≡ some t
read_type-key (bridge_in n) = refl
read_type-key (send n) = refl
read_type-key (call n) = refl
read_type-key (bridge_out n) = refl
read_type-key (register_program n) = refl

module _ ⦃d : Digests⦄ (formats : Formats) where
  to_json-key :
      (t : TransactionType)
      → to_json t ≡ object (field (key t) (hex (48 ∷ 120 ∷ d.format (number t))) end)
  unfolding to_json
  to_json-key (bridge_in n) = refl
  to_json-key (send n) = refl
  to_json-key (call n) = refl
  to_json-key (bridge_out n) = refl
  to_json-key (register_program n) = refl

  to_json_injective :
      (t u : TransactionType)
      → number t < u256_mod
      → number u < u256_mod
      → to_json t ≡ to_json u
      → t ≡ u
  to_json_injective t u lt lt' e =
      let e' : object (field (key t) (hex (48 ∷ 120 ∷ d.format (number t))) end)
          ≡ object (field (key u) (hex (48 ∷ 120 ∷ d.format (number u))) end) =
        sym (to_json-key t) ∙ e ∙ to_json-key u in
      let same = formats (number t) (number u) lt lt' (cc e') in
      cc (read_type-key t, read_type-key u, e', same)

  -- Two payloads whose messages are the same JSON value, before it is printed and hashed, are the
  -- same in every field: if their addresses have 20 bytes and their numbers 32, if the format of
  -- numbers writes no two of these alike, and by the decoder of hexadecimal texts.
  pub payload_json_injective :
      ⦃h : HexDecoder⦄ (p q : Payload)
      → IsSized p
      → IsSized q
      → payload_json p ≡ payload_json q
      → p ≡ q
  unfolding payload_json
  payload_json_injective p q sp sq e =
      let from = lower_hex_injective p.from q.from sp.from sq.from (cc e) in
      let to = lower_hex_injective p.to q.to sp.to sq.to (cc e) in
      let program_id =
        lower_hex_injective p.program_id q.program_id sp.program_id sq.program_id (cc e) in
      let value = formats p.value q.value sp.value sq.value (cc e) in
      let nonce = formats p.nonce q.nonce sp.nonce sq.nonce (cc e) in
      let kind =
        to_json_injective p.transaction_type q.transaction_type sp.number sq.number (cc e) in
      cc (e, from, to, program_id, value, nonce, kind)
