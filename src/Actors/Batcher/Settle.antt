-- ===== src/Actors/Batcher/Settle.antt =====
-- `Batcher::handle_next_batch_request` and `handle_blob_verification_proof` of
-- crates/actors/src/batcher.rs: the parent batch goes to the store and to the data availability
-- client, and later to the settlement contract.
pub mod Line
pub mod Proofs
use lasr.Base.{
  ℕ, ◌≡◌, ◌⊎◌, arith, String, Bool, true, false, Option, none, some, List, [], ◌∷◌, ◌++◌,
  if◌then◌else◌, map, length, ◌==◌, nat_eq, string_eq,
}
use lasr.Base.Map
use lasr.Base.Map.{Map}
use lasr.Base.Result.{Result, ok, err, panic}
use lasr.Types.Address.{Address}
use lasr.Types.Account.{Account}
use lasr.Actors.Batch.{Batch, new_batch, empty}
use lasr.Actors.Batcher.{Batcher}

-- What is not of this code: whether the client is up, the encoding of a batch, and the request id
-- with which the client answers.
pub record DaClient : Type 0 where
  pub up : Bool
  pub encode_batch : Batch → Option String
  pub respond : String → Option String

-- what goes out: accounts to the store, the encoded batch and a request to validate it to the client
pub data SettleCast : Type 0 where
  put : Address → Account → SettleCast
  store_batch : String → SettleCast
  validate_blob : String → SettleCast

pub data SettleResult : Type 0 where
  done encode_failed no_response : SettleResult

abbrev pub Settled : Type 0
Settled = SettleResult × Batcher × List SettleCast

abbrev pub puts : Map Address Account → List SettleCast
puts accounts = map (λ x. put x.0 x.1) accounts

-- the parent is kept under the request id; with a child in line the function returns at once
abbrev pub next_parent : String → Batcher → Batcher × List SettleCast
next_parent request_id b =
    let cache = Map.insert request_id b.parent b.cache in
    elim b.children [
      | child ∷ rest ↦ (record { parent = child; children = rest; cache = cache }, [])
      | [] ↦ (
        record { parent = new_batch; children = []; cache = cache },
        validate_blob request_id ∷ [],
      )
    ]

abbrev pub responded : List SettleCast → Batcher → Option String → Settled
responded sent b none = (no_response, b, sent)
responded sent b (some request_id) =
    let (b', more) = next_parent request_id b in (done, b', sent ++ more)

abbrev pub stored_batch : DaClient → Batcher → Option String → Settled
stored_batch da b none = (encode_failed, b, puts b.parent.accounts)
stored_batch da b (some text) =
    responded (puts b.parent.accounts ++ store_batch text ∷ []) b (da.respond text)

unfoldable pub handle_next_batch_request : DaClient → Batcher → Settled
handle_next_batch_request da b =
    if empty b.parent
    then (done, b, [])
    else if da.up
    then stored_batch da b (da.encode_batch b.parent)
    else (done, b, puts b.parent.accounts)

-- What the client of the settlement contract is sent: the accounts of the batch, the header hash of
-- the proof as its 32 bytes, and the index of the blob.
pub record Settle : Type 0 where
  pub accounts : List Address
  pub batch_header_hash : List ℕ
  pub blob_index : ℕ

pub data SettleError : Type 0 where
  unknown_request : SettleError

abbrev pub accounts_of : Batch → List Address
accounts_of batch = map (λ x. x.0) batch.accounts

-- `copy_from_slice` into an array of 32 bytes panics on another length.
abbrev settle_batch : Batch → List ℕ → ℕ → Result SettleError (List Settle)
settle_batch batch decoded blob_index =
    if length decoded == 32
    then ok (
        record {
          accounts = accounts_of batch;
          batch_header_hash = decoded;
          blob_index = blob_index;
        }
        ∷ [])
    else panic

-- `decoded` is what the crate `base64` makes of the header hash of the proof; a hash that does not
-- decode is only logged. The batch stays in the cache.
unfoldable pub handle_blob_verification_proof :
    Bool → String → Option (List ℕ) → ℕ → Batcher → Result SettleError (List Settle)
handle_blob_verification_proof eo_up request_id decoded blob_index b =
    if eo_up
    then elim (Map.get request_id b.cache) [
      | none ↦ err unknown_request
      | some batch ↦ elim decoded [
        | none ↦ ok []
        | some bytes ↦ settle_batch batch bytes blob_index
      ]
    ]
    else ok []

module _ (da : DaClient) (b : Batcher) (text request_id : String) where
  -- the one branch in which the line of batches moves on
  pub settled_lem :
      empty b.parent ≡ false
      → da.up ≡ true
      → da.encode_batch b.parent ≡ some text
      → da.respond text ≡ some request_id
      → handle_next_batch_request da b ≡ (
        done,
        (next_parent request_id b).0,
        (puts b.parent.accounts ++ store_batch text ∷ []) ++ (next_parent request_id b).1,
      )
  unfolding handle_next_batch_request
  settled_lem filled up encoded response = ground arith

-- If the client is down, or the batch has no encoding, or the client does not answer, the batcher
-- stays as it is.
pub not_settled_lem :
    (da : DaClient) (b : Batcher)
    → (da.up ≡ false)
      ⊎ ((da.encode_batch b.parent ≡ none)
          ⊎ ((text : String) × (da.encode_batch b.parent ≡ some text) × (da.respond text ≡ none)))
    → (handle_next_batch_request da b).1 ≡ b
unfolding handle_next_batch_request
not_settled_lem da b fails = ground arith
