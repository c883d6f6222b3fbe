-- ===== src/Actors/Batcher/Settle/Proofs.antt =====
-- The proofs that come after a batch was stored: `handle_blob_verification_proof` of
-- crates/actors/src/batcher.rs.
use lasr.Base.{
  ℕ, ◌≡◌, ◌≢◌, refl, ap, ◌∙◌, arith, String, true, Option, none, some, List, [], ◌∷◌, ◌++◌, length,
  All, string_eq, Bool-cases, inl, inr,
}
use lasr.Base.Map
use lasr.Base.Map.{Map, get-insert, get-insert_self}
use lasr.Base.Result.{ok, panic}
use lasr.Actors.Batch.{Batch, empty}
use lasr.Actors.Batcher.{Batcher}
use lasr.Actors.Batcher.Settle.{
  DaClient, SettleCast, store_batch, puts, next_parent, accounts_of, responded, stored_batch,
  handle_next_batch_request, handle_blob_verification_proof,
}
use lasr.Actors.Batcher.Settle.Line.{Turn, IsAnswered, requests, requests-first}

responded-get :
    (id : String) (sent : List SettleCast) (b : Batcher) (response : Option String)
    → response ≢ some id
    → Map.get id (responded sent b response).1.cache ≡ Map.get id b.cache
responded-get id sent b none other = refl
responded-get id sent b (some request_id) other =
    ground (arith, get-insert id request_id b.parent b.cache, string_eq.beq_iff id request_id)

stored_batch-get :
    (da : DaClient) (id : String) (b : Batcher) (text : Option String)
    → ((text : String) → da.respond text ≢ some id)
    → Map.get id (stored_batch da b text).1.cache ≡ Map.get id b.cache
stored_batch-get da id b none other = refl
stored_batch-get da id b (some text) other =
    responded-get id (puts b.parent.accounts ++ store_batch text ∷ []) b (da.respond text)
      (other text)

-- a request to which the client does not answer with this id keeps what is found under it
handle-get :
    (da : DaClient) (id : String) (b : Batcher)
    → ((text : String) → da.respond text ≢ some id)
    → Map.get id (handle_next_batch_request da b).1.cache ≡ Map.get id b.cache
unfolding handle_next_batch_request
handle-get da id b other = elim (Bool-cases (empty b.parent)) [
  | inl e ↦ rw e refl
  | inr e ↦ elim (Bool-cases da.up) [
    | inl up ↦ rw (e, up) (stored_batch-get da id b (da.encode_batch b.parent) other)
    | inr down ↦ rw (e, down) refl
  ]
]

requests-get :
    (clients : List DaClient) (id : String) (b : Batcher)
    → All (λ da. (text : String) → da.respond text ≢ some id) clients
    → Map.get id (requests clients b).0.cache ≡ Map.get id b.cache
unfolding requests
requests-get [] id b others = refl
requests-get (da ∷ clients) id b (other, others) =
    requests-get clients id (handle_next_batch_request da b).1 others ∙ handle-get da id b other

next_parent-get :
    (id : String) (parent : Batch) (children : List Batch) (cache : Map String Batch)
    → let b : Batcher = record { parent = parent; children = children; cache = cache } in
      Map.get id (next_parent id b).0.cache ≡ some parent
next_parent-get id parent [] cache = get-insert_self id parent cache
next_parent-get id parent (child ∷ rest) cache = get-insert_self id parent cache

-- A batch is stored and the client answers with an id, and then any requests follow to which no
-- client answers with that id. A proof for the id that comes after them, while the settlement client
-- is up, settles the batch: the addresses of its accounts, with the decoded header hash and the
-- index of the blob, go to the settlement client if the hash has 32 bytes. A hash of another length
-- panics.
pub settled-proof :
    (t : Turn) (children : List Batch) (cache : Map String Batch) (clients : List DaClient)
    (hash short : List ℕ) (blob_index : ℕ)
    → IsAnswered t
    → All (λ da. (text : String) → da.respond text ≢ some t.request_id) clients
    → length hash ≡ 32
    → length short ≢ 32
    → let b : Batcher = record { parent = t.batch; children = children; cache = cache } in
      let (b', _) = requests (t.client ∷ clients) b in
      (handle_blob_verification_proof true t.request_id (some hash) blob_index b'
        ≡ ok (
            record {
              accounts = accounts_of t.batch;
              batch_header_hash = hash;
              blob_index = blob_index;
            }
            ∷ []))
      × (handle_blob_verification_proof true t.request_id (some short) blob_index b' ≡ panic)
unfolding handle_blob_verification_proof
settled-proof t children cache clients hash short blob_index a others full not_full =
    let b : Batcher = record { parent = t.batch; children = children; cache = cache } in
    let found : Map.get t.request_id (requests (t.client ∷ clients) b).0.cache ≡ some t.batch =
      ap (λ r. Map.get t.request_id r.0.cache) (requests-first t children cache clients a)
      ∙ requests-get clients t.request_id (next_parent t.request_id b).0 others
      ∙ next_parent-get t.request_id t.batch children cache in
    rw found (ground (arith, full), ground (arith, not_full))
