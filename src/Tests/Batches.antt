-- ===== src/Tests/Batches.antt =====
-- The theorems on batches, their settling and the account cache at concrete inputs.
use lasr.Base.{ℕ, String, ◌≢◌, ◌≡◌, refl, arith, true, none, some, List, [], ◌∷◌, nat_eq, string_eq}
use lasr.Base.Map
use lasr.Base.Result.{ok, panic}
use lasr.Types.Account.{Account, program}
use lasr.Actors.AccountCache
use lasr.Actors.AccountCache.{
  CacheEnv, AccountCacheInner, AccountCacheMessage, lookup, account_reply, run,
}
use lasr.Actors.AccountCache.Reads.{run_read, update_program_overwrites}
use lasr.Actors.Batch.{Batch, new_batch, insert_transaction, insert_account, get_transaction}
use lasr.Actors.Batch.Bounds.{IsWithin, insert_transaction-IsWithin}
use lasr.Actors.Batcher.{Batcher, new_batcher, add_to_batches, first_with_room, placed}
use lasr.Actors.Batcher.Room.{add_to_batches_lem, add_to_batches_runs_on}
use lasr.Actors.Batcher.Settle.{DaClient, handle_blob_verification_proof}
use lasr.Actors.Batcher.Settle.Line.{
  Turn, IsAnswered, line_of, requests, written, stored, validated, line_settles,
}
use lasr.Actors.Batcher.Settle.Proofs.{settled-proof}
use lasr.Tests.{test_hasher, test_encoder, test_account, alice, bob, payment}

abbrev with_payment : Batch
with_payment = record new_batch { transactions = ("payment", payment) ∷ [] }

payment_fits : insert_transaction payment new_batch ≡ some with_payment
unfolding insert_transaction Map.insert
payment_fits = refl

insert_transaction-IsWithin_example :
    IsWithin with_payment
    × (get_transaction "payment" with_payment ≡ some payment)
    × (with_payment.accounts ≡ new_batch.accounts)
insert_transaction-IsWithin_example =
    insert_transaction-IsWithin payment new_batch with_payment "payment" payment_fits

abbrev with_alice : Batch
with_alice = record new_batch { accounts = (10, alice) ∷ [] }

-- a program's account whose owner is account 10
abbrev shop : Account
shop = test_account (program 30) 10 []

-- A batch with five accounts, one of them account 10, takes the program's account: the test is made
-- of five accounts, and the batch that is kept has six.
abbrev five : Batch
five = record new_batch {
  accounts = (10, alice) ∷ (11, alice) ∷ (12, alice) ∷ (13, alice) ∷ (14, alice) ∷ [];
}

abbrev six : Batch
six = record new_batch {
  accounts = (10, alice) ∷ (11, alice) ∷ (12, alice) ∷ (13, alice) ∷ (14, alice) ∷ (30, shop) ∷ [];
}

shop_fits : insert_account shop five ≡ some six
unfolding insert_account Map.insert
shop_fits = refl

six_is_too_long : test_encoder.encoded_length six ≡ some 600000
six_is_too_long = refl

abbrev two_batches : Batcher
two_batches = record new_batcher { parent = five; children = new_batch ∷ [] }

add_to_batches_lem_example :
    add_to_batches (insert_account bob) 2 two_batches ≡ placed (insert_account bob) two_batches
add_to_batches_lem_example = add_to_batches_lem (insert_account bob) 2 two_batches (omega arith)

abbrev full : Batcher
full = record new_batcher { parent = five; children = five ∷ [] }

parent_full : insert_account bob five ≡ none
unfolding insert_account Map.insert
parent_full = refl

children_full : first_with_room (insert_account bob) (five ∷ []) ≡ none
unfolding first_with_room insert_account Map.insert
children_full = refl

add_to_batches_runs_on_example : add_to_batches (insert_account bob) 1000 full ≡ none
add_to_batches_runs_on_example =
    add_to_batches_runs_on (insert_account bob) 1000 full parent_full children_full

abbrev da : DaClient
da = record { up = true; encode_batch = λ _. some "text"; respond = λ _. some "request" }

-- a client that answers with another id
abbrev later_da : DaClient
later_da = record da { respond = λ _. some "later" }

abbrev first_turn : Turn
first_turn = record { client = da; batch = with_alice; text = "text"; request_id = "request" }

abbrev second_turn : Turn
second_turn = record {
  client = later_da;
  batch = with_payment;
  text = "text";
  request_id = "later";
}

first-IsAnswered : IsAnswered first_turn
first-IsAnswered = record { filled = refl; up = refl; encoded = refl; responded = refl }

second-IsAnswered : IsAnswered second_turn
second-IsAnswered = record { filled = refl; up = refl; encoded = refl; responded = refl }

line_settles_example :
    let (b', sent) = requests (da ∷ later_da ∷ []) (line_of first_turn (second_turn ∷ []) []) in
    (b'.parent ≡ new_batch)
    × (b'.children ≡ [])
    × (written sent ≡ (10, alice) ∷ [])
    × (stored sent ≡ "text" ∷ "text" ∷ [])
    × (validated sent ≡ "later" ∷ [])
line_settles_example =
    line_settles first_turn (second_turn ∷ []) [] first-IsAnswered (second-IsAnswered, tt)

abbrev header_hash : List ℕ
header_hash =
    1 ∷ 2 ∷ 3 ∷ 4 ∷ 5 ∷ 6 ∷ 7 ∷ 8 ∷ 9 ∷ 10 ∷ 11 ∷ 12 ∷ 13 ∷ 14 ∷ 15 ∷ 16 ∷ 17 ∷ 18 ∷ 19 ∷ 20 ∷ 21
    ∷ 22 ∷ 23 ∷ 24 ∷ 25 ∷ 26 ∷ 27 ∷ 28 ∷ 29 ∷ 30 ∷ 31 ∷ 32 ∷ []

other_id : (text : String) → later_da.respond text ≢ some "request"
other_id text e = cc

settled-proof_example :
    let b : Batcher = record { parent = with_alice; children = with_payment ∷ []; cache = [] } in
    let (b', _) = requests (da ∷ later_da ∷ []) b in
    (handle_blob_verification_proof true "request" (some header_hash) 7 b'
      ≡ ok (record { accounts = 10 ∷ []; batch_header_hash = header_hash; blob_index = 7 } ∷ []))
    × (handle_blob_verification_proof true "request" (some (1 ∷ [])) 7 b' ≡ panic)
settled-proof_example =
    settled-proof first_turn (with_payment ∷ []) [] (later_da ∷ []) header_hash (1 ∷ []) 7
      first-IsAnswered (other_id, tt) refl (omega arith)

abbrev silent_da : DaClient
silent_da = record da { respond = λ _. none }

abbrev cache_env : CacheEnv
cache_env = record { stored = λ _. some bob; encoded_length = λ _. none; now = 0 }

abbrev messages : List AccountCacheMessage
messages =
    AccountCacheMessage.write alice
    ∷ AccountCacheMessage.update_account bob
    ∷ AccountCacheMessage.remove 20
    ∷ []

run_read_example :
    (AccountCache.handle cache_env
      (AccountCacheMessage.read 10)
      (run cache_env messages AccountCache.new_cache)).0
    ≡ account_reply (some alice)
unfolding AccountCache.Reads.last_write Map.get
run_read_example = run_read cache_env 10 messages AccountCache.new_cache (refl, tt)

abbrev cached : AccountCacheInner
cached = record AccountCache.new_cache { cache = (10, alice) ∷ [] }

alice_cached : lookup 10 cached ≡ some alice
unfolding Map.get
alice_cached = refl
