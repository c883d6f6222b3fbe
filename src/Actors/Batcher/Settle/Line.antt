-- ===== src/Actors/Batcher/Settle/Line.antt =====
-- The line of batches over many calls of `handle_next_batch_request`:
-- crates/actors/src/batcher.rs.
use lasr.Base.{
  ◌≡◌, refl, ap, ◌∙◌, String, true, false, some, List, [], ◌∷◌, ◌++◌, map, All, string_eq,
}
use lasr.Base.Map
use lasr.Base.Map.{Map, get-insert, get-insert_self}
use lasr.Types.Address.{Address}
use lasr.Types.Account.{Account}
use lasr.Actors.Batch.{Batch, new_batch, empty}
use lasr.Actors.Batcher.{Batcher}
use lasr.Actors.Batcher.Settle.{
  DaClient, SettleCast, put, store_batch, validate_blob, puts, next_parent,
  handle_next_batch_request, settled_lem,
}

-- one call for each element: the client as it answers that call
unfoldable pub requests : List DaClient → Batcher → Batcher × List SettleCast
unfolding handle_next_batch_request
requests [] b = (b, [])
requests (da ∷ clients) b =
    let (_, b', sent) = handle_next_batch_request da b in
    let (b'', more) = requests clients b' in (b'', sent ++ more)

-- a batch in line, and the client when its turn comes, which stores it under a text and an id
pub record Turn : Type 0 where
  pub client : DaClient
  pub batch : Batch
  pub text : String
  pub request_id : String

pub record IsAnswered (t : Turn) : Type 0 where
  pub filled : empty t.batch ≡ false
  pub up : t.client.up ≡ true
  pub encoded : t.client.encode_batch t.batch ≡ some t.text
  pub responded : t.client.respond t.text ≡ some t.request_id

abbrev pub line_of : Turn → List Turn → Map String Batch → Batcher
line_of first rest cache = record {
  parent = first.batch;
  children = map (λ t. t.batch) rest;
  cache = cache;
}

-- the accounts that are written, the texts that are stored, and the ids whose validation is requested
unfoldable pub written : List SettleCast → Map Address Account
written [] = []
written (put a x ∷ sent) = (a, x) ∷ written sent
written (store_batch _ ∷ sent) = written sent
written (validate_blob _ ∷ sent) = written sent

unfoldable pub stored : List SettleCast → List String
stored [] = []
stored (store_batch text ∷ sent) = text ∷ stored sent
stored (put _ _ ∷ sent) = stored sent
stored (validate_blob _ ∷ sent) = stored sent

unfoldable pub validated : List SettleCast → List String
validated [] = []
validated (validate_blob id ∷ sent) = id ∷ validated sent
validated (put _ _ ∷ sent) = validated sent
validated (store_batch _ ∷ sent) = validated sent

abbrev pub accounts_in : List Turn → Map Address Account
accounts_in [] = []
accounts_in (t ∷ ts) = t.batch.accounts ++ accounts_in ts

abbrev pub last_id : Turn → List Turn → String
last_id t [] = t.request_id
last_id t (t' ∷ ts) = last_id t' ts

-- what is sent for a batch that is stored: its accounts and its text, the rest of its own, and more
abbrev pub sent_for :
    Map Address Account → String → List SettleCast → List SettleCast → List SettleCast
sent_for m text own more = ((puts m ++ store_batch text ∷ []) ++ own) ++ more

written-sent :
    (m : Map Address Account) (text : String) (own more : List SettleCast)
    → written (sent_for m text own more) ≡ m ++ written (own ++ more)
unfolding written
written-sent [] text own more = refl
written-sent (x ∷ m) text own more = ap (◌∷◌ x) (written-sent m text own more)

stored-sent :
    (m : Map Address Account) (text : String) (own more : List SettleCast)
    → stored (sent_for m text own more) ≡ text ∷ stored (own ++ more)
unfolding stored
stored-sent [] text own more = refl
stored-sent (x ∷ m) text own more = stored-sent m text own more

validated-sent :
    (m : Map Address Account) (text : String) (own more : List SettleCast)
    → validated (sent_for m text own more) ≡ validated (own ++ more)
unfolding validated
validated-sent [] text own more = refl
validated-sent (x ∷ m) text own more = validated-sent m text own more

requests-nil : (b : Batcher) → requests [] b ≡ (b, [])
unfolding requests
requests-nil b = refl

-- the first call of many
pub requests-first :
    (t : Turn) (children : List Batch) (cache : Map String Batch) (clients : List DaClient)
    → IsAnswered t
    → let b : Batcher = record { parent = t.batch; children = children; cache = cache } in
      let (b', own) = next_parent t.request_id b in
      let (b'', more) = requests clients b' in
      requests (t.client ∷ clients) b ≡ (b'', sent_for t.batch.accounts t.text own more)
unfolding requests
requests-first t children cache clients a =
    rw
      (settled_lem t.client (record { parent = t.batch; children = children; cache = cache }) t.text
        t.request_id a.filled a.up a.encoded a.responded)
      refl

-- In a line of batches none of which is empty, each is requested in turn, and each time the client
-- is up, the batch is encoded and the client answers. Then the accounts of all of them are put into
-- the store and their encodings are sent to the client, both in the order of the line, and what is
-- left is one new batch; but of all these batches only the last one's validation is requested.
pub line_settles :
    (first : Turn) (rest : List Turn) (cache : Map String Batch)
    → IsAnswered first
    → All IsAnswered rest
    → let (b', sent) = requests (map (λ t. t.client) (first ∷ rest)) (line_of first rest cache) in
      (b'.parent ≡ new_batch)
      × (b'.children ≡ [])
      × (written sent ≡ accounts_in (first ∷ rest))
      × (stored sent ≡ map (λ t. t.text) (first ∷ rest))
      × (validated sent ≡ last_id first rest ∷ [])
unfolding written stored validated
line_settles first [] cache a answered =
    let last = validate_blob first.request_id ∷ [] in
    rw
      (
        requests-first first [] cache [] a,
        requests-nil (record {
          parent = new_batch;
          children = [];
          cache = Map.insert first.request_id first.batch cache;
        }),
      )
      (
        refl,
        refl,
        written-sent first.batch.accounts first.text last [],
        stored-sent first.batch.accounts first.text last [],
        validated-sent first.batch.accounts first.text last [],
      )
line_settles first (t ∷ rest) cache a (a', answered) =
    let cache' = Map.insert first.request_id first.batch cache in
    let clients = map (λ u. u.client) (t ∷ rest) in
    let (_, more) = requests clients (line_of t rest cache') in
    let (parent, children, w, s, v) = line_settles t rest cache' a' answered in
    rw (requests-first first (map (λ u. u.batch) (t ∷ rest)) cache clients a) (
      parent,
      children,
      written-sent first.batch.accounts first.text [] more ∙ ap (◌++◌ first.batch.accounts) w,
      stored-sent first.batch.accounts first.text [] more ∙ ap (◌∷◌ first.text) s,
      validated-sent first.batch.accounts first.text [] more ∙ v,
    )
