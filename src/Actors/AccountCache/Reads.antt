-- ===== src/Actors/AccountCache/Reads.antt =====
-- What the cache answers after a run of messages.
use lasr.Base.{
  ◌≡◌, refl, inl, inr, arith, Option, none, some, List, [], ◌∷◌, ◌==◌, if◌then◌else◌, nat_eq,
  Option-cases,
}
use lasr.Base.Map
use lasr.Base.Map.{Map, get-insert, get-remove, get-insert_self}
use lasr.Types.Address.{Address}
use lasr.Types.Account.{Account, user, program, token_owner}
use lasr.Actors.AccountCache.{
  AccountCacheInner, CacheEnv, lookup, write_entry, update, handle_cache_write, AccountCacheMessage,
  write, read, remove, update_account, try_get_account, handle, run, account_reply,
}

-- The account that an address has after the messages, if it had `held` before them: that of the
-- last write to the address which no removal follows.
unfoldable pub last_write : Address → List AccountCacheMessage → Option Account → Option Account
last_write k [] held = held
last_write k (write a ∷ ms) held = last_write k ms (if k == token_owner a then some a else held)
last_write k (remove j ∷ ms) held = last_write k ms (if k == j then none else held)
last_write k (update_account a ∷ ms) held =
    last_write k ms (if k == token_owner a then some a else held)
last_write k (_ ∷ ms) held = last_write k ms held

-- The accounts of the `Update` messages are users'.
abbrev pub UpdatesUsers : List AccountCacheMessage → Type 0
UpdatesUsers [] = Unit
UpdatesUsers (update_account a ∷ ms) = (a.account_type ≡ user) × UpdatesUsers ms
UpdatesUsers (_ ∷ ms) = UpdatesUsers ms

handle_cache_write-cache :
    (env : CacheEnv) (a : Account) (inner : AccountCacheInner)
    → (handle_cache_write env a inner).cache ≡ write_entry a inner.cache
unfolding handle_cache_write
handle_cache_write-cache env a inner = ground arith

write-lookup :
    (env : CacheEnv) (k : Address) (a : Account) (inner : AccountCacheInner)
    → lookup k (handle_cache_write env a inner)
      ≡ (if k == token_owner a then some a else lookup k inner)
write-lookup env k a inner =
    rw (handle_cache_write-cache env a inner) (get-insert k (token_owner a) a inner.cache)

update-lookup :
    (env : CacheEnv) (k : Address) (a : Account) (inner : AccountCacheInner)
    → a.account_type ≡ user
    → lookup k (handle env (update_account a) inner).1
      ≡ (if k == token_owner a then some a else lookup k inner)
unfolding handle update
update-lookup env k a inner e =
    ground (arith, write-lookup env k a inner, get-insert k a.owner_address a inner.cache)

try-keeps :
    (env : CacheEnv) (j : Address) (inner : AccountCacheInner)
    → (handle env (try_get_account j) inner).1 ≡ inner
unfolding handle
try-keeps env j inner = elim (Option-cases (Map.get j inner.cache)) [
  | inl e ↦ rw (e, handle) refl
  | inr (a, e) ↦ rw (e, handle) refl
]

-- After a run from an empty or any other cache, an address has the account of the last write to it.
run-last_write :
    (env : CacheEnv) (k : Address) (ms : List AccountCacheMessage) (inner : AccountCacheInner)
    → UpdatesUsers ms
    → lookup k (run env ms inner) ≡ last_write k ms (lookup k inner)
unfolding run last_write handle
run-last_write env k [] inner users = refl
run-last_write env k (write a ∷ ms) inner users =
    rw (← write-lookup env k a inner) (run-last_write env k ms (handle env (write a) inner).1 users)
run-last_write env k (read j ∷ ms) inner users = run-last_write env k ms inner users
run-last_write env k (remove j ∷ ms) inner users =
    rw (← get-remove k j inner.cache)
      (run-last_write env k ms (handle env (remove j) inner).1 users)
run-last_write env k (update_account a ∷ ms) inner users =
    rw (← update-lookup env k a inner users.0)
      (run-last_write env k ms (handle env (update_account a) inner).1 users.1)
run-last_write env k (try_get_account j ∷ ms) inner users =
    rw (run, try-keeps env j inner) (run-last_write env k ms inner users)

-- the account in memory, else the stored one
abbrev or_stored : CacheEnv → Address → Option Account → Option Account
or_stored env k none = env.stored k
or_stored env k (some a) = some a

read-or_stored :
    (env : CacheEnv) (k : Address) (inner : AccountCacheInner)
    → (handle env (read k) inner).0 ≡ account_reply (or_stored env k (lookup k inner))
unfolding handle
read-or_stored env k inner = ground arith

-- After any run of messages whose `Update`s are of users' accounts, `Read` answers the account of
-- the last write to the address that no removal follows, where a removal or a write was sent; the
-- account that was there before, where none was; and the stored account, where neither leaves one.
pub run_read :
    (env : CacheEnv) (k : Address) (ms : List AccountCacheMessage) (inner : AccountCacheInner)
    → UpdatesUsers ms
    → (handle env (read k) (run env ms inner)).0
      ≡ account_reply (or_stored env k (last_write k ms (lookup k inner)))
unfolding handle
run_read env k ms inner users =
    rw (← run-last_write env k ms inner users) (read-or_stored env k (run env ms inner))

-- An `Update` of a program's account whose owner has an account in memory replaces the owner's
-- account by the program's, and leaves the entry of the program as it was, if the program is not
-- its own owner.
pub update_program_overwrites :
    (env : CacheEnv) (p : Address) (a held : Account) (inner : AccountCacheInner)
    → a.account_type ≡ program p
    → lookup a.owner_address inner ≡ some held
    → let inner' = (handle env (update_account a) inner).1 in
      (lookup a.owner_address inner' ≡ some a)
      × (lookup p inner' ≡ (if p == a.owner_address then some a else lookup p inner))
unfolding handle update
update_program_overwrites env p a held inner e at = ground (
  arith,
  get-insert_self a.owner_address a inner.cache,
  get-insert p a.owner_address a inner.cache,
)
