-- ===== src/Actors/AccountCache.antt =====
-- `AccountCacheActor` of crates/actors/src/account_cache.rs, with `check_account_cache` of
-- crates/actors/src/helpers.rs: the accounts in memory, in front of the persistence store. The timer
-- `batch_interval` is not modelled, since `build_batch` does nothing.
pub mod Reads
use lasr.Base.{
  ℕ, ◌*◌, Bool, true, false, Option, none, some, List, [], ◌∷◌, ◌==◌, if◌then◌else◌, leb, nat_eq,
}
use lasr.Base.Map
use lasr.Base.Map.{Map}
use lasr.Types.Address.{Address}
use lasr.Types.Account.{Account, token_owner}

pub record AccountCacheInner : Type 0 where
  pub cache : Map Address Account
  pub last_batch : Option ℕ

-- What is not of this code: the persistence store, whose `get` and deserialization give an account
-- for an address or fail, the length of the encoded cache, and the clock.
pub record CacheEnv : Type 0 where
  pub stored : Address → Option Account
  pub encoded_length : Map Address Account → Option ℕ
  pub now : ℕ

abbrev pub max_batch_size : ℕ
max_batch_size = 1024 * 512

abbrev pub new_cache : AccountCacheInner
new_cache = record { cache = []; last_batch = none }

-- `AccountCacheInner::get`, `remove`
abbrev pub lookup : Address → AccountCacheInner → Option Account
lookup address inner = Map.get address inner.cache

abbrev pub forget : Address → AccountCacheInner → AccountCacheInner
forget address inner = record inner { cache = Map.remove address inner.cache }

-- `AccountCacheInner::update`; `none` is the error
unfoldable pub update : Account → AccountCacheInner → Option AccountCacheInner
update account inner = elim (Map.get account.owner_address inner.cache) [
  | some _ ↦ some (record inner { cache = Map.insert account.owner_address account inner.cache })
  | none ↦ none
]

-- the part of `handle_cache_write` before `check_build_batch`: an account stands under its own
-- address, the program's for a program account
abbrev pub write_entry : Account → Map Address Account → Map Address Account
write_entry account cache = Map.insert (token_owner account) account cache

-- the error of the serialization is dropped by the callers
abbrev check_build_batch : CacheEnv → AccountCacheInner → AccountCacheInner
check_build_batch env inner = elim (env.encoded_length inner.cache) [
  | none ↦ inner
  | some n ↦ if leb max_batch_size n then inner else elim inner.last_batch [
    | some _ ↦ inner
    | none ↦ record inner { last_batch = some env.now }
  ]
]

unfoldable pub handle_cache_write : CacheEnv → Account → AccountCacheInner → AccountCacheInner
handle_cache_write env account inner =
    check_build_batch env (record inner { cache = write_entry account inner.cache })

pub data AccountCacheMessage : Type 0 where
  write : Account → AccountCacheMessage
  read : Address → AccountCacheMessage
  remove : Address → AccountCacheMessage
  update_account : Account → AccountCacheMessage
  try_get_account : Address → AccountCacheMessage

-- What goes back on the channel of a message, if it has one.
pub data CacheReply : Type 0 where
  silent : CacheReply
  account_reply : Option Account → CacheReply
  rpc_account : Account → CacheReply
  rpc_error : CacheReply

-- the answer of `Read`: the account in memory, else the stored one, which is not kept in memory
abbrev pub read_account : CacheEnv → Address → AccountCacheInner → Option Account
read_account env address inner = elim (lookup address inner) [
  | some account ↦ some account
  | none ↦ env.stored address
]

unfoldable pub handle :
    CacheEnv → AccountCacheMessage → AccountCacheInner → CacheReply × AccountCacheInner
unfolding handle_cache_write update
handle env (write account) inner = (silent, handle_cache_write env account inner)
handle env (read address) inner = (account_reply (read_account env address inner), inner)
handle env (remove address) inner = (silent, forget address inner)
handle env (update_account account) inner = elim (update account inner) [
  | some inner' ↦ (silent, inner')
  | none ↦ (silent, handle_cache_write env account inner)
]
handle env (try_get_account address) inner = elim (lookup address inner) [
  | some account ↦ (rpc_account account, inner)
  | none ↦ (rpc_error, inner)
]

-- the messages of a run, in the order in which they arrive
unfoldable pub run : CacheEnv → List AccountCacheMessage → AccountCacheInner → AccountCacheInner
unfolding handle
run env [] inner = inner
run env (m ∷ ms) inner = run env ms (handle env m inner).1
