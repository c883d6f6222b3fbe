-- ===== src/Types/Account.antt =====
-- `Account` of crates/types/src/account.rs: the record, its parts and its reading methods.
pub mod Send
pub mod Apply
pub mod Validate
pub mod Program
use lasr.Base.{
  ℕ, ◌+◌, ◌≡◌, refl, ◌⊎◌, inl, inr, String, Bool, true, false, Option, none, some, List, [], ◌∷◌,
  ◌==◌, if◌then◌else◌, nat_eq,
}
use lasr.Base.Map
use lasr.Base.Map.{Map}
use lasr.Base.Result.{Result, ok, err, panic, Method, or_panic, gets, modify, ◌>>=◌, ◌>>◌}
use lasr.Types.Address.{Address}
use lasr.Types.Error.{TypesError}
use lasr.Types.Token.{Token, TokenMethod, ArbitraryData, Metadata}
use lasr.Types.U256.{U256, Uint, checked_add}

-- crates/types/src/programming_model.rs
pub data AddressOrNamespace : Type 0 where
  address : Address → AddressOrNamespace
  namespace : String → AddressOrNamespace
  this : AddressOrNamespace

pub data AccountType : Type 0 where
  user : AccountType
  program : Address → AccountType

pub AccountType-cases : (ty : AccountType) → (ty ≡ user) ⊎ ((p : Address) × (ty ≡ program p))
AccountType-cases user = inl refl
AccountType-cases (program p) = inr (p, refl)

-- The `BTreeSet` of linked programs is a list.
pub record Account : Type 0 where
  pub account_type : AccountType
  pub program_namespace : Option AddressOrNamespace
  pub owner_address : Address
  pub programs : Map Address Token
  pub nonce : U256
  pub program_account_data : ArbitraryData
  pub program_account_metadata : Metadata
  pub program_account_linked_programs : List AddressOrNamespace

abbrev pub AccountMethod : Type 0 → Type 0
AccountMethod = Method TypesError Account

-- `Account::new`, which drops the programs that it is given
unfoldable pub new_account :
    AccountType → Option AddressOrNamespace → Address → Option (Map Address Token) → Account
new_account account_type program_namespace owner_address _programs = record {
  account_type = account_type;
  program_namespace = program_namespace;
  owner_address = owner_address;
  programs = [];
  nonce = 0;
  program_account_data = [];
  program_account_metadata = [];
  program_account_linked_programs = [];
}

abbrev pub balance : Address → Account → U256
balance program_id a = elim (Map.get program_id a.programs) [
  | none ↦ 0
  | some entry ↦ entry.balance
]

-- `insert_program`
abbrev pub insert_program : Address → Token → AccountMethod (Unit {0})
insert_program program_id token =
    modify λ a. record a { programs = Map.insert program_id token a.programs }

unfoldable pub increment_nonce : ⦃u : Uint⦄ → AccountMethod (Unit {0})
increment_nonce = do
  a ← gets (λ a. a)
  nonce ← or_panic (checked_add a.nonce 1)
  modify (λ a. record a { nonce = nonce })

-- the address that owns the tokens which the account is given by a program
abbrev pub token_owner : Account → Address
token_owner a = elim a.account_type [ user ↦ a.owner_address | program addr ↦ addr ]

abbrev pub lift : {A : Type 0} → Result TypesError A → AccountMethod A
lift r a = (r, a)

-- A method of the token in `programs.get_mut(k)`; what it wrote stays written if it fails.
unfoldable pub on_program :
    Address → TokenMethod (Unit {0}) → AccountMethod Token → AccountMethod Token
on_program k m absent a = elim (Map.get k a.programs) [
  | none ↦ absent a
  | some t ↦
      let (r, t') = m t in
      let a' : Account = record a { programs = Map.insert k t' a.programs } in
      elim r [ ok _ ↦ (ok t', a') | err e ↦ (err e, a') | panic ↦ (panic, a') ]
]

-- A new token is changed first, and is inserted only if that succeeds.
unfoldable pub create_program : Token → TokenMethod (Unit {0}) → AccountMethod Token
create_program t m a =
    let (r, t') = m t in
    elim r [
      | ok _ ↦ (ok t', record a { programs = Map.insert t'.program_id t' a.programs })
      | err e ↦ (err e, a)
      | panic ↦ (panic, a)
    ]
