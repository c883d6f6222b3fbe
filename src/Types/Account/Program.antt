-- ===== src/Types/Account/Program.antt =====
-- `Account::apply_program_update` and `apply_program_update_field_values`.
pub mod Laws
use lasr.Base.{
  ◌≡◌, refl, ◌↔◌, Bool, true, false, not, String, List, [], ◌∷◌, ◌++◌, ◌==◌, if◌then◌else◌, Eq,
  nat_eq, string_eq, map, arith, retain, contains,
}
use lasr.Base.Map
use lasr.Base.Map.{Map}
use lasr.Base.Result.{Result, ok, err, modify, ◌>>=◌, ◌>>◌}
use lasr.Types.Account.{Account, AccountMethod, AddressOrNamespace, user, program}
use lasr.Types.Address.{Address}
use lasr.Types.Error.{not_program_account}
use lasr.Types.TokenUpdate.{MetadataValue, DataValue}

pub data LinkedProgramsValue : Type 0 where
  insert : Address → LinkedProgramsValue
  extend : List Address → LinkedProgramsValue
  remove : Address → LinkedProgramsValue

pub data ProgramField : Type 0 where
  linked_programs metadata data_field : ProgramField

pub data ProgramFieldValue : Type 0 where
  linked_programs : LinkedProgramsValue → ProgramFieldValue
  metadata : MetadataValue → ProgramFieldValue
  data_value : DataValue → ProgramFieldValue

pub record ProgramUpdateField : Type 0 where
  pub field : ProgramField
  pub value : ProgramFieldValue

pub record ProgramUpdate : Type 0 where
  pub account : AddressOrNamespace
  pub updates : List ProgramUpdateField

-- the derived `PartialEq` of `AddressOrNamespace`
abbrev pub location_beq : AddressOrNamespace → AddressOrNamespace → Bool
location_beq (AddressOrNamespace.address a) (AddressOrNamespace.address b) = a == b
location_beq (AddressOrNamespace.namespace s) (AddressOrNamespace.namespace t) = s == t
location_beq AddressOrNamespace.this AddressOrNamespace.this = true
location_beq _ _ = false

pub location_beq_iff : (a b : AddressOrNamespace) → (location_beq a b ≡ true) ↔ (a ≡ b)
location_beq_iff (AddressOrNamespace.address a) (AddressOrNamespace.address b) = ground arith
location_beq_iff (AddressOrNamespace.namespace s) (AddressOrNamespace.namespace t) =
    ground (arith, string_eq.beq_iff s t)
location_beq_iff AddressOrNamespace.this AddressOrNamespace.this = ground arith
location_beq_iff (AddressOrNamespace.address a) _ = ground arith
location_beq_iff (AddressOrNamespace.namespace s) _ = ground arith
location_beq_iff AddressOrNamespace.this _ = ground arith

instance abbrev pub location_eq : Eq AddressOrNamespace
location_eq = record { beq = location_beq; beq_iff = location_beq_iff }

-- `BTreeSet::insert`, `extend` and `remove`
unfoldable pub set_insert : AddressOrNamespace → List AddressOrNamespace → List AddressOrNamespace
set_insert x xs = if contains xs x then xs else xs ++ x ∷ []

unfoldable pub set_extend : List AddressOrNamespace → List Address → List AddressOrNamespace
set_extend xs [] = xs
set_extend xs (a ∷ as') = set_extend (set_insert (AddressOrNamespace.address a) xs) as'

unfoldable pub set_remove : AddressOrNamespace → List AddressOrNamespace → List AddressOrNamespace
set_remove x xs = retain (λ y. not (y == x)) xs

unfoldable pub link_programs :
    LinkedProgramsValue → List AddressOrNamespace → List AddressOrNamespace
link_programs (LinkedProgramsValue.insert a) xs = set_insert (AddressOrNamespace.address a) xs
link_programs (LinkedProgramsValue.extend l) xs = set_extend xs l
link_programs (LinkedProgramsValue.remove a) xs = set_remove (AddressOrNamespace.address a) xs

unfoldable pub apply_program_update_field_values : ProgramFieldValue → AccountMethod (Unit {0})
apply_program_update_field_values (ProgramFieldValue.linked_programs v) = modify λ a. record a {
  program_account_linked_programs = link_programs v a.program_account_linked_programs;
}
apply_program_update_field_values (ProgramFieldValue.metadata (MetadataValue.insert k v)) =
    modify λ a. record a { program_account_metadata = Map.insert k v a.program_account_metadata }
apply_program_update_field_values (ProgramFieldValue.metadata (MetadataValue.extend m)) =
    modify λ a. record a { program_account_metadata = Map.extend a.program_account_metadata m }
apply_program_update_field_values (ProgramFieldValue.metadata (MetadataValue.remove k)) =
    modify λ a. record a { program_account_metadata = Map.remove k a.program_account_metadata }
apply_program_update_field_values (ProgramFieldValue.data_value (DataValue.insert k v)) =
    modify λ a. record a { program_account_data = Map.insert k v a.program_account_data }
apply_program_update_field_values (ProgramFieldValue.data_value (DataValue.extend m)) =
    modify λ a. record a { program_account_data = Map.extend a.program_account_data m }
apply_program_update_field_values (ProgramFieldValue.data_value (DataValue.remove k)) =
    modify λ a. record a { program_account_data = Map.remove k a.program_account_data }

-- `for update in update.updates() { … }`
unfoldable pub apply_program_fields : List ProgramUpdateField → AccountMethod (Unit {0})
apply_program_fields [] = modify (λ a. a)
apply_program_fields (f ∷ fs) = apply_program_update_field_values f.value >> apply_program_fields fs

unfoldable pub apply_program_update : ProgramUpdate → AccountMethod (Unit {0})
apply_program_update update a = elim a.account_type [
  | user ↦ (err not_program_account, a)
  | program _ ↦ apply_program_fields update.updates a
]
