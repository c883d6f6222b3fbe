-- ===== src/Types/Account/Program/Laws.antt =====
-- A program update is for program accounts, and touches nothing but the program's own description.
use lasr.Base.{
  ◌≡◌, not, ◌&&◌, ◌||◌, List, [], ◌∷◌, map, ◌==◌, arith, contains, contains-append, contains-retain,
}
use lasr.Base.Result.{ok, err}
use lasr.Types.Account.{Account, AddressOrNamespace, user, program}
use lasr.Types.Account.Program.{
  LinkedProgramsValue, ProgramFieldValue, ProgramUpdateField, ProgramUpdate, location_eq,
  location_beq_iff, set_insert, set_extend, set_remove, link_programs,
  apply_program_update_field_values, apply_program_fields, apply_program_update,
}
use lasr.Types.Address.{Address}
use lasr.Types.Error.{not_program_account}
use lasr.Types.TokenUpdate.{MetadataValue, DataValue}

-- the two accounts agree in all but the description of a program
pub record SameHoldings (a a' : Account) : Type 0 where
  pub account_type : a'.account_type ≡ a.account_type
  pub program_namespace : a'.program_namespace ≡ a.program_namespace
  pub owner_address : a'.owner_address ≡ a.owner_address
  pub programs : a'.programs ≡ a.programs
  pub nonce : a'.nonce ≡ a.nonce

field-SameHoldings :
    (v : ProgramFieldValue) (a : Account)
    → let (r, a') = apply_program_update_field_values v a in (r ≡ ok tt) × SameHoldings a a'
unfolding apply_program_update_field_values
field-SameHoldings (ProgramFieldValue.linked_programs v) a = ground arith
field-SameHoldings (ProgramFieldValue.metadata (MetadataValue.insert k v)) a = ground arith
field-SameHoldings (ProgramFieldValue.metadata (MetadataValue.extend m)) a = ground arith
field-SameHoldings (ProgramFieldValue.metadata (MetadataValue.remove k)) a = ground arith
field-SameHoldings (ProgramFieldValue.data_value (DataValue.insert k v)) a = ground arith
field-SameHoldings (ProgramFieldValue.data_value (DataValue.extend m)) a = ground arith
field-SameHoldings (ProgramFieldValue.data_value (DataValue.remove k)) a = ground arith

fields-SameHoldings :
    (fs : List ProgramUpdateField) (a : Account)
    → let (r, a') = apply_program_fields fs a in (r ≡ ok tt) × SameHoldings a a'
unfolding apply_program_fields
fields-SameHoldings [] a = ground arith
fields-SameHoldings (f ∷ fs) a =
    let a' = (apply_program_update_field_values f.value a).1 in
    ground (arith, field-SameHoldings f.value a, fields-SameHoldings fs a')

-- A program update succeeds exactly on the accounts of programs, keeps the type, the owner, the
-- tokens and the nonce of every account, has the effect of its fields in order on a program's
-- account, and none on a user's.
pub program_update_lem :
    (update : ProgramUpdate) (a : Account)
    → let (r, a') = apply_program_update update a in
      (r ≡ elim a.account_type [ user ↦ err not_program_account | program _ ↦ ok tt ])
      × SameHoldings a a'
      × (a' ≡ elim a.account_type [
        | user ↦ a
        | program _ ↦ (apply_program_fields update.updates a).1
      ])
unfolding apply_program_update
program_update_lem update a = ground (arith, fields-SameHoldings update.updates a)

contains-set_insert :
    (x y : AddressOrNamespace) (xs : List AddressOrNamespace)
    → contains (set_insert x xs) y ≡ (y == x || contains xs y)
unfolding set_insert
contains-set_insert x y xs = ground (arith, contains-append xs (x ∷ []) y, location_beq_iff y x)

contains-set_extend :
    (l : List Address) (y : AddressOrNamespace) (xs : List AddressOrNamespace)
    → contains (set_extend xs l) y
      ≡ (contains xs y || contains (map AddressOrNamespace.address l) y)
unfolding set_extend
contains-set_extend [] y xs = ground arith
contains-set_extend (a ∷ l) y xs =
    let x = AddressOrNamespace.address a in
    ground (arith, contains-set_extend l y (set_insert x xs), contains-set_insert x y xs)

-- After a change of the linked programs a program is linked exactly if: for an insertion or an
-- extension, it is named or was linked; for a removal, it is not the named one and was linked.
pub link_programs_lem :
    (v : LinkedProgramsValue) (y : AddressOrNamespace) (xs : List AddressOrNamespace)
    → contains (link_programs v xs) y ≡ elim v [
      | LinkedProgramsValue.insert a ↦ (y == AddressOrNamespace.address a) || contains xs y
      | LinkedProgramsValue.extend l ↦
          contains xs y || contains (map AddressOrNamespace.address l) y
      | LinkedProgramsValue.remove a ↦ not (y == AddressOrNamespace.address a) && contains xs y
    ]
unfolding link_programs set_remove
link_programs_lem (LinkedProgramsValue.insert a) y xs = contains-set_insert _ y xs
link_programs_lem (LinkedProgramsValue.extend l) y xs = contains-set_extend l y xs
link_programs_lem (LinkedProgramsValue.remove a) y xs =
    contains-retain (λ z. not (z == AddressOrNamespace.address a)) xs y
