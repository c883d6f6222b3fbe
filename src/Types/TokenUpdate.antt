-- ===== src/Types/TokenUpdate.antt =====
-- The updates that a program may apply to a token: crates/types/src/token.rs,
-- `apply_token_update_field_values` and the methods that it calls.
pub mod Approvals
pub mod Effects
use lasr.Base.{
  ℕ, String, Bool, true, false, not, Option, none, some, List, [], ◌∷◌, ◌++◌, ◌==◌, if◌then◌else◌,
  nat_eq, string_eq, is_empty, retain, contains,
}
use lasr.Base.Map
use lasr.Base.Map.{Map}
use lasr.Base.Result.{or_panic, gets, modify, ◌>>=◌, ◌>>◌}
use lasr.Types.Address.{Address}
use lasr.Types.Token.{Token, TokenMethod, Status, locked, free}
use lasr.Types.U256.{U256, Uint, checked_add, checked_sub}

pub data MetadataValue : Type 0 where
  insert : String → String → MetadataValue
  extend : Map String String → MetadataValue
  remove : String → MetadataValue

pub data AllowanceValue : Type 0 where
  insert : Address → U256 → AllowanceValue
  extend : Map Address U256 → AllowanceValue
  remove : Address → U256 → AllowanceValue
  revoke : Address → AllowanceValue

pub data ApprovalsValue : Type 0 where
  insert : Address → List U256 → ApprovalsValue
  extend : Map Address (List U256) → ApprovalsValue
  remove : Address → List U256 → ApprovalsValue
  revoke : Address → ApprovalsValue

pub data DataValue : Type 0 where
  insert : String → String → DataValue
  extend : Map String String → DataValue
  remove : String → DataValue

pub data StatusValue : Type 0 where
  reverse lock unlock : StatusValue

pub data TokenFieldValue : Type 0 where
  metadata : MetadataValue → TokenFieldValue
  allowance : AllowanceValue → TokenFieldValue
  approvals : ApprovalsValue → TokenFieldValue
  data_value : DataValue → TokenFieldValue
  status : StatusValue → TokenFieldValue

pub data TokenField : Type 0 where
  program_id owner_id balance metadata token_ids allowance approvals data_field status : TokenField

pub record TokenUpdateField : Type 0 where
  pub field : TokenField
  pub value : TokenFieldValue

-- An insertion where the key has a list already appends to it; a removal that leaves an empty list
-- drops the key.
unfoldable pub apply_approvals_update : ApprovalsValue → TokenMethod (Unit {0})
apply_approvals_update (ApprovalsValue.insert key value) = modify λ t.
    elim (Map.get key t.approvals) [
      | some entry ↦ record t { approvals = Map.insert key (entry ++ value) t.approvals }
      | none ↦ record t { approvals = Map.insert key value t.approvals }
    ]
apply_approvals_update (ApprovalsValue.extend values) =
    modify λ t. record t { approvals = Map.extend t.approvals values }
apply_approvals_update (ApprovalsValue.remove key values) = modify λ t.
    elim (Map.get key t.approvals) [
      | some entry ↦
          let kept = retain (λ v. not (contains values v)) entry in
          if is_empty kept
          then record t { approvals = Map.remove key (Map.insert key kept t.approvals) }
          else record t { approvals = Map.insert key kept t.approvals }
      | none ↦ t
    ]
apply_approvals_update (ApprovalsValue.revoke key) =
    modify λ t. record t { approvals = Map.remove key t.approvals }

module _ ⦃u : Uint⦄ where
  -- The sums panic where `+=` or `-=` does. When the allowance falls to zero, the source removes the
  -- key from the approvals, not from the allowances.
  unfoldable pub apply_allowance_update : AllowanceValue → TokenMethod (Unit {0})
  apply_allowance_update (AllowanceValue.insert key value) = do
    t ← gets (λ t. t)
    allowed ← elim (Map.get key t.allowance) [
      | some entry ↦ or_panic (checked_add entry value)
      | none ↦ gets (λ _. value)
    ]
    modify (λ t. record t { allowance = Map.insert key allowed t.allowance })
  apply_allowance_update (AllowanceValue.extend values) =
      modify λ t. record t { allowance = Map.extend t.allowance values }
  apply_allowance_update (AllowanceValue.remove key value) = do
    t ← gets (λ t. t)
    elim (Map.get key t.allowance) [
      | none ↦ modify (λ t. t)
      | some entry ↦ do
        left ← or_panic (checked_sub entry value)
        modify (λ t. record t { allowance = Map.insert key left t.allowance })
        modify (λ t. if left == 0 then record t { approvals = Map.remove key t.approvals } else t)
    ]
  apply_allowance_update (AllowanceValue.revoke key) =
      modify λ t. record t { allowance = Map.remove key t.allowance }

unfoldable pub apply_data_update : DataValue → TokenMethod (Unit {0})
apply_data_update (DataValue.insert key value) =
    modify λ t. record t { arbitrary_data = Map.insert key value t.arbitrary_data }
apply_data_update (DataValue.extend entries) =
    modify λ t. record t { arbitrary_data = Map.extend t.arbitrary_data entries }
apply_data_update (DataValue.remove key) =
    modify λ t. record t { arbitrary_data = Map.remove key t.arbitrary_data }

unfoldable pub apply_metadata_update : MetadataValue → TokenMethod (Unit {0})
apply_metadata_update (MetadataValue.insert key value) =
    modify λ t. record t { metadata = Map.insert key value t.metadata }
apply_metadata_update (MetadataValue.extend entries) =
    modify λ t. record t { metadata = Map.extend t.metadata entries }
apply_metadata_update (MetadataValue.remove key) =
    modify λ t. record t { metadata = Map.remove key t.metadata }

abbrev reversed : Status → Status
reversed locked = free
reversed free = locked

unfoldable pub apply_status_update : StatusValue → TokenMethod (Unit {0})
apply_status_update lock = modify λ t. record t { status = locked }
apply_status_update unlock = modify λ t. record t { status = free }
apply_status_update reverse = modify λ t. record t { status = reversed t.status }

module _ ⦃u : Uint⦄ where
  unfoldable pub apply_token_update_field_values : TokenFieldValue → TokenMethod (Unit {0})
  apply_token_update_field_values (TokenFieldValue.data_value v) = apply_data_update v
  apply_token_update_field_values (TokenFieldValue.metadata v) = apply_metadata_update v
  apply_token_update_field_values (TokenFieldValue.approvals v) = apply_approvals_update v
  apply_token_update_field_values (TokenFieldValue.allowance v) = apply_allowance_update v
  apply_token_update_field_values (TokenFieldValue.status v) = apply_status_update v

  -- `for update in updates { … update.value() …? }`
  unfoldable pub apply_update_fields : List TokenUpdateField → TokenMethod (Unit {0})
  apply_update_fields [] = modify (λ t. t)
  apply_update_fields (f ∷ fs) = apply_token_update_field_values f.value >> apply_update_fields fs
