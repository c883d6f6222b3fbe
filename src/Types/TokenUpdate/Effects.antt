-- ===== src/Types/TokenUpdate/Effects.antt =====
-- No update of a program touches what a token is worth or whose it is.
use lasr.Base.{◌≡◌, refl, List, [], ◌∷◌, arith, nat_eq}
use lasr.Types.Token.{Token}
use lasr.Types.TokenUpdate.{
  AllowanceValue, ApprovalsValue, DataValue, MetadataValue, StatusValue, TokenFieldValue,
  TokenUpdateField, apply_allowance_update, apply_approvals_update, apply_data_update,
  apply_metadata_update, apply_status_update, apply_token_update_field_values, apply_update_fields,
  lock, unlock, reverse,
}
use lasr.Types.U256.{Uint}

-- The two tokens agree in program, owner, balance and token ids.
pub record SameAssets (t t' : Token) : Type 0 where
  pub program_id : t'.program_id ≡ t.program_id
  pub owner_id : t'.owner_id ≡ t.owner_id
  pub balance : t'.balance ≡ t.balance
  pub token_ids : t'.token_ids ≡ t.token_ids

pub SameAssets-refl : (t : Token) → SameAssets t t
SameAssets-refl t = record { program_id = refl; owner_id = refl; balance = refl; token_ids = refl }

pub SameAssets-trans : (a b c : Token) → SameAssets a b → SameAssets b c → SameAssets a c
SameAssets-trans a b c p q = record { program_id = cc; owner_id = cc; balance = cc; token_ids = cc }

approvals-SameAssets :
    (v : ApprovalsValue) (t : Token) → SameAssets t (apply_approvals_update v t).1
unfolding apply_approvals_update
approvals-SameAssets (ApprovalsValue.insert k v) t = ground arith
approvals-SameAssets (ApprovalsValue.extend m) t = ground arith
approvals-SameAssets (ApprovalsValue.remove k v) t = ground arith
approvals-SameAssets (ApprovalsValue.revoke k) t = ground arith

data-SameAssets : (v : DataValue) (t : Token) → SameAssets t (apply_data_update v t).1
unfolding apply_data_update
data-SameAssets (DataValue.insert k v) t = ground arith
data-SameAssets (DataValue.extend m) t = ground arith
data-SameAssets (DataValue.remove k) t = ground arith

metadata-SameAssets : (v : MetadataValue) (t : Token) → SameAssets t (apply_metadata_update v t).1
unfolding apply_metadata_update
metadata-SameAssets (MetadataValue.insert k v) t = ground arith
metadata-SameAssets (MetadataValue.extend m) t = ground arith
metadata-SameAssets (MetadataValue.remove k) t = ground arith

status-SameAssets : (v : StatusValue) (t : Token) → SameAssets t (apply_status_update v t).1
unfolding apply_status_update
status-SameAssets lock t = ground arith
status-SameAssets unlock t = ground arith
status-SameAssets reverse t = ground arith

module _ ⦃u : Uint⦄ where
  allowance-SameAssets :
      (v : AllowanceValue) (t : Token) → SameAssets t (apply_allowance_update v t).1
  unfolding apply_allowance_update
  allowance-SameAssets (AllowanceValue.insert k v) t = ground arith
  allowance-SameAssets (AllowanceValue.extend m) t = ground arith
  allowance-SameAssets (AllowanceValue.remove k v) t = ground arith
  allowance-SameAssets (AllowanceValue.revoke k) t = ground arith

  field-SameAssets :
      (v : TokenFieldValue) (t : Token) → SameAssets t (apply_token_update_field_values v t).1
  unfolding apply_token_update_field_values
  field-SameAssets (TokenFieldValue.metadata v) t = metadata-SameAssets v t
  field-SameAssets (TokenFieldValue.allowance v) t = allowance-SameAssets v t
  field-SameAssets (TokenFieldValue.approvals v) t = approvals-SameAssets v t
  field-SameAssets (TokenFieldValue.data_value v) t = data-SameAssets v t
  field-SameAssets (TokenFieldValue.status v) t = status-SameAssets v t

  -- Whatever updates are applied, and however the call ends, the token keeps its program, its owner,
  -- its balance and its token ids.
  pub updates-SameAssets :
      (fs : List TokenUpdateField) (t : Token) → SameAssets t (apply_update_fields fs t).1
  unfolding apply_update_fields
  updates-SameAssets [] t = SameAssets-refl t
  updates-SameAssets (f ∷ fs) t =
      let t' = (apply_token_update_field_values f.value t).1 in
      ground (
        arith,
        field-SameAssets f.value t,
        updates-SameAssets fs t',
        SameAssets-trans t t' (apply_update_fields fs t').1,
      )
