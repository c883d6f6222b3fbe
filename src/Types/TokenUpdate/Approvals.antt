-- ===== src/Types/TokenUpdate/Approvals.antt =====
-- What the updates do to the allowances and the approvals.
use lasr.Base.{
  ◌≡◌, inl, inr, Bool, false, not, ◌&&◌, ◌||◌, ◌≤◌, ◌<◌, ◌+◌, ◌-◌, none, some, List, arith, ◌==◌,
  nat_eq, Option-cases, if◌then◌else◌, contains, contains-retain, contains-append, ◌++◌, retain,
}
use lasr.Base.Map
use lasr.Base.Map.{get-insert, get-remove, beq_refl}
use lasr.Base.Result.{ok, panic}
use lasr.Types.Address.{Address}
use lasr.Types.Token.{Token}
use lasr.Types.TokenUpdate.{
  AllowanceValue, ApprovalsValue, apply_allowance_update, apply_approvals_update,
}
use lasr.Types.U256.{U256, u256_mod, Uint, checked_add_lem, checked_sub_lem}

-- the allowance that a spender has, absent ones being zero
abbrev pub allowance_of : Address → Token → U256
allowance_of a t = elim (Map.get a t.allowance) [ none ↦ 0 | some v ↦ v ]

-- the ids that a spender is approved for
abbrev pub is_approved : Address → U256 → Token → Bool
is_approved a nft t = elim (Map.get a t.approvals) [ none ↦ false | some ids ↦ contains ids nft ]

module _ ⦃u : Uint⦄ where
  -- If the sum fits, an insertion succeeds, raises the spender's allowance by the amount, and
  -- leaves those of the others.
  pub allowance-insert :
      (key j : Address) (value : U256) (t : Token)
      → allowance_of key t + value < u256_mod
      → let (r, t') = apply_allowance_update (AllowanceValue.insert key value) t in
        (r ≡ ok tt)
        × (allowance_of j t' ≡ (if j == key then allowance_of key t + value else allowance_of j t))
  unfolding apply_allowance_update
  allowance-insert key j value t h = elim (Option-cases (Map.get key t.allowance)) [
    | inl e ↦ ground (arith, get-insert j key value t.allowance)
    | inr (v, e) ↦ ground (arith, get-insert j key (v + value) t.allowance, checked_add_lem v value)
  ]

  -- If a spender's allowance covers the amount, its removal succeeds, lowers the allowance by it,
  -- and leaves those of the others; the allowance stays in the map, at zero too, and at zero the
  -- spender's approvals are dropped.
  pub allowance-remove :
      (key j : Address) (value : U256) (t : Token) {v : U256}
      → Map.get key t.allowance ≡ some v
      → value ≤ v
      → let (r, t') = apply_allowance_update (AllowanceValue.remove key value) t in
        (r ≡ ok tt)
        × (allowance_of j t' ≡ (if j == key then v - value else allowance_of j t))
        × (Map.get key t'.allowance ≡ some (v - value))
        × (t'.approvals ≡ (if v == value then Map.remove key t.approvals else t.approvals))
  unfolding apply_allowance_update
  allowance-remove key j value t {v} e h = ground (
    arith,
    checked_sub_lem v value,
    get-insert j key (v - value) t.allowance,
    get-insert key key (v - value) t.allowance,
  )

  -- A removal of more than the allowance panics.
  pub allowance-remove_panics :
      (key : Address) (value : U256) (t : Token) {v : U256}
      → Map.get key t.allowance ≡ some v
      → v < value
      → apply_allowance_update (AllowanceValue.remove key value) t ≡ (panic, t)
  unfolding apply_allowance_update
  allowance-remove_panics key value t {v} e h = ground (arith, checked_sub_lem v value)

-- A removal of ids from a spender's approvals succeeds; the spender is then approved for exactly
-- the ids that it was approved for and that are not among them, and other spenders keep theirs.
pub approvals-remove :
    (key j : Address) (values : List U256) (nft : U256) (t : Token)
    → let (r, t') = apply_approvals_update (ApprovalsValue.remove key values) t in
      (r ≡ ok tt)
      × (is_approved j nft t' ≡ (
          if j == key
          then not (contains values nft) && is_approved j nft t
          else is_approved j nft t))
unfolding apply_approvals_update
approvals-remove key j values nft t = elim (Option-cases (Map.get key t.approvals)) [
  | inl e ↦ ground arith
  | inr (ids, e) ↦
      let kept = retain (λ v. not (contains values v)) ids in
      ground (
        arith,
        contains-retain (λ v. not (contains values v)) ids nft,
        get-insert j key kept t.approvals,
        get-remove j key (Map.insert key kept t.approvals),
      )
]

-- An insertion succeeds; the spender is then approved for the ids that it was approved for and the
-- inserted ones, and other spenders keep theirs.
pub approvals-insert :
    (key j : Address) (values : List U256) (nft : U256) (t : Token)
    → let (r, t') = apply_approvals_update (ApprovalsValue.insert key values) t in
      (r ≡ ok tt)
      × (is_approved j nft t'
          ≡ (if j == key then is_approved j nft t || contains values nft else is_approved j nft t))
unfolding apply_approvals_update
approvals-insert key j values nft t = elim (Option-cases (Map.get key t.approvals)) [
  | inl e ↦ ground (arith, get-insert j key values t.approvals)
  | inr (ids, e) ↦
      ground (arith, contains-append ids values nft, get-insert j key (ids ++ values) t.approvals)
]
