-- ===== src/Types/U256.antt =====
-- The 256-bit unsigned integers of crates/types/src/token.rs. The type and its operations are made
-- by the macro `construct_uint!` of the crate `uint`, so addition and subtraction are parameters:
-- an instance argument that each definition passes on.
use lasr.Base.{
  ℕ, ◌+◌, ◌-◌, ◌^◌, ◌≤◌, ◌<◌, ◌≡◌, Option, none, some, arith, ltb, leb, if◌then◌else◌, Bool-cases,
  inl, inr,
}

abbrev pub U256 : Type 0
U256 = ℕ

abbrev pub u256_mod : ℕ
u256_mod = 2 ^ 256

-- What the crate `uint` documents of `+`, `-`, `+=` and `-=`: a result that does not fit is a panic.
pub record Uint : Type 0 where
  pub add : U256 → U256 → Option U256
  pub sub : U256 → U256 → Option U256
  pub add_fits : (a b : U256) → a + b < u256_mod → add a b ≡ some (a + b)
  pub add_overflow : (a b : U256) → u256_mod ≤ a + b → add a b ≡ none
  pub sub_fits : (a b : U256) → b ≤ a → sub a b ≡ some (a - b)
  pub sub_underflow : (a b : U256) → a < b → sub a b ≡ none

module _ ⦃u : Uint⦄ where
  abbrev pub checked_add : U256 → U256 → Option U256
  checked_add = u.add

  abbrev pub checked_sub : U256 → U256 → Option U256
  checked_sub = u.sub

  pub checked_add_lem :
      (a b : U256) → checked_add a b ≡ (if ltb (a + b) u256_mod then some (a + b) else none)
  checked_add_lem a b = elim (Bool-cases (ltb (a + b) u256_mod)) [
    | inl h ↦ ground (arith, u.add_fits a b)
    | inr h ↦ ground (arith, u.add_overflow a b)
  ]

  pub checked_sub_lem : (a b : U256) → checked_sub a b ≡ (if leb b a then some (a - b) else none)
  checked_sub_lem a b = elim (Bool-cases (leb b a)) [
    | inl h ↦ ground (arith, u.sub_fits a b)
    | inr h ↦ ground (arith, u.sub_underflow a b)
  ]
