-- ===== src/Types/Account/Apply/Updates.antt =====
-- Token updates and token distributions.
use lasr.Base.{
  ◌+◌, ◌<◌, ◌≡◌, inl, inr, ◌||◌, Option, some, List, [], ◌++◌, arith, nat_eq, contains,
  contains-append, Option-cases,
}
use lasr.Base.Map
use lasr.Base.Map.{get-insert, get-insert_self}
use lasr.Base.Result.{ok}
use lasr.Types.Address.{Address}
use lasr.Types.Account.{Account, balance, on_program, create_program, token_owner}
use lasr.Types.Account.Apply.{fresh_token, apply_token_distribution, apply_token_update}
use lasr.Types.Account.Apply.Laws.{amount_of, give_lem}
use lasr.Types.Account.Apply.Transfers.{holds}
use lasr.Types.Token.{Token}
use lasr.Types.TokenUpdate.{TokenUpdateField, apply_update_fields}
use lasr.Types.TokenUpdate.Effects.{updates-SameAssets}
use lasr.Types.U256.{U256, u256_mod, Uint}

module _ ⦃u : Uint⦄ (updates : List TokenUpdateField) (program_account : Account) where
  -- However a token update ends, every balance of the account is what it was, and so is every token
  -- id held, under any program.
  pub token_update_keeps :
      (k j : Address) (nft : U256) (a : Account)
      → let a' = (apply_token_update k updates program_account a).1 in
        (balance j a' ≡ balance j a) × (holds j nft a' ≡ holds j nft a)
  unfolding apply_token_update on_program create_program
  token_update_keeps k j nft a = elim (Option-cases (Map.get k a.programs)) [
    | inl e ↦
        let t =
          fresh_token k (token_owner a) program_account.program_account_metadata
            program_account.program_account_data in
        let t' = (apply_update_fields updates t).1 in
        ground (arith, updates-SameAssets updates t, get-insert j t'.program_id t' a.programs)
    | inr (t, e) ↦
        let t' = (apply_update_fields updates t).1 in
        ground (arith, updates-SameAssets updates t, get-insert j k t' a.programs)
  ]

  -- If the balance has room for the amount and the distribution succeeds, then the token that it
  -- returns is stored, the balance has grown by exactly the amount, and the ids held are those
  -- before and those distributed, whatever updates come with it, also where the account is new to
  -- the program.
  pub distribution_gives :
      (k : Address) (amount : Option U256) (ids : List U256) (nft : U256) (a : Account) (t : Token)
      → balance k a + amount_of amount < u256_mod
      → (apply_token_distribution k amount ids updates program_account a).0 ≡ ok t
      → let a' = (apply_token_distribution k amount ids updates program_account a).1 in
        (Map.get k a'.programs ≡ some t)
        × (balance k a' ≡ balance k a + amount_of amount)
        × (holds k nft a' ≡ (holds k nft a || contains ids nft))
  unfolding apply_token_distribution on_program create_program
  distribution_gives k amount ids nft a t fits h = elim (Option-cases (Map.get k a.programs)) [
    | inl e ↦
        let t₀ =
          fresh_token k (token_owner a) program_account.program_account_metadata
            program_account.program_account_data in
        let t₁ : Token = record t₀ { balance = 0 + amount_of amount; token_ids = [] ++ ids } in
        let t₂ = (apply_update_fields updates t₁).1 in
        ground (
          arith,
          give_lem amount ids t₀,
          updates-SameAssets updates t₁,
          get-insert_self t₂.program_id t₂ a.programs,
        )
    | inr (t₀, e) ↦
        let t₁ : Token = record t₀ {
          balance = t₀.balance + amount_of amount;
          token_ids = t₀.token_ids ++ ids;
        } in
        let t₂ = (apply_update_fields updates t₁).1 in
        ground (
          arith,
          give_lem amount ids t₀,
          updates-SameAssets updates t₁,
          get-insert_self k t₂ a.programs,
          contains-append t₀.token_ids ids nft,
        )
  ]
