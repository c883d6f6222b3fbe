-- ===== src/Types/Account/Apply/Transfers.antt =====
-- Transfers and burns: what leaves one account reaches the other.
use lasr.Base.{
  ◌+◌, ◌-◌, ◌≤◌, ◌<◌, ◌≡◌, refl, inl, inr, Bool, true, false, not, ◌&&◌, ◌||◌, Option, none, some,
  List, [], ◌++◌, arith, nat_eq, contains, contains-retain, contains-append, all, Option-cases,
}
use lasr.Base.Map
use lasr.Base.Map.{get-insert_self}
use lasr.Base.Result.{ok, err}
use lasr.Types.Address.{Address}
use lasr.Types.Account.{Account, balance, token_owner, on_program, create_program}
use lasr.Types.Account.Apply.{
  fresh_token, apply_transfer_from_instruction, apply_transfer_to_instruction,
  apply_burn_instruction,
}
use lasr.Types.Account.Apply.Laws.{amount_of, without, give_lem, take_away_lem, take_away_missing}
use lasr.Types.Error.{token_ids_not_owned}
use lasr.Types.Token.{Token, Metadata, ArbitraryData}
use lasr.Types.U256.{U256, u256_mod, Uint}

-- the token id is held by the account under the program
abbrev pub holds : Address → U256 → Account → Bool
holds k nft a = elim (Map.get k a.programs) [ none ↦ false | some t ↦ contains t.token_ids nft ]

-- the account can give the amount and the ids
pub record Covers (k : Address) (amount : Option U256) (ids : List U256) (a : Account)
    : Type 0 where
  pub token : Token
  pub found : Map.get k a.programs ≡ some token
  pub enough : amount_of amount ≤ token.balance
  pub owned : all (contains token.token_ids) ids ≡ true

module _ ⦃u : Uint⦄ (k : Address) (amount : Option U256) (ids : List U256) where
  transfer_from_lem :
      (a : Account) (c : Covers k amount ids a)
      → let t : Token = record c.token {
        balance = c.token.balance - amount_of amount;
        token_ids = without ids c.token.token_ids;
      } in
        apply_transfer_from_instruction k amount ids a
        ≡ (ok t, record a { programs = Map.insert k t a.programs })
  unfolding apply_transfer_from_instruction on_program
  transfer_from_lem a c = ground (arith, c.found, take_away_lem amount ids c.token c.enough c.owned)

  -- A covered transfer takes exactly the amount and the ids from the account.
  pub transfer_from_takes :
      (a : Account) (nft : U256)
      → Covers k amount ids a
      → let (r, a') = apply_transfer_from_instruction k amount ids a in
        ((t : Token) × (r ≡ ok t) × (Map.get k a'.programs ≡ some t))
        × (balance k a' + amount_of amount ≡ balance k a)
        × (holds k nft a' ≡ (not (contains ids nft) && holds k nft a))
  transfer_from_takes a nft c =
      let owned = c.token.token_ids in
      let t : Token = record c.token {
        balance = c.token.balance - amount_of amount;
        token_ids = without ids owned;
      } in
      let g = get-insert_self k t a.programs in
      rw (transfer_from_lem a c) (
        (t, refl, g),
        ground (arith, g, c.found, c.enough),
        ground (arith, g, c.found, contains-retain (λ i. not (contains ids i)) owned nft),
      )

  -- A burn that the account covers succeeds with the token that is stored, takes exactly the amount
  -- from the balance, and leaves exactly the ids that are not burned.
  pub burn_takes :
      (a : Account) (nft : U256)
      → Covers k amount ids a
      → let (r, a') = apply_burn_instruction k amount ids a in
        ((t : Token) × (r ≡ ok t) × (Map.get k a'.programs ≡ some t))
        × (balance k a' + amount_of amount ≡ balance k a)
        × (holds k nft a' ≡ (not (contains ids nft) && holds k nft a))
  unfolding apply_burn_instruction apply_transfer_from_instruction on_program
  burn_takes a nft c = ground (arith, c.found, transfer_from_takes a nft c)

  -- the token that a transfer leaves in the account, old or new
  transfer_to_lem :
      (program_account : Option Account) (b : Account) (nft : U256)
      → balance k b + amount_of amount < u256_mod
      → (t : Token) × (apply_transfer_to_instruction k amount ids program_account b
          ≡ (ok t, record b { programs = Map.insert k t b.programs }))
        × (t.balance ≡ balance k b + amount_of amount)
        × (contains t.token_ids nft ≡ (holds k nft b || contains ids nft))
  unfolding apply_transfer_to_instruction on_program create_program
  transfer_to_lem p b nft fits = elim (Option-cases (Map.get k b.programs)) [
    | inl e ↦
        let metadata : Metadata = elim p [ none ↦ [] | some q ↦ q.program_account_metadata ] in
        let entries : ArbitraryData = elim p [ none ↦ [] | some q ↦ q.program_account_data ] in
        let t = fresh_token k b.owner_address metadata entries in
        let t' : Token = record t { balance = 0 + amount_of amount; token_ids = [] ++ ids } in
        (t', ground (arith, e, give_lem amount ids t), ground arith, ground arith)
    | inr (t, e) ↦
        let t' : Token = record t {
          balance = t.balance + amount_of amount;
          token_ids = t.token_ids ++ ids;
        } in
        (
          t',
          ground (arith, give_lem amount ids t),
          ground arith,
          ground (arith, contains-append t.token_ids ids nft),
        )
  ]

  -- A transfer that fits gives exactly the amount and the ids to the account, which may be new to
  -- the program.
  pub transfer_to_gives :
      (program_account : Option Account) (b : Account) (nft : U256)
      → balance k b + amount_of amount < u256_mod
      → let (r, b') = apply_transfer_to_instruction k amount ids program_account b in
        ((t : Token) × (r ≡ ok t) × (Map.get k b'.programs ≡ some t))
        × (balance k b' ≡ balance k b + amount_of amount)
        × (holds k nft b' ≡ (holds k nft b || contains ids nft))
  transfer_to_gives p b nft fits =
      let (t, e, bal, held) = transfer_to_lem p b nft fits in
      let g = get-insert_self k t b.programs in
      rw e ((t, refl, g), ground (arith, g, bal), ground (arith, g, held))

  -- the account's own address stays
  pub transfer_from-located :
      (a : Account)
      → Covers k amount ids a
      → token_owner (apply_transfer_from_instruction k amount ids a).1 ≡ token_owner a
  transfer_from-located a c = rw (transfer_from_lem a c) refl

  pub transfer_to-located :
      (p : Option Account) (b : Account)
      → balance k b + amount_of amount < u256_mod
      → token_owner (apply_transfer_to_instruction k amount ids p b).1 ≡ token_owner b
  transfer_to-located p b fits = let (t, e, bal, held) = transfer_to_lem p b 0 fits in rw e refl

  -- A transfer that the one account covers and the other has room for, for any token id: the sum of
  -- the two balances is kept, the one account keeps the ids that are not transferred, and the other
  -- gains those that are.
  pub transfer-conserves :
      (program_account : Option Account) (a b : Account) (nft : U256)
      → Covers k amount ids a
      → balance k b + amount_of amount < u256_mod
      → let a' = (apply_transfer_from_instruction k amount ids a).1 in
        let b' = (apply_transfer_to_instruction k amount ids program_account b).1 in
        (balance k a' + balance k b' ≡ balance k a + balance k b)
        × (holds k nft a' ≡ (not (contains ids nft) && holds k nft a))
        × (holds k nft b' ≡ (holds k nft b || contains ids nft))
  transfer-conserves p a b nft c fits =
      let (_, ea, ha) = transfer_from_takes a nft c in
      let (_, eb, hb) = transfer_to_gives p b nft fits in (omega (arith, ea, eb), ha, hb)

module _ ⦃u : Uint⦄ (k : Address) (amount : U256) (ids : List U256) (a : Account) where
  -- A transfer of an amount that the token covers, with ids that are not all held, fails with the
  -- error of the ids, and the account that it leaves behind has lost the amount.
  pub transfer_from_not_atomic :
      (t : Token)
      → Map.get k a.programs ≡ some t
      → amount ≤ t.balance
      → all (contains t.token_ids) ids ≡ false
      → let (r, a') = apply_transfer_from_instruction k (some amount) ids a in
        (r ≡ err token_ids_not_owned) × (balance k a' + amount ≡ balance k a)
  unfolding apply_transfer_from_instruction on_program
  transfer_from_not_atomic t e enough missing =
      let t' : Token = record t { balance = t.balance - amount } in
      ground (arith, take_away_missing amount ids t enough missing, get-insert_self k t' a.programs)
