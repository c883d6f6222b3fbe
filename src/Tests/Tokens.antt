-- ===== src/Tests/Tokens.antt =====
-- The validations of an account at concrete inputs.
use lasr.Base.{◌≡◌, refl, List, [], ◌∷◌, nat_eq, string_eq}
use lasr.Base.Map
use lasr.Base.Result.{ok}
use lasr.Types.Account.Program.{location_eq}
use lasr.Types.Account.Validate.{validate_balance, validate_token_ownership, validate_nonce}
use lasr.Types.U256.{U256}
use lasr.Tests.{test_uint, alice}

abbrev seven : List U256
seven = 7 ∷ []

balance_is_valid : validate_balance 1 20 alice ≡ ok tt
unfolding validate_balance Map.get
balance_is_valid = refl

ownership_is_valid : validate_token_ownership 1 seven alice ≡ ok tt
unfolding validate_token_ownership Map.get
ownership_is_valid = refl

nonce_is_valid : validate_nonce 9 alice ≡ ok tt
unfolding validate_nonce
nonce_is_valid = refl
