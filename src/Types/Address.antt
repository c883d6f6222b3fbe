-- ===== src/Types/Address.antt =====
-- `Address` of crates/types/src/account.rs: 20 bytes, read as a number in big-endian order.
pub mod Hex
use lasr.Base.{ℕ}

abbrev pub Address : Type 0
Address = ℕ

-- `Address::verse_addr`: 19 zero bytes and a one
abbrev pub verse_addr : Address
verse_addr = 1

-- `Address::eth_addr`
abbrev pub eth_addr : Address
eth_addr = 0
