-- ===== src/Types/Transaction/Equality.antt =====
-- The derived `PartialEq` of `TransactionType` and `Transaction`.
use lasr.Base.{◌≡◌, ◌↔◌, Bool, true, false, ◌&&◌, ◌==◌, Eq, nat_eq, string_eq, arith}
use lasr.Base.Int.{int_eq}
use lasr.Types.Transaction.{
  Transaction, TransactionType, bridge_in, send, call, bridge_out, register_program,
}

abbrev pub type_beq : TransactionType → TransactionType → Bool
type_beq (bridge_in a) (bridge_in b) = a == b
type_beq (send a) (send b) = a == b
type_beq (call a) (call b) = a == b
type_beq (bridge_out a) (bridge_out b) = a == b
type_beq (register_program a) (register_program b) = a == b
type_beq _ _ = false

pub type_beq_iff : (a b : TransactionType) → (type_beq a b ≡ true) ↔ (a ≡ b)
type_beq_iff a b = ground arith

abbrev pub transaction_beq : Transaction → Transaction → Bool
transaction_beq a b =
    type_beq a.transaction_type b.transaction_type
    && (a.from == b.from
        && (a.to == b.to
            && (a.program_id == b.program_id
                && (a.op == b.op
                    && (a.inputs == b.inputs
                        && (a.value == b.value
                            && (a.nonce == b.nonce
                                && (a.v == b.v && (a.r == b.r && a.s == b.s)))))))))

pub transaction_beq_iff : (a b : Transaction) → (transaction_beq a b ≡ true) ↔ (a ≡ b)
transaction_beq_iff a b = ground (
  arith,
  type_beq_iff a.transaction_type b.transaction_type,
  string_eq.beq_iff a.op b.op,
  string_eq.beq_iff a.inputs b.inputs,
  int_eq.beq_iff a.v b.v,
)

instance abbrev pub transaction_eq : Eq Transaction
transaction_eq = record { beq = transaction_beq; beq_iff = transaction_beq_iff }
