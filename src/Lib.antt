-- ===== src/Lib.antt =====
-- LASR, a stateless rollup: its accounts, tokens and transactions, and the actors that order,
-- apply and batch them, and the listener to the contract on the base chain. Source: the crates
-- `types`, `actors`, `eo_listener`, `rpc` and `wallet` under crates/, with the messages of the
-- crate `messages`.
--
-- A wallet builds transactions and submits them to the server for clients, which casts them to the
-- scheduler. The scheduler passes a client's request on and keeps its reply port until an answer
-- comes. A transaction comes in through the pending transaction actor, which decides whether it
-- waits for another one, and sends it on to the validator. Validated, it is applied by the
-- batcher: a send or a deposit to the accounts of its two parties, a call by the instructions that
-- the program returned. The batcher reads accounts through the account cache, which stands before
-- the persistence store, writes them back to the cache, and places them in a batch that goes to
-- the data availability layer and is settled later. A deposit is found by the listener, which asks
-- a node for the logs of the contract, and decoded by the oracle server, which passes it to the
-- engine.
--
-- Base: lists, maps as association lists, results with a panic of their own, Boolean equality.
-- Types: the crate `types`.
--   Types/Token, Types/TokenUpdate: crates/types/src/token.rs.
--   Types/Transaction: crates/types/src/transaction.rs, with Fields for the texts of its fields.
--   Types/Signing: crates/types/src/signing.rs and the signature of a transaction, with Message for
--   the text that is signed.
--   Types/Account: crates/types/src/account.rs, with Send for `apply_send_transaction`, Apply for
--   the methods that apply instructions, Program for program updates, and Validate for the
--   `validate_*` methods.
--   Types/Address, with Hex for the texts of an address: crates/types/src/account.rs.
--   Types/Instruction: the data of crates/types/src/programming_model.rs, with Builders for the
--   builders of instructions.
-- Actors: the crate `actors`.
--   Actors/Pending, Actors/PreCall, Actors/PendingActor:
--   crates/actors/src/pending_transactions.rs, the two graphs and the message handler, with the
--   states that the handler can get into.
--   Actors/Validator: crates/actors/src/validator.rs, with Instructions for the checks of the
--   instructions of a call.
--   Actors/Scheduler: crates/actors/src/scheduler.rs, with the ports on which clients are
--   answered.
--   Actors/Engine: crates/actors/src/engine.rs, with Deposits for the events of the bridge.
--   Actors/Executor: crates/actors/src/executor.rs, with Results for the calls that run.
--   Actors/EoServer: crates/actors/src/eo_server.rs, with Decoding for the logs that the contract
--   writes.
--   Actors/RpcServer: crates/actors/src/rpc_server.rs and crates/rpc/src/rpc.rs.
--   Actors/System: the actors together. A message is delivered to the actor that it names, in the
--   order of sending (`drain`, with SendPath and Refusal for a client's send, CallPath for a call,
--   DepositPath for a deposit, and Clients for what a client is answered) or in any order (Steps).
--   Actors/AccountCache: crates/actors/src/account_cache.rs.
--   Actors/Batch, Actors/Batcher: crates/actors/src/batcher.rs, with World for the state and the
--   tasks, Sends for `add_transaction_to_account`, Instructions and Calls for the application of
--   instructions and for registrations, and Settle for the settling of batches, with Line for a
--   line of them and Proofs for the proofs that come later.
-- Listener: crates/eo_listener/src/lib.rs and its start in crates/node/src/main.rs, with Once for
-- what is delivered and Restart for a start from the saved blocks.
-- Wallet: crates/wallet/src/wallet.rs, with Sends for a send through the whole network and Keys for
-- the signature that the validator checks.
-- Tests: test data, and an application of each result at a concrete input.
--
-- How the model corresponds to the code. A method with a mutable receiver is a function from the
-- receiver to a result and the receiver that it leaves, on its error path too; a panic is a result
-- of its own. A task of the batcher is a function of a world: the cached accounts, the batcher,
-- and the messages that were cast. An integer of 256 bits is a natural number, and its sums and
-- differences are those that the crate `uint` documents, which panic where they do not fit. Maps
-- keep the order of insertion, and no operation that is modelled reads an order, but for the loops
-- over a hash map, whose order is not defined.
--
-- Fuel. The loop that looks for a batch with room may not end, so it runs on fuel; more fuel than
-- there are children is enough, and where no batch has room no fuel is. A run of the actors (`drain`)
-- has as much fuel as there are deliveries, which the results count. Every other function is total.
--
-- Parameters: the arithmetic of the crate `uint`, the hash function, the hash that stands for a
-- transaction between the actors, the curve of signatures (the validator takes the whole check
-- of a signature, and Wallet/Keys fills it), the encoding of a batch, the persistence store, the
-- registry of actors, the data availability client, the parsing of a registration and of the
-- outputs of a program, the id of a new program, the container runtime, the node that answers
-- for the base chain, the parsing of its logs, the texts of JSON, and the decoders of
-- the crates `hex` and `base64`.
--
-- Not modelled: the build of the executor with the feature `remote`; the client of the contract,
-- the making of keys and the command line, which are mostly input and output; text and byte
-- forms of the data, but for addresses, the fields of a transaction and the signed message; the
-- supervisors; the interleaving of two tasks of the batcher, and replies that are late.
pub mod Base
pub mod Types
pub mod Actors
pub mod Listener
pub mod Wallet
pub mod Tests
