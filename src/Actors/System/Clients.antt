-- ===== src/Actors/System/Clients.antt =====
-- The client's end of the actors: a request of crates/actors/src/rpc_server.rs is delivered through
-- all of them, and the client reads the reply that was sent to its port.
use lasr.Base.{ℕ, Option, none, some, List, [], ◌∷◌, ◌==◌, nat_eq, if◌then◌else◌}
use lasr.Types.Address.Hex.{HexDecoder}
use lasr.Types.U256.{Uint}
use lasr.Actors.Messages.{Hasher}
use lasr.Actors.Scheduler.{Port, Response}
use lasr.Actors.RpcServer.{RpcRequestMethod, handle_request_method, Json, LasrRpc, rpc_server}
use lasr.Actors.Validator.{Signatures}
use lasr.Actors.Batch.{Encoder}
use lasr.Actors.System.{System, Node, drain, to_scheduler}

-- the first reply on a port, which is the only one that is received
abbrev pub reply_on : Port → List (Port × Response) → Option Response
reply_on port [] = none
reply_on port (r ∷ replies) = if r.0 == port then some r.1 else reply_on port replies

-- A port is new, so no earlier reply is kept. Where an actor blocks or panics no response comes.
module _ ⦃h : Hasher⦄ ⦃u : Uint⦄ ⦃c : Encoder⦄ ⦃v : Signatures⦄ (n : Node) (fuel : ℕ)
    (port : Port) where
  unfoldable pub ask : RpcRequestMethod → System → Option Response × System
  unfolding handle_request_method drain
  ask method s = elim (handle_request_method n.env.registry.scheduler method port) [
    | none ↦ (none, s)
    | some m ↦ elim (drain n fuel (to_scheduler m ∷ []) (record s { replies = [] })) [
      | none ↦ (none, s)
      | some s' ↦ (reply_on port s'.replies, s')
    ]
  ]

  abbrev pub node_rpc : {J : Type 0} → ⦃d : HexDecoder⦄ → Json J → LasrRpc J System
  node_rpc json = rpc_server json ask
