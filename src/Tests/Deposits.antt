-- ===== src/Tests/Deposits.antt =====
-- A deposit of the base chain, to a user without an account.
use lasr.Base.{◌+◌, ◌≡◌, refl, none, some, [], ◌∷◌, nat_eq, string_eq}
use lasr.Base.Map
use lasr.Types.Account.Send.{apply_send_transaction}
use lasr.Listener.{EventType}
use lasr.Actors.EoServer.{handle_log}
use lasr.Actors.EoServer.Decoding.{bridge_log}
use lasr.Actors.Batch.{insert_account, insert_transaction}
use lasr.Actors.Batcher.{placed}
use lasr.Actors.Batcher.Tasks.{place_all}
use lasr.Actors.Batcher.World.{find_account}
use lasr.Actors.Batcher.Sends.Conserves.{balance_at}
use lasr.Actors.Batcher.Sends.Deposits.{HasDepositRoom}
use lasr.Actors.Engine
use lasr.Actors.Engine.{BridgeEvent, EoEvent, bridged}
use lasr.Actors.PendingActor.Runs.{IsQuiet}
use lasr.Actors.System.{System, drain, world_of, to_engine}
use lasr.Actors.System.DepositPath.{deposit_arrives}
use lasr.Tests.Listening.{test_values, test_encoding, test_event}
use lasr.Tests.Network.{test_node, test_system, path_up, new_state-IsQuiet}
use lasr.Tests.Validation.{test_signatures}
use lasr.Tests.{test_uint, test_hasher, test_encoder, test_env, test_registry}

abbrev newcomer : BridgeEvent
newcomer = record (test_event 6) { user = 40 }

newcomer_unknown : find_account test_env 40 (world_of test_system) ≡ none
unfolding Map.get
newcomer_unknown = refl

newcomer-HasDepositRoom : HasDepositRoom test_env (bridged newcomer) (world_of test_system) none
unfolding place_all placed insert_account insert_transaction Map.insert apply_send_transaction
    Map.get lasr.Types.Account.new_account lasr.Types.Account.Send.apply_bridge_in
newcomer-HasDepositRoom = (_, _, refl, refl)

no_client : Map.get "" test_system.ports ≡ none
unfolding Map.get
no_client = refl

deposit_arrives_example :
    (m : EoEvent) × (s' : System) × (handle_log test_values test_registry EventType.bridge
        (bridge_log test_values test_encoding newcomer ∷ [])
      ≡ some m)
    × (drain test_node 6 (to_engine (Engine.eo_event m) ∷ []) test_system ≡ some s')
    × (balance_at test_env (world_of s') 1 40
        ≡ balance_at test_env (world_of test_system) 1 40 + 30)
    × (s'.replies ≡ [])
    × IsQuiet s'.pending
deposit_arrives_example =
    deposit_arrives test_node newcomer path_up test_values test_encoding test_system none
      new_state-IsQuiet refl newcomer_unknown tt newcomer-HasDepositRoom no_client
