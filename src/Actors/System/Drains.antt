-- ===== src/Actors/System/Drains.antt =====
-- One more delivery of a run of the actors.
use lasr.Base.{ℕ, suc, ◌≡◌, arith, some, List, ◌∷◌, ◌++◌}
use lasr.Types.U256.{Uint}
use lasr.Actors.Messages.{Hasher}
use lasr.Actors.Validator.{Signatures}
use lasr.Actors.Batch.{Encoder}
use lasr.Actors.System.{Message, System, Node, deliver, drain}

pub drain_step :
    ⦃h : Hasher⦄ ⦃u : Uint⦄ ⦃c : Encoder⦄ ⦃v : Signatures⦄ (n : Node) (fuel : ℕ) (m : Message)
    (ms out : List Message) (s s' : System)
    → deliver n m s ≡ some (out, s')
    → drain n (suc fuel) (m ∷ ms) s ≡ drain n fuel (ms ++ out) s'
unfolding drain
drain_step n fuel m ms out s s' e = ground arith
