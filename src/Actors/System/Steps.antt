-- ===== src/Actors/System/Steps.antt =====
-- The actors of crates/actors/src together, with the messages that are on their way delivered in any
-- order.
use lasr.Base.{
  ℕ, ◌+◌, ◌≤◌, ◌≡◌, refl, subst, ap, arith, Option, none, some, List, [], ◌∷◌, ◌++◌, ◌==◌, map,
  nat_eq,
}
use lasr.Base.Result.{ok, err, panic}
use lasr.Types.U256.{Uint}
use lasr.Actors.Messages
use lasr.Actors.Messages.{Hasher, Cast}
use lasr.Actors.Scheduler
use lasr.Actors.Scheduler.{Port, Response, Sent}
use lasr.Actors.Scheduler.Replies.{one_if, replies, held, brings, handle_lem}
use lasr.Actors.PendingActor.{PendingState, Handled, handled, blocked, panicked}
use lasr.Actors.Validator.{Signatures, pending_transaction, pending_call}
use lasr.Actors.Executor
use lasr.Actors.Executor.{Runtime}
use lasr.Actors.Batch.{Encoder}
use lasr.Actors.Batcher.World.{Ended, ended, endless}
use lasr.Actors.System.{
  Message, System, Node, Delivered, deliver, found_account, scheduler_env, routed, forwarded,
  replied, from_pending, from_batcher, from_engine, to_scheduler, to_engine, to_pending,
  to_validator, to_validator_call, to_batcher, to_executor, to_cache,
}

-- the actors with the messages on their way
pub record Net : Type 0 where
  pub flight : List Message
  pub system : System

module _ ⦃h : Hasher⦄ ⦃u : Uint⦄ ⦃c : Encoder⦄ ⦃v : Signatures⦄ (n : Node) where
  -- any one of them is delivered next
  pub data Step : Net → Net → Type 0 where
    delivered :
        {net : Net} (before after : List Message) (m : Message) (out : List Message) (s' : System)
        → net.flight ≡ before ++ m ∷ after
        → deliver n m net.system ≡ some (out, s')
        → Step net (record { flight = (before ++ after) ++ out; system = s' })

  pub data Steps (start : Net) : Net → Type 0 where
    here : Steps start start
    next : {net net' : Net} → Steps start net → Step net net' → Steps start net'

module _ (p : Port) where
  abbrev pub answers : List (Port × Response) → ℕ
  answers [] = 0
  answers (r ∷ rs) = one_if p (r.0 == p) + answers rs

  abbrev asks : Message → ℕ
  asks (to_scheduler m) = one_if p (brings p m)
  asks _ = 0

  abbrev pub asked : List Message → ℕ
  asked [] = 0
  asked (m ∷ ms) = asks m + asked ms

  asks-routed : (cast : Cast) → asks (routed cast) ≡ 0
  asks-routed (Messages.validator_pending_transaction tx) = refl
  asks-routed _ = refl

  asked-routed : (casts : List Cast) → asked (map routed casts) ≡ 0
  asked-routed [] = refl
  asked-routed (cast ∷ casts) = omega (arith, asks-routed cast, asked-routed casts)

  asked-forwarded : (sent : List Sent) → asked (forwarded sent) ≡ 0
  asked-forwarded [] = refl
  asked-forwarded (x ∷ sent) = ground (arith, asked-forwarded sent)

  answers-replied : (sent : List Sent) → answers (replied sent) ≡ replies p sent
  answers-replied [] = refl
  answers-replied (x ∷ sent) = ground (arith, answers-replied sent)

  answers-append : (xs ys : List (Port × Response)) → answers (xs ++ ys) ≡ answers xs + answers ys
  answers-append [] ys = omega arith
  answers-append (x ∷ xs) ys = omega (arith, answers-append xs ys)

  asked-append : (xs ys : List Message) → asked (xs ++ ys) ≡ asked xs + asked ys
  asked-append [] ys = omega arith
  asked-append (x ∷ xs) ys = omega (arith, asked-append xs ys)

  -- the answers that the port got and those that it may still get
  abbrev pub owed : System → ℕ
  owed s = answers s.replies + held p s.ports

  abbrev Owes : ℕ → Delivered → Type 0
  Owes k none = Unit
  Owes k (some (out, s')) = asked out + owed s' ≤ k

  from_engine-Owes : (s : System) (o : Option (List Cast)) → Owes (owed s) (from_engine s o)
  from_engine-Owes s none = tt
  from_engine-Owes s (some casts) = omega (arith, asked-routed casts)

  from_pending-Owes : (s : System) (r : Handled PendingState) → Owes (owed s) (from_pending s r)
  from_pending-Owes s (handled q casts) = omega (arith, asked-routed casts)
  from_pending-Owes s blocked = tt
  from_pending-Owes s panicked = tt

  from_batcher-Owes : (s : System) (r : Ended (Unit {0})) → Owes (owed s) (from_batcher s r)
  from_batcher-Owes s (ended (ok _) w) = omega (arith, asked-routed w.sent)
  from_batcher-Owes s (ended (err _) w) = omega (arith, asked-routed w.sent)
  from_batcher-Owes s (ended panic w) = tt
  from_batcher-Owes s endless = tt

  weaken : (k : ℕ) (d : Delivered) → Owes k d → Owes (0 + k) d
  weaken k none o = tt
  weaken k (some (out, s')) o = omega (arith, o)

  module _ ⦃h : Hasher⦄ ⦃u : Uint⦄ ⦃c : Encoder⦄ ⦃v : Signatures⦄ (n : Node) where
    deliver-Owes : (m : Message) (s : System) → Owes (asks m + owed s) (deliver n m s)
    unfolding deliver
    deliver-Owes (to_scheduler m) s =
        let (sent, ports) = Scheduler.handle (scheduler_env n s) m s.ports in
        omega (
          arith,
          handle_lem p (scheduler_env n s) m s.ports,
          asked-forwarded sent,
          answers-replied sent,
          answers-append s.replies (replied sent),
        )
    deliver-Owes (to_engine m) s = weaken (owed s) _ (from_engine-Owes s _)
    deliver-Owes (to_pending m) s = weaken (owed s) _ (from_pending-Owes s _)
    deliver-Owes (to_validator tx) s =
        omega (arith, asked-routed (pending_transaction n.env.registry (found_account n s) tx))
    deliver-Owes (to_validator_call outputs tx) s =
        omega (arith, asked-routed (pending_call n.env.registry (found_account n s) outputs tx))
    deliver-Owes (to_batcher tx outputs) s = weaken (owed s) _ (from_batcher-Owes s _)
    deliver-Owes (to_executor m) s =
        let runtime : Runtime = record n.runtime { get_account = found_account n s } in
        let (casts, _) = Executor.handle n.env.registry runtime n.contract n.text m s.handles in
        omega (arith, asked-routed casts)
    deliver-Owes (to_cache account) s = omega arith

    deliver-owed :
        (m : Message) (s s' : System) (out : List Message)
        → deliver n m s ≡ some (out, s')
        → asked out + owed s' ≤ asks m + owed s
    deliver-owed m s s' out e = subst (Owes (asks m + owed s)) e (deliver-Owes m s)

    Step-owed :
        {net net' : Net}
        → Step n net net'
        → asked net'.flight + owed net'.system ≤ asked net.flight + owed net.system
    Step-owed (delivered {net = net} before after m out s' flight e) = omega (
      arith,
      deliver-owed m net.system s' out e,
      asked-append (before ++ after) out,
      asked-append before after,
      asked-append before (m ∷ after),
      ap asked flight,
    )

    -- Whatever messages are on their way, and in whatever order they and those that they lead to are
    -- delivered: the answers on a port, with those that it may still get, are never more than they
    -- were at the start. So a client that asked once on a new port gets at most one answer.
    pub Steps-owed :
        {net net' : Net}
        → Steps n net net'
        → asked net'.flight + owed net'.system ≤ asked net.flight + owed net.system
    Steps-owed here = omega arith
    Steps-owed (next steps step) = omega (arith, Steps-owed steps, Step-owed step)
