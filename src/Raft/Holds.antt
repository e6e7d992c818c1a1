-- ===== src/Raft/Holds.antt =====
-- A relation between the state of a member before some code and the state after it: the rules by
-- which it passes through the code's constructs. Code that panics leaves no state.
use etcd.Prelude.{
  ◌≡◌, refl, subst, Bool, true, false, if◌then◌else◌, Result, ok, panic, Panic, ◌>>=◌,
}
use etcd.Raft.Machine.{Raft, StateType, state_follower, state_leader, TickFunc, StepFunc}

pub record Holds (R : Raft → Raft → Type 0) (r : Raft) (m : Result Raft) : Type 0 where
  pub at : (s : Raft) → m ≡ ok s → R r s

module _ {R : Raft → Raft → Type 0} where
  pub Holds-ok : {r s : Raft} → R r s → Holds R r (ok s)
  Holds-ok {r} {s} e = record { at = λ t h. let p : s ≡ t = cc in subst (λ k. R r k) p e }

  pub Holds-panic : (r : Raft) (p : Panic) → Holds R r (panic p)
  Holds-panic r p = record { at = λ t h. cc }

  pub Holds-if :
      {r : Raft} (b : Bool) {m n : Result Raft}
      → Holds R r m
      → Holds R r n
      → Holds R r (if b then m else n)
  Holds-if true p q = p
  Holds-if false p q = q

  pub Holds-choice :
      {r : Raft} (s t : Raft) (b : Bool) → R r s → R r t → Holds R r (ok (if b then s else t))
  Holds-choice s t true p q = Holds-ok p
  Holds-choice s t false p q = Holds-ok q

  -- The code after a step that yields a value and no state.
  pub Holds-value {ℓ} :
      {A : Type ℓ} {r : Raft} (m : Result A) (f : A → Result Raft)
      → ((a : A) → m ≡ ok a → Holds R r (f a))
      → Holds R r (m >>= f)
  Holds-value (ok a) f q = q a refl
  Holds-value (panic e) f q = record { at = λ t h. cc }

  -- The panics on a transition that must not happen.
  pub Holds-not_leader :
      {r : Raft} (st : StateType) (p : Panic) {m : Result Raft}
      → Holds R r m
      → Holds R r (elim st [ state_leader ↦ panic p | _ ↦ m ])
  Holds-not_leader {r} state_leader p h = Holds-panic r p
  Holds-not_leader _ p h = h

  pub Holds-not_follower :
      {r : Raft} (st : StateType) (p : Panic) {m : Result Raft}
      → Holds R r m
      → Holds R r (elim st [ state_follower ↦ panic p | _ ↦ m ])
  Holds-not_follower {r} state_follower p h = Holds-panic r p
  Holds-not_follower _ p h = h

  -- The handler and the clock that the member has.
  pub Holds-handler :
      {r : Raft} (f : StepFunc) {a b c : Result Raft}
      → (f ≡ StepFunc.step_leader → Holds R r a)
      → (f ≡ StepFunc.step_candidate → Holds R r b)
      → (f ≡ StepFunc.step_follower → Holds R r c)
      → Holds R r (elim f [
        | StepFunc.step_leader ↦ a
        | StepFunc.step_candidate ↦ b
        | StepFunc.step_follower ↦ c
      ])
  Holds-handler StepFunc.step_leader p q h = p refl
  Holds-handler StepFunc.step_candidate p q h = q refl
  Holds-handler StepFunc.step_follower p q h = h refl

  pub Holds-clock :
      {r : Raft} (f : TickFunc) {a b : Result Raft}
      → Holds R r a
      → Holds R r b
      → Holds R r (elim f [ TickFunc.tick_election ↦ a | TickFunc.tick_heartbeat ↦ b ])
  Holds-clock TickFunc.tick_election p q = p
  Holds-clock TickFunc.tick_heartbeat p q = q

module _ {R : Raft → Raft → Type 0} (trans : (r s t : Raft) → R r s → R s t → R r t) where
  pub Holds-from : {r s : Raft} {m : Result Raft} → R r s → Holds R s m → Holds R r m
  Holds-from {r} {s} e p = record { at = λ t h. trans r s t e (p.at t h) }

  pub Holds-bind :
      {r : Raft} (m : Result Raft) (f : Raft → Result Raft)
      → Holds R r m
      → ((s : Raft) → R r s → Holds R s (f s))
      → Holds R r (m >>= f)
  Holds-bind {r} (ok s) f p q = record {
    at = λ t h. trans r s t (p.at s refl) ((q s (p.at s refl)).at t h);
  }
  Holds-bind (panic e) f p q = record { at = λ t h. cc }
