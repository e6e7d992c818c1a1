-- ===== src/Raft/Evolution.antt =====
-- raft/raft.go: what no operation of a member undoes, as a relation between the state before and
-- the state after, with the rules by which it passes through the code. The theorems are below.
pub mod Logs
pub mod Sending
pub mod Roles
pub mod Handlers
pub mod Dispatch
pub mod Steps
use etcd.Prelude.{
  subst, ℕ, ◌+◌, ◌≤◌, ◌≡◌, refl, List, [], ◌∷◌, arith, Result, ok, panic, Panic, ◌>>=◌, ◌∙◌, Bool,
  true, false, if◌then◌else◌, length,
}
use etcd.Raft.Log.{RaftLog, at}
use etcd.Raft.Log.Bounds.{IsWf}
use etcd.Raft.Holds.{Holds, Holds-bind, Holds-from}
use etcd.Raft.Machine.{
  Raft, Progress, StateType, state_follower, state_candidate, state_leader, StepFunc, TickFunc,
}

-- Every progress has a `next` of at least 1.
abbrev pub NextPositive : List (ℕ × Progress) → Type 0
NextPositive [] = Unit {0}
NextPositive ((i, pr) ∷ prs) = (1 ≤ pr.next) × NextPositive prs

abbrev pub step_of : StateType → StepFunc
step_of state_follower = StepFunc.step_follower
step_of state_candidate = StepFunc.step_candidate
step_of state_leader = StepFunc.step_leader

abbrev pub tick_of : StateType → TickFunc
tick_of state_leader = TickFunc.tick_heartbeat
tick_of _ = TickFunc.tick_election

-- The invariant of a member: its log is well formed, `next` never gets below 1, the handler and the
-- clock are those of its state, and a leader knows itself as the leader.
pub record IsValid (r : Raft) : Type 0 where
  pub log : IsWf r.raft_log
  pub next : NextPositive r.prs
  pub handler : r.step ≡ step_of r.state
  pub clock : r.tick ≡ tick_of r.state
  pub leads : r.state ≡ state_leader → r.lead ≡ r.id

-- The commit index, the offset and the applied index do not fall, and the entries up to the old
-- commit index stay as they are, as far as the log still holds them.
pub record LogEvolves (l l' : RaftLog) : Type 0 where
  pub committed : l.committed ≤ l'.committed
  pub offset : l.offset ≤ l'.offset
  pub applied : l.applied ≤ l'.applied
  pub kept : (i : ℕ) → l'.offset ≤ i → i ≤ l.committed → at l' i ≡ at l i

pub LogEvolves-refl : (l : RaftLog) → LogEvolves l l
LogEvolves-refl l = record {
  committed = omega arith;
  offset = omega arith;
  applied = omega arith;
  kept = λ i h k. refl;
}

pub LogEvolves-trans : {k l m : RaftLog} → LogEvolves k l → LogEvolves l m → LogEvolves k m
LogEvolves-trans p q = record {
  committed = omega arith;
  offset = omega arith;
  applied = omega arith;
  kept = λ i h g. q.kept i h (omega arith) ∙ p.kept i (omega arith) g;
}

pub record Evolves (r s : Raft) : Type 0 where
  pub valid : IsValid s
  pub id : s.id ≡ r.id
  pub term : r.hard.term ≤ s.hard.term
  pub log : LogEvolves r.raft_log s.raft_log

pub Evolves-refl : (r : Raft) → IsValid r → Evolves r r
Evolves-refl r v = record {
  valid = v;
  id = refl;
  term = omega arith;
  log = LogEvolves-refl r.raft_log;
}

pub Evolves-trans : {r s t : Raft} → Evolves r s → Evolves s t → Evolves r t
Evolves-trans p q = record {
  valid = q.valid;
  id = q.id ∙ p.id;
  term = omega arith;
  log = LogEvolves-trans p.log q.log;
}

-- Code that starts from `r` evolves it, if it does not panic.
abbrev pub Ensures : Raft → Result Raft → Type 0
Ensures r m = Holds Evolves r m

pub Ensures-bind :
    {r : Raft} (m : Result Raft) (f : Raft → Result Raft)
    → Ensures r m
    → ((s : Raft) → Evolves r s → Ensures s (f s))
    → Ensures r (m >>= f)
Ensures-bind = Holds-bind (λ r s t. Evolves-trans {r = r} {s = s} {t = t})

pub Ensures-from : {r s : Raft} {m : Result Raft} → Evolves r s → Ensures s m → Ensures r m
Ensures-from = Holds-from (λ r s t. Evolves-trans {r = r} {s = s} {t = t})

-- A state that differs in nothing of the log.
module _ {r s : Raft} (v : IsValid r) where
  pub Evolves-same_log :
      s.id ≡ r.id
      → r.hard.term ≤ s.hard.term
      → s.raft_log ≡ r.raft_log
      → NextPositive s.prs
      → s.step ≡ step_of s.state
      → s.tick ≡ tick_of s.state
      → (s.state ≡ state_leader → s.lead ≡ s.id)
      → Evolves r s
  Evolves-same_log i t l n h c d = record {
    valid = record { log = rw l v.log; next = n; handler = h; clock = c; leads = d };
    id = i;
    term = t;
    log = rw l (LogEvolves-refl r.raft_log);
  }
