-- ===== src/Raft/Evolution/Steps.antt =====
-- raft/raft.go: `Step`, the ticks and the calls of the driver, on every branch.
use native.Mathlib.Nat.{le_refl}
use etcd.Prelude.{
  panic, Result, ◌>>=◌, inr, inl, Bool-cases, ℕ, ◌+◌, ◌<◌, ◌≡◌, refl, List, [], ◌∷◌, arith, ok,
  true, if◌then◌else◌, ◌==◌, ltb,
}
use etcd.Prelude.Map.{insert, delete}
use etcd.Raft.Pb.{Message, MessageType}
use etcd.Raft.Machine.{Raft, Progress, is_removed, campaign}
use etcd.Raft.Step.{add_node, remove_node}
use etcd.Raft.Member.{
  step, step_body, step_term, record_commit, is_hup, is_vote, is_denied, tick_election,
  tick_heartbeat, run_tick, promotable, local_message,
}
use etcd.Raft.Holds.{Holds-ok, Holds-if, Holds-choice, Holds-clock}
use etcd.Raft.Evolution.{
  IsValid, Evolves, Evolves-refl, Evolves-same_log, Ensures, Ensures-from, Ensures-bind,
  NextPositive,
}
use etcd.Raft.Evolution.Sending.{mailbox-Evolves}
use etcd.Raft.Evolution.Roles.{become_follower-Evolves, campaign-Ensures, NextPositive-insert}
use etcd.Raft.Evolution.Dispatch.{run_step-Ensures}

-- A snapshot message carries a term: `stepCandidate` takes its own term from it.
abbrev pub IsTimed : Message → Type 0
IsTimed m = m.type ≡ MessageType.msg_snap → 0 < m.term

pub step_term-Ensures : (r : Raft) (m : Message) → IsValid r → IsTimed m → Ensures r (step_term r m)
step_term-Ensures r m v timed = elim (Bool-cases (m.term == 0)) [
  | inl z ↦
      unfold step_term in simp z (run_step-Ensures r m v (λ e. absurd (ground (arith, timed e, z))))
  | inr timeful ↦ elim (Bool-cases (ltb r.hard.term m.term)) [
    | inl newer ↦
        let f =
          become_follower-Evolves r m.term (if is_vote m.type then 0 else m.from) v
            (ground arith) in
        unfold step_term in
        simp (timeful, newer) (Ensures-from f (run_step-Ensures _ m f.valid (λ e. le_refl m.term)))
    | inr not_newer ↦ elim (Bool-cases (ltb m.term r.hard.term)) [
      | inl older ↦
          unfold step_term in simp (timeful, not_newer, older) (Holds-ok (Evolves-refl r v))
      | inr same ↦
          unfold step_term in
          simp (timeful, not_newer, same) (run_step-Ensures r m v (λ e. ground (arith, same)))
    ]
  ]
]

commit-Evolves : (r : Raft) → IsValid r → Evolves r (record_commit r)
commit-Evolves r v = Evolves-same_log v refl (omega arith) refl v.next v.handler v.clock v.leads

removed-Evolves :
    (r : Raft) (i : ℕ) → IsValid r → Evolves r (record r { removed = insert i true r.removed })
removed-Evolves r i v = Evolves-same_log v refl (omega arith) refl v.next v.handler v.clock v.leads

step_body-Ensures : (r : Raft) (m : Message) → IsValid r → IsTimed m → Ensures r (step_body r m)
unfolding step_body
step_body-Ensures r m v timed =
    Holds-if (is_removed r m.from)
      (Holds-choice _ _ (m.from == r.id) (Evolves-refl r v) (mailbox-Evolves r _ v))
      (Holds-if (is_denied m.type) (Holds-ok (removed-Evolves r r.id v)) (
        Ensures-bind (if is_hup m.type then campaign r else ok r) (λ s. step_term s m)
          (Holds-if (is_hup m.type) (campaign-Ensures r v) (Holds-ok (Evolves-refl r v)))
          λ s e. step_term-Ensures s m e.valid timed))

pub step-Ensures : (r : Raft) (m : Message) → IsValid r → IsTimed m → Ensures r (step r m)
unfolding step
step-Ensures r m v timed =
    Ensures-bind (step_body r m) (λ s. ok (record_commit s)) (step_body-Ensures r m v timed)
      λ s e. Holds-ok (commit-Evolves s e.valid)

elapsed-Evolves : (r : Raft) (n : ℕ) → IsValid r → Evolves r (record r { elapsed = n })
elapsed-Evolves r n v = Evolves-same_log v refl (omega arith) refl v.next v.handler v.clock v.leads

pub election-Ensures : (r : Raft) → IsValid r → Ensures r (tick_election r)
unfolding tick_election
election-Ensures r v =
    let clock = λ (n : ℕ). elapsed-Evolves r n v in
    Holds-if (promotable r)
      (Holds-if (ltb r.election_timeout (r.elapsed + 1))
        (Ensures-from (clock 0)
          (step-Ensures _ (local_message MessageType.msg_hup r.id) (clock 0).valid (λ e. cc)))
        (Holds-ok (clock (r.elapsed + 1))))
      (Holds-ok (clock 0))

heartbeat-Ensures : (r : Raft) → IsValid r → Ensures r (tick_heartbeat r)
unfolding tick_heartbeat
heartbeat-Ensures r v =
    let clock = λ (n : ℕ). elapsed-Evolves r n v in
    Holds-if (ltb r.heartbeat_timeout (r.elapsed + 1))
      (Ensures-from (clock 0)
        (step-Ensures _ (local_message MessageType.msg_beat r.id) (clock 0).valid (λ e. cc)))
      (Holds-ok (clock (r.elapsed + 1)))

pub run_tick-Ensures : (r : Raft) → IsValid r → Ensures r (run_tick r)
unfolding run_tick
run_tick-Ensures r v = Holds-clock r.tick (election-Ensures r v) (heartbeat-Ensures r v)

NextPositive-delete :
    (i : ℕ) (prs : List (ℕ × Progress)) → NextPositive prs → NextPositive (delete i prs)
unfolding delete
NextPositive-delete i [] n = tt
NextPositive-delete i ((j, pr) ∷ prs) n = ground (arith, NextPositive-delete i prs n.1)

pub add_node-Evolves : (r : Raft) (i : ℕ) → IsValid r → Evolves r (add_node r i)
unfolding add_node
add_node-Evolves r i v =
    Evolves-same_log v refl (omega arith) refl (NextPositive-insert i _ r.prs (omega arith) v.next)
      v.handler v.clock v.leads

pub remove_node-Evolves : (r : Raft) (i : ℕ) → IsValid r → Evolves r (remove_node r i)
unfolding remove_node
remove_node-Evolves r i v =
    Evolves-same_log v refl (omega arith) refl (NextPositive-delete i r.prs v.next) v.handler
      v.clock v.leads

-- `Step` is safe: from a valid member, and with a message that carries a term if it carries a
-- snapshot, any message whose handling does not panic leaves a valid member with the same id, a term that is
-- not lower, a commit index, an offset and an applied index that are not lower, the same entries up
-- to the old commit index (as far as the log still holds them), and the commit index recorded in
-- its hard state.
pub step_safe :
    (r r' : Raft) (m : Message)
    → IsValid r
    → IsTimed m
    → step r m ≡ ok r'
    → Evolves r r' × (r'.hard.commit ≡ r'.raft_log.committed)
step_safe r r' m v timed h = ((step-Ensures r m v timed).at r' h, recorded (step_body r m) h')
  where
    h' : (do s ← step_body r m; ok (record_commit s)) ≡ ok r'
    h' = unfold step in h

    recorded :
        (b : Result Raft)
        → (do s ← b; ok (record_commit s)) ≡ ok r'
        → r'.hard.commit ≡ r'.raft_log.committed
    recorded (ok s) e = ground (arith, e)
    recorded (panic p) e = cc
