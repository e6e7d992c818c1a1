-- ===== src/Raft/Evolution/Dispatch.antt =====
-- raft/raft.go: `stepLeader`, `stepCandidate` and `stepFollower` on every message.
use etcd.Prelude.{◌∙◌, ap, sym, ◌-◌, ◌≤◌, ◌≡◌, refl, arith, ◌==◌, ◌||◌, not, length}
use etcd.Raft.Pb.{Message, MessageType}
use etcd.Raft.Log
use etcd.Raft.Machine.{Raft, StepFunc, bcast_append, poll, quorum, become_leader}
use etcd.Raft.Step.{step_leader, step_candidate, step_follower, answer_vote, run_step}
use etcd.Raft.Holds.{Holds-ok, Holds-panic, Holds-if, Holds-value, Holds-choice, Holds-handler}
use etcd.Raft.Evolution.{
  state_leader, IsValid, Evolves, Evolves-refl, Evolves-trans, Evolves-same_log, Ensures,
  Ensures-from, Ensures-bind, step_of,
}
use etcd.Raft.Evolution.Sending.{mailbox-Evolves, bcast_append-Ensures, bcast_heartbeat-Ensures}
use etcd.Raft.Evolution.Roles.{become_follower-Evolves, become_leader-Ensures, poll-Evolves}
use etcd.Raft.Evolution.Handlers.{
  handle_append_entries-Ensures, handle_snapshot-Evolves, leader_proposal-Ensures,
  leader_response-Ensures,
}

step_leader-Ensures :
    (r : Raft) (m : Message) (t : MessageType)
    → IsValid r
    → m.type ≡ t
    → Ensures r (step_leader r m)
step_leader-Ensures r m MessageType.msg_beat v e =
    unfold step_leader in rw e (bcast_heartbeat-Ensures r v)
step_leader-Ensures r m MessageType.msg_prop v e = leader_proposal-Ensures r m m.entries v e refl
step_leader-Ensures r m MessageType.msg_app_resp v e = leader_response-Ensures r m v e
step_leader-Ensures r m MessageType.msg_vote v e =
    unfold step_leader in rw e (Holds-ok (mailbox-Evolves r _ v))
step_leader-Ensures r m _ v e = unfold step_leader in rw e (Holds-ok (Evolves-refl r v))

step_candidate-Ensures :
    (r : Raft) (m : Message) (t : MessageType)
    → IsValid r
    → (t ≡ MessageType.msg_snap → r.hard.term ≤ m.term)
    → m.type ≡ t
    → Ensures r (step_candidate r m)
step_candidate-Ensures r m MessageType.msg_prop v h e =
    unfold step_candidate in rw e (Holds-panic r _)
step_candidate-Ensures r m MessageType.msg_app v h e =
    let f = become_follower-Evolves r r.hard.term m.from v (omega arith) in
    unfold step_candidate in rw e (Ensures-from f (handle_append_entries-Ensures _ m f.valid))
step_candidate-Ensures r m MessageType.msg_snap v h e =
    let f = become_follower-Evolves r m.term m.from v (h refl) in
    unfold step_candidate in rw e (Ensures-from f (Holds-ok (handle_snapshot-Evolves _ m f.valid)))
step_candidate-Ensures r m MessageType.msg_vote v h e =
    unfold step_candidate in rw e (Holds-ok (mailbox-Evolves r _ v))
step_candidate-Ensures r m MessageType.msg_vote_resp v h e =
    let p = poll-Evolves r m.from (not m.denied) v in
    let (s, granted) = poll r m.from (not m.denied) in
    unfold step_candidate in
    rw e (
      Ensures-from p (
        Holds-if (quorum s == granted)
          (Ensures-bind (become_leader s) bcast_append (become_leader-Ensures s p.valid)
            λ t x. bcast_append-Ensures t x.valid)
          (Holds-if (quorum s == length s.votes - granted)
            (Holds-ok (become_follower-Evolves s s.hard.term 0 p.valid (omega arith)))
            (Holds-ok (Evolves-refl s p.valid)))))
step_candidate-Ensures r m _ v h e = unfold step_candidate in rw e (Holds-ok (Evolves-refl r v))

-- A follower that takes note of a sender or of a vote.
follower-Evolves :
    (r s : Raft)
    → IsValid r
    → r.step ≡ StepFunc.step_follower
    → s.id ≡ r.id
    → r.hard.term ≤ s.hard.term
    → s.raft_log ≡ r.raft_log
    → s.prs ≡ r.prs
    → s.step ≡ r.step
    → s.tick ≡ r.tick
    → s.state ≡ r.state
    → Evolves r s
follower-Evolves r s v f i t l p a b c =
    Evolves-same_log v i t l (rw p v.next) (rw (a, c) v.handler) (rw (b, c) v.clock)
      (λ e. let was : r.state ≡ state_leader = sym c ∙ e in cc (v.handler, ap step_of was))

answer_vote-Ensures :
    (r : Raft) (m : Message)
    → IsValid r
    → r.step ≡ StepFunc.step_follower
    → Ensures r (answer_vote r m)
unfolding answer_vote
answer_vote-Ensures r m v f =
    let voter : Raft = record r { elapsed = 0; hard = record r.hard { vote = m.from } } in
    let voted = follower-Evolves r voter v f refl (omega arith) refl refl refl refl refl in
    Holds-if (r.hard.vote == 0 || r.hard.vote == m.from)
      (Holds-value (Log.is_up_to_date r.raft_log m.index m.log_term) _ λ recent _.
        Holds-choice _ _ recent (Evolves-trans voted (mailbox-Evolves voter _ voted.valid))
          (mailbox-Evolves r _ v))
      (Holds-ok (mailbox-Evolves r _ v))

step_follower-Ensures :
    (r : Raft) (m : Message) (t : MessageType)
    → IsValid r
    → r.step ≡ StepFunc.step_follower
    → m.type ≡ t
    → Ensures r (step_follower r m)
step_follower-Ensures r m MessageType.msg_prop v f e =
    unfold step_follower in
    rw e (Holds-if (r.lead == 0) (Holds-panic r _) (Holds-ok (mailbox-Evolves r _ v)))
step_follower-Ensures r m MessageType.msg_app v f e =
    let x =
      follower-Evolves r (record r { elapsed = 0; lead = m.from }) v f refl (omega arith) refl refl
        refl refl refl in
    unfold step_follower in rw e (Ensures-from x (handle_append_entries-Ensures _ m x.valid))
step_follower-Ensures r m MessageType.msg_snap v f e =
    let x =
      follower-Evolves r (record r { elapsed = 0 }) v f refl (omega arith) refl refl refl refl
        refl in
    unfold step_follower in rw e (Ensures-from x (Holds-ok (handle_snapshot-Evolves _ m x.valid)))
step_follower-Ensures r m MessageType.msg_vote v f e =
    unfold step_follower in rw e (answer_vote-Ensures r m v f)
step_follower-Ensures r m _ v f e = unfold step_follower in rw e (Holds-ok (Evolves-refl r v))

-- Whatever its role, a member that handles a message evolves, if a snapshot message is not of an
-- older term.
pub run_step-Ensures :
    (r : Raft) (m : Message)
    → IsValid r
    → (m.type ≡ MessageType.msg_snap → r.hard.term ≤ m.term)
    → Ensures r (run_step r m)
unfolding run_step
run_step-Ensures r m v h =
    Holds-handler r.step (λ e. step_leader-Ensures r m m.type v refl)
      (λ e. step_candidate-Ensures r m m.type v h refl)
      (λ e. step_follower-Ensures r m m.type v e refl)
