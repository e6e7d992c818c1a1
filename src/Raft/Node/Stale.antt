-- ===== src/Raft/Node/Stale.antt =====
-- raft/node.go: the loop goes on taking proposals after the leader is lost, as long as no `Ready`
-- has been taken in between.
use etcd.Prelude.{ap, ◌∙◌, ok, ◌>>=◌, ◌≡◌, refl, true, false, panic, Panic, arith}
use etcd.Raft.Pb.{Message, MessageType}
use etcd.Raft.Machine.{Raft, StepFunc, should_stop, is_removed}
use etcd.Raft.Step.{run_step, step_follower}
use etcd.Raft.Member.{step, step_body, step_term}
use etcd.Raft.Node.{Loop, Event, soft_state, soft_equal, is_offered, round, prepare, handle}

prepare-same : (n : Loop) → soft_equal (soft_state n.raft) n.prev_soft ≡ true → prepare n ≡ n
unfolding prepare
prepare-same n e = ground (arith, e)

run_step-lost :
    (r : Raft) (m : Message)
    → r.lead ≡ 0
    → r.step ≡ StepFunc.step_follower
    → m.type ≡ MessageType.msg_prop
    → run_step r m ≡ panic Panic.no_leader
unfolding run_step step_follower
run_step-lost r m lost handler prop = ground arith

step-lost :
    (r : Raft) (m : Message)
    → r.lead ≡ 0
    → r.step ≡ StepFunc.step_follower
    → is_removed r m.from ≡ false
    → m.type ≡ MessageType.msg_prop
    → m.term ≡ 0
    → step r m ≡ panic Panic.no_leader
unfolding step step_body step_term
step-lost r m lost handler member prop timeless =
    simp (member, prop, timeless, run_step-lost r m lost handler prop) refl

handle-lost :
    (n : Loop) (m : Message)
    → step n.raft (record m { from = n.raft.id }) ≡ panic Panic.no_leader
    → handle n (Event.proposes m) ≡ panic Panic.no_leader
unfolding handle
handle-lost n m e = ap (λ k. do r ← k; ok (record n { raft = r })) e

-- A follower that was not removed, that has lost its leader, and whose soft state is the one
-- reported last, is still offered proposals when it was before, and a proposal without a term panics.
pub proposal_panics :
    (n : Loop) (m : Message)
    → n.proposals ≡ true
    → n.raft.lead ≡ 0
    → n.raft.step ≡ StepFunc.step_follower
    → soft_equal (soft_state n.raft) n.prev_soft ≡ true
    → should_stop n.raft ≡ false
    → m.type ≡ MessageType.msg_prop
    → m.term ≡ 0
    → (is_offered n (Event.proposes m) ≡ true)
      × (round n (Event.proposes m) ≡ panic Panic.no_leader)
proposal_panics n m on lost handler same member prop timeless =
    let calm : prepare n ≡ n = prepare-same n same in
    let member' : is_removed n.raft n.raft.id ≡ false = unfold should_stop in member in
    let stopped : handle n (Event.proposes m) ≡ panic Panic.no_leader =
      handle-lost n m
        (step-lost n.raft (record m { from = n.raft.id }) lost handler member' prop timeless) in
    (
      unfold is_offered in ap (λ k. k.proposals) calm ∙ on,
      unfold round in ap (λ k. handle k (Event.proposes m)) calm ∙ stopped,
    )
