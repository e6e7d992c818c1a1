-- ===== src/Raft/Node/Run.antt =====
-- raft/node.go: any sequence of rounds of the loop, from a member that has just started.
use etcd.Prelude.{
  none, some, Panic, sym, ℕ, ◌≡◌, ◌≢◌, refl, List, [], arith, Result, ok, panic, true, ◌>>=◌, subst,
}
use etcd.Raft.Pb.{ConfChangeType}
use etcd.Raft.Log
use etcd.Raft.Log.Bounds.{IsWf, compact-IsWf, new_log-IsWf}
use etcd.Raft.Machine.{Raft, become_follower}
use etcd.Raft.Member.{step, run_tick, compact, nodes, new_raft, initial_raft}
use etcd.Raft.Node.{Loop, Event, prepare, is_offered, handle, round, delivered, apply_conf_change}
use etcd.Raft.Holds.{Holds-value, Holds-ok}
use etcd.Raft.Evolution.{IsValid, Evolves, Evolves-refl, Evolves-trans, Ensures, LogEvolves-trans}
use etcd.Raft.Evolution.Logs.{
  snap-LogEvolves, compact-LogEvolves, delivered-IsWf, delivered-LogEvolves,
}
use etcd.Raft.Evolution.Roles.{with_log-Evolves, NextPositive-fresh_progress}
use etcd.Raft.Evolution.Sending.{mailbox-Evolves}
use etcd.Raft.Evolution.Steps.{
  IsTimed, step-Ensures, run_tick-Ensures, add_node-Evolves, remove_node-Evolves,
}

compact-Ensures : (r : Raft) (d : List ℕ) → IsValid r → Ensures r (compact r d)
unfolding compact
compact-Ensures r d v =
    Holds-value
      (elim (Log.term r.raft_log r.raft_log.applied) [
        | none ↦ panic Panic.index_out_of_range
        | some t ↦ ok t
      ])
      _
      λ t _.
        let l = r.raft_log in
        let snapped = Log.snap l d l.applied t (nodes r.prs) in
        let w : IsWf snapped = unfold Log.snap in omega arith in
        Holds-value (Log.compact snapped l.applied) _ λ a h. Holds-ok (
          with_log-Evolves r a.0 r.prs v (compact-IsWf snapped a.0 l.applied a.1 w h)
            (LogEvolves-trans (snap-LogEvolves l d l.applied t (nodes r.prs))
              (compact-LogEvolves snapped a.0 l.applied a.1 w h))
            v.next)

-- A member whose id is not 0 starts, and starts valid, with whatever peers and timeouts.
pub new_raft-IsValid :
    (id : ℕ) (peers : List ℕ) (election heartbeat : ℕ)
    → id ≢ 0
    → (r : Raft) × (new_raft id peers election heartbeat ≡ ok r) × IsValid r
new_raft-IsValid id peers election heartbeat h = (
  become_follower (initial_raft id peers election heartbeat) 0 0,
  unfold new_raft in ground (arith, h),
  unfold become_follower initial_raft in
      record {
        log = new_log-IsWf;
        next = NextPositive-fresh_progress _ _ _;
        handler = refl;
        clock = refl;
        leads = λ e. cc;
      },
)

delivered-Evolves : (r : Raft) → IsValid r → Evolves r (delivered r)
unfolding delivered
delivered-Evolves r v =
    let e =
      with_log-Evolves r _ r.prs v (delivered-IsWf r.raft_log v.log)
        (delivered-LogEvolves r.raft_log v.log) v.next in
    Evolves-trans e (mailbox-Evolves _ [] e.valid)

apply_conf_change-Evolves :
    (r : Raft) (t : ConfChangeType) (id : ℕ) → IsValid r → Evolves r (apply_conf_change r t id)
apply_conf_change-Evolves r ConfChangeType.conf_change_add_node id v = add_node-Evolves r id v
apply_conf_change-Evolves r ConfChangeType.conf_change_remove_node id v = remove_node-Evolves r id v

-- The messages that reach a member from outside carry a term if they carry a snapshot.
abbrev pub IsTimedEvent : Event → Type 0
IsTimedEvent (Event.proposes m) = IsTimed m
IsTimedEvent (Event.receives m) = IsTimed m
IsTimedEvent _ = Unit {0}

raft-prepare : (n : Loop) → (prepare n).raft ≡ n.raft
unfolding prepare
raft-prepare n = ground arith

-- A case of the `select` that puts the result of one call into the loop's state.
call-Evolves :
    (n n' : Loop) (m : Result Raft)
    → Ensures n.raft m
    → (do r ← m; ok (record n { raft = r })) ≡ ok n'
    → Evolves n.raft n'.raft
call-Evolves n n' (ok r) p h =
    let e : r ≡ n'.raft = ground (arith, h) in subst (λ s. Evolves n.raft s) e (p.at r refl)
call-Evolves n n' (panic x) p h = cc

handle-Evolves :
    (n n' : Loop) (e : Event)
    → IsValid n.raft
    → IsTimedEvent e
    → handle n e ≡ ok n'
    → Evolves n.raft n'.raft
handle-Evolves n n' (Event.proposes m) v t h =
    call-Evolves n n' (step n.raft (record m { from = n.raft.id })) (step-Ensures n.raft _ v t)
      (unfold handle in h)
handle-Evolves n n' (Event.receives m) v t h =
    call-Evolves n n' (step n.raft m) (step-Ensures n.raft m v t) (unfold handle in h)
handle-Evolves n n' (Event.compacts d) v t h =
    call-Evolves n n' (compact n.raft d) (compact-Ensures n.raft d v) (unfold handle in h)
handle-Evolves n n' (Event.conf_changes c id) v t h =
    call-Evolves n n' (ok (apply_conf_change n.raft c id))
      (Holds-ok (apply_conf_change-Evolves n.raft c id v)) (unfold handle in h)
handle-Evolves n n' Event.ticks v t h =
    call-Evolves n n' (run_tick n.raft) (run_tick-Ensures n.raft v) (unfold handle in h)
handle-Evolves n n' Event.takes_ready v t h =
    let e : delivered n.raft ≡ n'.raft = unfold handle in ground (arith, h) in
    subst (λ s. Evolves n.raft s) e (delivered-Evolves n.raft v)

-- The loop's runs: rounds whose event is offered and that do not panic.
pub data Runs (n : Loop) : Loop → Type 0 where
  here : Runs n n
  next :
      {m k : Loop} (e : Event)
      → Runs n m
      → is_offered m e ≡ true
      → IsTimedEvent e
      → round m e ≡ ok k
      → Runs n k

-- Whatever proposals, messages, ticks, membership changes, compactions and deliveries the loop
-- handles, in whatever order, as long as none panics and each message with a snapshot has a term: a
-- valid member stays valid and keeps its id, its term, commit index, offset and applied index do not
-- fall, and no entry that was once committed changes as long as the log holds it.
pub Runs-Evolves : {n m : Loop} → IsValid n.raft → Runs n m → Evolves n.raft m.raft
Runs-Evolves {n} v here = Evolves-refl n.raft v
Runs-Evolves {n} v (next {m} {k} e r _ t h) =
    let before = Runs-Evolves v r in
    Evolves-trans before (
      subst (λ s. Evolves s k.raft) (raft-prepare m)
        (handle-Evolves (prepare m) k e (subst IsValid (sym (raft-prepare m)) before.valid) t
          (unfold round in h)))
