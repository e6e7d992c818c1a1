-- ===== src/Raft/Evolution/Handlers.antt =====
-- raft/raft.go: the handlers of the three roles.
use etcd.Prelude.{
  inr, inl, Bool-cases, subst, ℕ, ◌+◌, ◌≤◌, ◌≡◌, refl, List, [], ◌∷◌, Option, arith, ok, true,
  false, Bool, if◌then◌else◌, ◌==◌, leb,
}
use etcd.Prelude.Map.{lookup, insert}
use etcd.Raft.Pb.{EntryType, Entry, Message, MessageType, Snapshot}
use etcd.Raft.Log
use etcd.Raft.Log.{RaftLog}
use etcd.Raft.Log.Bounds.{restore-IsWf}
use etcd.Raft.Log.Acceptance.{maybe_append-Extends}
use etcd.Raft.Log.Branches.{maybe_append_refused}
use etcd.Raft.Machine.{
  Raft, Progress, decr, update, bcast_append, or_nil, maybe_commit, append_entry,
}
use etcd.Raft.Step.{
  handle_append_entries, restore_nodes, set_progress, restore, handle_snapshot, propose,
  step_leader,
}
use etcd.Raft.Holds.{Holds-ok, Holds-panic, Holds-if, Holds-value}
use etcd.Raft.Evolution.{
  IsValid, Evolves, Evolves-refl, Evolves-trans, Evolves-same_log, Ensures, Ensures-from,
  Ensures-bind,
}
use etcd.Raft.Evolution.Logs.{Extends-LogEvolves, restore-LogEvolves}
use etcd.Raft.Evolution.Sending.{mailbox-Evolves, send_append-Ensures, bcast_append-Ensures}
use etcd.Raft.Evolution.Roles.{
  with_log-Evolves, NextPositive-insert, maybe_commit-Evolves, append_entry-Ensures,
}

appended-Evolves :
    (r : Raft) (i c : ℕ) (t : Option ℕ) (es : List Entry) (a : RaftLog × Bool)
    → IsValid r
    → Log.maybe_append r.raft_log i t c es ≡ ok a
    → Evolves r (record r { raft_log = a.0 })
appended-Evolves r i c t es (l, true) v h =
    let x = maybe_append-Extends r.raft_log l i c t es v.log h in
    with_log-Evolves r l r.prs v x.wf (Extends-LogEvolves x) v.next
appended-Evolves r i c t es (l, false) v h =
    subst (λ k. Evolves r (record r { raft_log = k }))
      ((maybe_append_refused r.raft_log l i c t es h).1) (Evolves-refl r v)

pub handle_append_entries-Ensures :
    (r : Raft) (m : Message) → IsValid r → Ensures r (handle_append_entries r m)
unfolding handle_append_entries
handle_append_entries-Ensures r m v =
    Holds-value (Log.maybe_append r.raft_log m.index m.log_term m.commit m.entries) _ λ a h.
      let e = appended-Evolves r m.index m.commit m.log_term m.entries a v h in
      Ensures-from e (Holds-ok (mailbox-Evolves _ _ e.valid))

restore_nodes-Evolves : (ns : List ℕ) (r : Raft) → IsValid r → Evolves r (restore_nodes r ns)
unfolding restore_nodes
restore_nodes-Evolves [] r v = Evolves-refl r v
restore_nodes-Evolves (n ∷ ns) r v =
    let last = Log.last_index r.raft_log in
    let s = set_progress r n (if n == r.id then last else 0) (last + 1) in
    let e : Evolves r s =
      Evolves-same_log v refl (omega arith) refl
        (NextPositive-insert n _ r.prs (omega arith) v.next) v.handler v.clock v.leads in
    Evolves-trans e (restore_nodes-Evolves ns s e.valid)

pub restore-Evolves : (r : Raft) (s : Snapshot) → IsValid r → Evolves r (restore r s).0
restore-Evolves r s v = elim (Bool-cases (leb s.index r.raft_log.committed)) [
  | inl old ↦ unfold restore in rw old (Evolves-refl r v)
  | inr new ↦
      let e =
        with_log-Evolves r (Log.restore r.raft_log s) [] v (restore-IsWf r.raft_log s)
          (restore-LogEvolves r.raft_log s v.log (ground arith)) tt in
      unfold restore in rw new (Evolves-trans e (restore_nodes-Evolves s.nodes _ e.valid))
]

pub handle_snapshot-Evolves : (r : Raft) (m : Message) → IsValid r → Evolves r (handle_snapshot r m)
unfolding handle_snapshot
handle_snapshot-Evolves r m v =
    let e = restore-Evolves r m.snapshot v in Evolves-trans e (mailbox-Evolves _ _ e.valid)

propose-Ensures : (r : Raft) (e : Entry) → IsValid r → Ensures r (propose r e)
unfolding propose
propose-Ensures r e v =
    Ensures-bind (append_entry r e) bcast_append (append_entry-Ensures r e v)
      λ s x. bcast_append-Ensures s x.valid

-- New progress of one member.
progress-Evolves :
    (r : Raft) (i : ℕ) (pr : Progress)
    → IsValid r
    → 1 ≤ pr.next
    → Evolves r (record r { prs = insert i pr r.prs })
progress-Evolves r i pr v h =
    Evolves-same_log v refl (omega arith) refl (NextPositive-insert i pr r.prs h v.next) v.handler
      v.clock v.leads

decr-positive : (pr : Progress) → 1 ≤ (decr pr).next
decr-positive pr = ground arith

pending_conf-Evolves : (r : Raft) (b : Bool) → IsValid r → Evolves r (record r { pending_conf = b })
pending_conf-Evolves r b v =
    Evolves-same_log v refl (omega arith) refl v.next v.handler v.clock v.leads

pub leader_proposal-Ensures :
    (r : Raft) (m : Message) (es : List Entry)
    → IsValid r
    → m.type ≡ MessageType.msg_prop
    → m.entries ≡ es
    → Ensures r (step_leader r m)
leader_proposal-Ensures r m [] v t h = unfold step_leader in rw (t, h) (Holds-panic r _)
leader_proposal-Ensures r m (e ∷ []) v t h = by_type e.type refl
  where
    by_type : (k : EntryType) → e.type ≡ k → Ensures r (step_leader r m)
    by_type EntryType.entry_normal k = unfold step_leader in rw (t, h, k) (propose-Ensures r e v)
    by_type EntryType.entry_conf_change k =
        let x = pending_conf-Evolves r true v in
        unfold step_leader in
        rw (t, h, k)
          (Holds-if r.pending_conf (Holds-ok (Evolves-refl r v))
            (Ensures-from x (propose-Ensures _ e x.valid)))
leader_proposal-Ensures r m (_ ∷ _ ∷ _) v t h = unfold step_leader in rw (t, h) (Holds-panic r _)

pub leader_response-Ensures :
    (r : Raft) (m : Message)
    → IsValid r
    → m.type ≡ MessageType.msg_app_resp
    → Ensures r (step_leader r m)
unfolding step_leader
leader_response-Ensures r m v t = rw t (
    Holds-value (or_nil (lookup m.from r.prs)) _ λ pr _.
      let back = progress-Evolves r m.from (decr pr) v (decr-positive pr) in
      let on = progress-Evolves r m.from (update m.index) v (omega arith) in
      Holds-if m.denied (Ensures-from back (send_append-Ensures _ m.from back.valid)) (
        Ensures-from on (
          Holds-value (maybe_commit _) _ λ a h.
            let c = maybe_commit-Evolves _ a.0 a.1 on.valid h in
            Ensures-from c (
              Holds-if a.1 (bcast_append-Ensures a.0 c.valid)
                (Holds-ok (Evolves-refl a.0 c.valid))))))
