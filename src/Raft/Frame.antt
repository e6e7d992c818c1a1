-- ===== src/Raft/Frame.antt =====
-- raft/raft.go: the operations that leave the term, the vote, the role and the votes alone.
use etcd.Prelude.{
  ◌+◌, subst, arith, inr, inl, leb, Option-cases, Bool-cases, ℕ, ◌-◌, ◌≡◌, refl, ◌∙◌, List, [], ◌∷◌,
  Result, ok, Bool, if◌then◌else◌, ◌==◌, get_elem?,
}
use etcd.Prelude.Map.{lookup}
use etcd.Prelude.Sort.{sort_desc}
use etcd.Raft.Pb.{Entry, Message, Snapshot}
use etcd.Raft.Log
use etcd.Raft.Machine.{
  Raft, Progress, send, send_append, each_peer, bcast_append, maybe_commit, append_entry, or_nil,
  need_snapshot, matches, quorum,
}
use etcd.Raft.Step.{handle_append_entries, handle_snapshot, restore, restore_nodes, set_progress}
use etcd.Raft.Holds.{Holds, Holds-ok, Holds-if, Holds-value, Holds-bind}

pub record Frame (r s : Raft) : Type 0 where
  pub hard : s.hard ≡ r.hard
  pub state : s.state ≡ r.state
  pub votes : s.votes ≡ r.votes
  pub lead : s.lead ≡ r.lead
  pub id : s.id ≡ r.id

pub Frame-refl : (r : Raft) → Frame r r
Frame-refl r = record { hard = refl; state = refl; votes = refl; lead = refl; id = refl }

pub Frame-trans : (r s t : Raft) → Frame r s → Frame s t → Frame r t
Frame-trans r s t p q = record {
  hard = q.hard ∙ p.hard;
  state = q.state ∙ p.state;
  votes = q.votes ∙ p.votes;
  lead = q.lead ∙ p.lead;
  id = q.id ∙ p.id;
}

pub send-Frame : (r : Raft) (m : Message) → Frame r (send r m)
unfolding send
send-Frame r m = record { hard = refl; state = refl; votes = refl; lead = refl; id = refl }

mailbox-Frame : (r : Raft) (ms : List Message) → Frame r (record r { msgs = ms })
mailbox-Frame r ms = record { hard = refl; state = refl; votes = refl; lead = refl; id = refl }

pub send_append-Frame : (r : Raft) (to : ℕ) → Holds Frame r (send_append r to)
unfolding send_append
send_append-Frame r to = Holds-value (or_nil (lookup to r.prs)) _ λ pr _.
    Holds-value (need_snapshot r (pr.next - 1)) _ λ snap _.
      Holds-if snap (Holds-ok (mailbox-Frame r _))
        (Holds-value (Log.entries r.raft_log pr.next) _ λ es _. Holds-ok (mailbox-Frame r _))

pub each_peer-Frame :
    (f : Raft → ℕ → Result Raft)
    → ((s : Raft) (i : ℕ) → Holds Frame s (f s i))
    → (prs : List (ℕ × Progress)) (r : Raft) → Holds Frame r (each_peer f r prs)
unfolding each_peer
each_peer-Frame f frame [] r = Holds-ok (Frame-refl r)
each_peer-Frame f frame ((i, _) ∷ prs) r =
    Holds-bind Frame-trans (if i == r.id then ok r else f r i) (λ s. each_peer f s prs)
      (Holds-if (i == r.id) (Holds-ok (Frame-refl r)) (frame r i))
      λ s _. each_peer-Frame f frame prs s

pub bcast_append-Frame : (r : Raft) → Holds Frame r (bcast_append r)
unfolding bcast_append
bcast_append-Frame r = each_peer-Frame send_append send_append-Frame r.prs r

pub maybe_commit-Frame : (r : Raft) (a : Raft × Bool) → maybe_commit r ≡ ok a → Frame r a.0
unfolding maybe_commit
maybe_commit-Frame r a h =
    elim (Option-cases (get_elem? (sort_desc (matches r.prs)) (quorum r - 1))) [
      | inl e ↦ absurd (ground (arith, e, h))
      | inr (m, e) ↦
          let same : record r { raft_log = (Log.maybe_commit r.raft_log m r.hard.term).0 } ≡ a.0 =
            ground (arith, e, h) in
          subst (λ k. Frame r k) same
            (record { hard = refl; state = refl; votes = refl; lead = refl; id = refl })
    ]

pub append_entry-Frame : (r : Raft) (e : Entry) → Holds Frame r (append_entry r e)
unfolding append_entry
append_entry-Frame r e = Holds-value (or_nil (lookup r.id r.prs)) _ λ _ _.
    Holds-value (maybe_commit _) _ λ a h. Holds-ok (
      let f = maybe_commit-Frame _ a h in
      record { hard = f.hard; state = f.state; votes = f.votes; lead = f.lead; id = f.id })

pub handle_append_entries-Frame :
    (r : Raft) (m : Message) → Holds Frame r (handle_append_entries r m)
unfolding handle_append_entries
handle_append_entries-Frame r m =
    Holds-value (Log.maybe_append r.raft_log m.index m.log_term m.commit m.entries) _
      λ a _. Holds-ok (record { hard = refl; state = refl; votes = refl; lead = refl; id = refl })

restore_nodes-Frame : (ns : List ℕ) (r : Raft) → Frame r (restore_nodes r ns)
unfolding restore_nodes
restore_nodes-Frame [] r = Frame-refl r
restore_nodes-Frame (n ∷ ns) r =
    let last = Log.last_index r.raft_log in
    let s = set_progress r n (if n == r.id then last else 0) (last + 1) in
    let step : Frame r s = record {
      hard = refl;
      state = refl;
      votes = refl;
      lead = refl;
      id = refl;
    } in
    Frame-trans r s _ step (restore_nodes-Frame ns s)

restore-Frame : (r : Raft) (s : Snapshot) → Frame r (restore r s).0
restore-Frame r s = elim (Bool-cases (leb s.index r.raft_log.committed)) [
  | inl old ↦ unfold restore in rw old (Frame-refl r)
  | inr new ↦
      let emptied : Raft = record r { raft_log = Log.restore r.raft_log s; prs = [] } in
      let step : Frame r emptied = record {
        hard = refl;
        state = refl;
        votes = refl;
        lead = refl;
        id = refl;
      } in
      unfold restore in rw new (Frame-trans r emptied _ step (restore_nodes-Frame s.nodes emptied))
]

pub handle_snapshot-Frame : (r : Raft) (m : Message) → Frame r (handle_snapshot r m)
unfolding handle_snapshot
handle_snapshot-Frame r m =
    Frame-trans r (restore r m.snapshot).0 _ (restore-Frame r m.snapshot) (mailbox-Frame _ _)
