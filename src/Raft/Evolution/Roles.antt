-- ===== src/Raft/Evolution/Roles.antt =====
-- raft/raft.go: `maybeCommit`, `appendEntry`, `reset` and the changes of role.
use etcd.Prelude.{
  subst, inr, inl, get_elem?, Option-cases, ℕ, ◌+◌, ◌-◌, ◌≤◌, ◌≡◌, refl, List, [], ◌∷◌, arith, ok,
  true, false, Bool, if◌then◌else◌, ◌==◌,
}
use etcd.Prelude.Map.{lookup, insert}
use etcd.Prelude.Sort.{sort_desc}
use etcd.Raft.Pb.{empty_entry, Entry}
use etcd.Raft.Log
use etcd.Raft.Log.{RaftLog}
use etcd.Raft.Log.Bounds.{IsWf, maybe_commit-IsWf}
use etcd.Raft.Machine.{
  Raft, Progress, state_leader, update, maybe_commit, append_entry, become_follower,
  become_candidate, become_leader, campaign, request_votes, poll, quorum, fresh_progress, or_nil,
  matches, scan_conf,
}
use etcd.Raft.Holds.{Holds-ok, Holds-if, Holds-value, Holds-not_leader, Holds-not_follower}
use etcd.Raft.Evolution.{
  IsValid, NextPositive, Evolves, Evolves-refl, Evolves-same_log, Ensures, Ensures-from,
  Ensures-bind, LogEvolves, step_of, tick_of,
}
use etcd.Raft.Evolution.Logs.{append_last-IsWf, append_last-LogEvolves, maybe_commit-LogEvolves}
use etcd.Raft.Evolution.Sending.{mailbox-Evolves, each_peer-Ensures}

pub NextPositive-insert :
    (i : ℕ) (pr : Progress) (prs : List (ℕ × Progress))
    → 1 ≤ pr.next
    → NextPositive prs
    → NextPositive (insert i pr prs)
unfolding insert
NextPositive-insert i pr [] h n = (h, tt)
NextPositive-insert i pr ((j, q) ∷ prs) h n = ground (arith, NextPositive-insert i pr prs h n.1)

pub NextPositive-fresh_progress :
    (id last : ℕ) (prs : List (ℕ × Progress)) → NextPositive (fresh_progress id last prs)
NextPositive-fresh_progress id last [] = tt
NextPositive-fresh_progress id last ((i, pr) ∷ prs) =
    (omega arith, NextPositive-fresh_progress id last prs)

-- A member with another log that has evolved from its own.
pub with_log-Evolves :
    (r : Raft) (l : RaftLog) (prs : List (ℕ × Progress))
    → IsValid r
    → IsWf l
    → LogEvolves r.raft_log l
    → NextPositive prs
    → Evolves r (record r { raft_log = l; prs = prs })
with_log-Evolves r l prs v w e n = record {
  valid = record { log = w; next = n; handler = v.handler; clock = v.clock; leads = v.leads };
  id = refl;
  term = omega arith;
  log = e;
}

pub maybe_commit-Evolves :
    (r s : Raft) (b : Bool) → IsValid r → maybe_commit r ≡ ok (s, b) → Evolves r s
unfolding maybe_commit
maybe_commit-Evolves r s b v h =
    elim (Option-cases (get_elem? (sort_desc (matches r.prs)) (quorum r - 1))) [
      | inl e ↦ absurd (ground (arith, e, h))
      | inr (m, e) ↦
          let same : record r { raft_log = (Log.maybe_commit r.raft_log m r.hard.term).0 } ≡ s =
            ground (arith, e, h) in
          subst (λ k. Evolves r k) same
            (with_log-Evolves r (Log.maybe_commit r.raft_log m r.hard.term).0 r.prs v
              (maybe_commit-IsWf r.raft_log m r.hard.term v.log)
              (maybe_commit-LogEvolves r.raft_log m r.hard.term) v.next)
    ]

pub append_entry-Ensures : (r : Raft) (e : Entry) → IsValid r → Ensures r (append_entry r e)
unfolding append_entry
append_entry-Ensures r e v = Holds-value (or_nil (lookup r.id r.prs)) _ λ _ _.
    let es = record e { term = r.hard.term; index = Log.last_index r.raft_log + 1 } ∷ [] in
    let l = (Log.append r.raft_log (Log.last_index r.raft_log) es).0 in
    let prs = insert r.id (update (Log.last_index l)) r.prs in
    let grown =
      with_log-Evolves r l prs v (append_last-IsWf r.raft_log es v.log)
        (append_last-LogEvolves r.raft_log es v.log)
        (NextPositive-insert r.id (update (Log.last_index l)) r.prs (omega arith) v.next) in
    Ensures-from grown (
      Holds-value (maybe_commit (record r { raft_log = l; prs = prs })) _
        λ a h. Holds-ok (maybe_commit-Evolves _ a.0 a.1 grown.valid h))

-- A state after `reset`, in a new role.
become-Evolves :
    (r s : Raft) (t : ℕ)
    → IsValid r
    → r.hard.term ≤ t
    → s.id ≡ r.id
    → s.hard.term ≡ t
    → s.raft_log ≡ r.raft_log
    → s.prs ≡ fresh_progress r.id (Log.last_index r.raft_log) r.prs
    → s.step ≡ step_of s.state
    → s.tick ≡ tick_of s.state
    → (s.state ≡ state_leader → s.lead ≡ s.id)
    → Evolves r s
become-Evolves r s t v h i e l p a b c =
    Evolves-same_log v i (omega (arith, e)) l
      (rw p (NextPositive-fresh_progress r.id (Log.last_index r.raft_log) r.prs)) a b c

pub become_follower-Evolves :
    (r : Raft) (t lead : ℕ) → IsValid r → r.hard.term ≤ t → Evolves r (become_follower r t lead)
unfolding become_follower
become_follower-Evolves r t lead v h =
    become-Evolves r _ t v h refl refl refl refl refl refl (λ e. cc)

pub become_candidate-Ensures : (r : Raft) → IsValid r → Ensures r (become_candidate r)
unfolding become_candidate
become_candidate-Ensures r v = Holds-not_leader r.state _ (
    Holds-ok (
      become-Evolves r _ (r.hard.term + 1) v (omega arith) refl refl refl refl refl refl (λ e. cc)))

pub become_leader-Ensures : (r : Raft) → IsValid r → Ensures r (become_leader r)
unfolding become_leader
become_leader-Ensures r v = Holds-not_follower r.state _ (
    Holds-value (Log.entries r.raft_log (r.raft_log.committed + 1)) _ λ es _.
      Holds-value (scan_conf false es) _ λ pending _.
        let elected : Evolves r _ =
          become-Evolves r _ r.hard.term v (omega arith) refl refl refl refl refl refl
            (λ e. refl) in
        Ensures-from elected (append_entry-Ensures _ empty_entry elected.valid))

pub poll-Evolves : (r : Raft) (i : ℕ) (b : Bool) → IsValid r → Evolves r (poll r i b).0
unfolding poll
poll-Evolves r i b v = Evolves-same_log v refl (omega arith) refl v.next v.handler v.clock v.leads

request_votes-Ensures : (s : Raft) → IsValid s → Ensures s (request_votes s)
unfolding request_votes
request_votes-Ensures s v =
    let t = (poll s s.id true).0 in
    let granted = (poll s s.id true).1 in
    let polled = poll-Evolves s s.id true v in
    Ensures-from polled (
      Ensures-bind (if quorum s == granted then become_leader t else ok t) _
        (Holds-if (quorum s == granted) (become_leader-Ensures t polled.valid)
          (Holds-ok (Evolves-refl t polled.valid)))
        λ u f. each_peer-Ensures _ (λ w i g. Holds-ok (mailbox-Evolves w _ g)) u u.prs f.valid)

pub campaign-Ensures : (r : Raft) → IsValid r → Ensures r (campaign r)
unfolding campaign
campaign-Ensures r v =
    Ensures-bind (become_candidate r) request_votes (become_candidate-Ensures r v)
      λ s e. request_votes-Ensures s e.valid
