-- ===== src/Raft/Relapse.antt =====
-- raft/raft.go: a candidate that becomes a follower in its own term.
use etcd.Prelude.{
  ◌+◌, ℕ, ◌≡◌, ◌≢◌, refl, sym, ap, ◌∙◌, some, ok, false, inl, inr, ◌>>=◌, >>=-eq-ok, not,
}
use etcd.Raft.Pb.{Message, MessageType, empty_entry}
use etcd.Raft.Log
use etcd.Raft.Log.Bounds.{IsWf}
use etcd.Raft.Log.Recency.{AtLeast}
use etcd.Raft.Machine.{
  Raft, StateType, state_follower, state_candidate, state_leader, poll, become_leader,
  become_follower, bcast_append, scan_conf,
}
use etcd.Raft.Step.{step_candidate, answer_vote}
use etcd.Raft.Holds.{Holds, Holds-ok, Holds-if, Holds-value, Holds-panic, Holds-not_follower}
use etcd.Raft.Frame.{
  Frame-refl, Frame, append_entry-Frame, handle_append_entries-Frame, bcast_append-Frame,
}
use etcd.Raft.Votes.{Holds-candidate}
use etcd.Raft.Follower.{granted, answer_vote_exact}

-- Who steps back forgets the vote and keeps the term.
record StepsBack (r s : Raft) : Type 0 where
  forgets : s.state ≡ state_follower → (s.hard.vote ≡ 0) × (s.hard.term ≡ r.hard.term)

stays-StepsBack : (r s : Raft) (st : StateType) → st ≢ state_follower → s.state ≡ st → StepsBack r s
stays-StepsBack r s st n e = record { forgets = λ f. absurd (n (sym e ∙ f)) }

become_leader-leads : (r : Raft) → Holds (λ _ t. t.state ≡ state_leader) r (become_leader r)
unfolding become_leader
become_leader-leads r = Holds-not_follower r.state _ (
    Holds-value (Log.entries r.raft_log (r.raft_log.committed + 1)) _ λ es _.
      Holds-value (scan_conf false es) _
        λ pending _. record { at = λ t e. ((append_entry-Frame _ empty_entry).at t e).state })

won-StepsBack : (r s : Raft) → Holds StepsBack r (do t ← become_leader s; bcast_append t)
won-StepsBack r s = record {
  at = λ u h.
      let (t, e, rest) = >>=-eq-ok (become_leader s) bcast_append h in
      stays-StepsBack r u state_leader (λ e. cc)
        (((bcast_append-Frame t).at u rest).state ∙ (become_leader-leads s).at t e);
}

back-StepsBack :
    (r t s : Raft) (lead : ℕ)
    → t.hard.term ≡ r.hard.term
    → Frame (become_follower t t.hard.term lead) s
    → StepsBack r s
unfolding become_follower
back-StepsBack r t s lead e f = record {
  forgets = λ _. (ap (λ k. k.vote) f.hard, ap (λ k. k.term) f.hard ∙ e);
}

candidate-StepsBack :
    (r : Raft) (m : Message)
    → r.state ≡ state_candidate
    → m.type ≢ MessageType.msg_snap
    → Holds StepsBack r (step_candidate r m)
unfolding step_candidate
candidate-StepsBack r m c no_snap =
    let stays : (s : Raft) → s.state ≡ state_candidate → StepsBack r s =
      λ s e. stays-StepsBack r s state_candidate (λ e. cc) e in
    Holds-candidate m.type (Holds-panic r _)
      (record {
        at = λ s h.
            back-StepsBack r r s m.from refl
              ((handle_append_entries-Frame (become_follower r r.hard.term m.from) m).at s h);
      })
      (λ e. absurd (no_snap e)) (Holds-ok (stays _ c))
      (λ _.
        let s = (poll r m.from (not m.denied)).0 in
        Holds-if _ (won-StepsBack r s) (
          Holds-if _
            (Holds-ok (back-StepsBack r s (become_follower s s.hard.term 0) 0 refl (Frame-refl _)))
            (Holds-ok (stays s c))))
      (Holds-ok (stays r c))

-- A candidate that becomes a follower with a well-formed log, other than by a snapshot, does so in its own term and forgets
-- the vote that it gave itself in that term: it then grants a request for its vote, in that term, by
-- any candidate whose last index and term are at least as recent as its own.
pub vote_forgotten :
    (r s : Raft) (m request : Message) (t u : ℕ)
    → r.state ≡ state_candidate
    → m.type ≢ MessageType.msg_snap
    → step_candidate r m ≡ ok s
    → s.state ≡ state_follower
    → IsWf s.raft_log
    → request.log_term ≡ some t
    → Log.term s.raft_log (Log.last_index s.raft_log) ≡ some u
    → AtLeast request.index t (Log.last_index s.raft_log) u
    → (s.hard.term ≡ r.hard.term) × (answer_vote s request ≡ ok (granted s request))
vote_forgotten r s m request t u c no_snap h f w e last recent =
    let (forgot, same) = ((candidate-StepsBack r m c no_snap).at s h).forgets f in
    let (v, last', outcome) = answer_vote_exact s request t w e in
    let same_last : v ≡ u = cc (last, last') in
    (
      same,
      elim outcome [
        | inl (given, _, _) ↦ given
        | inr (_, inl (voted, _)) ↦ absurd (voted forgot)
        | inr (_, inr older) ↦ absurd (older (rw same_last recent))
      ],
    )
