-- ===== src/Raft/Votes.antt =====
-- raft/raft.go: who gets a member's vote, and who becomes leader.
use etcd.Prelude.{
  ◌+◌, ◌≡◌, refl, ap, ◌∙◌, Result, ok, true, false, if◌then◌else◌, ◌==◌, ◌>>=◌, >>=-eq-ok, not,
}
use etcd.Raft.Pb.{Message, MessageType, empty_entry}
use etcd.Raft.Log
use etcd.Raft.Machine.{
  request_votes, Raft, state_leader, poll, quorum, become_candidate, become_leader, campaign,
  vote_request, scan_conf,
}
use etcd.Raft.Holds.{
  Holds, Holds-ok, Holds-if, Holds-value, Holds-bind, Holds-from, Holds-not_follower,
  Holds-not_leader,
}
use etcd.Raft.Frame.{Frame, send-Frame, append_entry-Frame, each_peer-Frame}

abbrev SameTerm : Raft → Raft → Type 0
SameTerm r s = s.hard.term ≡ r.hard.term

SameTerm-trans : (r s t : Raft) → SameTerm r s → SameTerm s t → SameTerm r t
SameTerm-trans r s t p q = q ∙ p

Holds-SameTerm : {r : Raft} {m : Result Raft} → Holds Frame r m → Holds SameTerm r m
Holds-SameTerm p = record { at = λ s h. ap (λ k. k.term) (p.at s h).hard }

become_leader-SameTerm : (r : Raft) → Holds SameTerm r (become_leader r)
unfolding become_leader
become_leader-SameTerm r = Holds-not_follower r.state _ (
    Holds-value (Log.entries r.raft_log (r.raft_log.committed + 1)) _ λ es _.
      Holds-value (scan_conf false es) _ λ pending _.
        Holds-from SameTerm-trans refl (Holds-SameTerm (append_entry-Frame _ empty_entry)))

request_votes-SameTerm : (s : Raft) → Holds SameTerm s (request_votes s)
unfolding request_votes
request_votes-SameTerm s =
    let t = (poll s s.id true).0 in
    let granted = (poll s s.id true).1 in
    Holds-from SameTerm-trans {s = t} refl (
      Holds-bind SameTerm-trans (if quorum s == granted then become_leader t else ok t) _
        (Holds-if (quorum s == granted) (become_leader-SameTerm t) (Holds-ok refl))
        λ u _.
          Holds-SameTerm
            (each_peer-Frame _ (λ w i. Holds-ok (send-Frame w (vote_request w i))) u.prs u))

abbrev NextTerm : Raft → Raft → Type 0
NextTerm r s = s.hard.term ≡ r.hard.term + 1

become_candidate-NextTerm : (r : Raft) → Holds NextTerm r (become_candidate r)
unfolding become_candidate
become_candidate-NextTerm r = Holds-not_leader r.state _ (Holds-ok refl)

-- A campaign that does not panic ends in the next term.
pub campaign_raises : (r s : Raft) → campaign r ≡ ok s → s.hard.term ≡ r.hard.term + 1
campaign_raises r s h =
    let h' : (do c ← become_candidate r; request_votes c) ≡ ok s = unfold campaign in h in
    let (c, e, rest) = >>=-eq-ok (become_candidate r) request_votes h' in
    (request_votes-SameTerm c).at s rest ∙ (become_candidate-NextTerm r).at c e

-- A candidate that is leader afterwards got a vote that makes the granted ones a majority.
record Elected (m : Message) (r s : Raft) : Type 0 where
  by_vote :
      s.state ≡ state_leader
      → (m.type ≡ MessageType.msg_vote_resp) × ((poll r m.from (not m.denied)).1 ≡ quorum r)

module _ {R : Raft → Raft → Type 0} where
  -- The cases of `stepCandidate`.
  pub Holds-candidate :
      {r : Raft} (t : MessageType) {prop app snap vote resp other : Result Raft}
      → Holds R r prop
      → Holds R r app
      → (t ≡ MessageType.msg_snap → Holds R r snap)
      → Holds R r vote
      → (t ≡ MessageType.msg_vote_resp → Holds R r resp)
      → Holds R r other
      → Holds R r (elim t [
        | MessageType.msg_prop ↦ prop
        | MessageType.msg_app ↦ app
        | MessageType.msg_snap ↦ snap
        | MessageType.msg_vote ↦ vote
        | MessageType.msg_vote_resp ↦ resp
        | _ ↦ other
      ])
  Holds-candidate MessageType.msg_prop a b c d e f = a
  Holds-candidate MessageType.msg_app a b c d e f = b
  Holds-candidate MessageType.msg_snap a b c d e f = c refl
  Holds-candidate MessageType.msg_vote a b c d e f = d
  Holds-candidate MessageType.msg_vote_resp a b c d e f = e refl
  Holds-candidate _ a b c d e f = f
