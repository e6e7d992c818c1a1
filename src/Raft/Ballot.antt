-- ===== src/Raft/Ballot.antt =====
-- raft/raft.go: `Step` on a follower that has given its vote.
use etcd.Prelude.{
  if◌then◌else◌, ap, >>=-eq-ok, ◌>>=◌, ltb, ◌<◌, ◌≡◌, ◌≢◌, refl, arith, Result, ok, ◌==◌, ◌||◌, inl,
  inr, Bool-cases,
}
use etcd.Raft.Pb.{Message, MessageType}
use etcd.Raft.Log
use etcd.Raft.Machine.{Raft, state_follower, become_follower, campaign, is_removed}
use etcd.Raft.Step.{step_follower, answer_vote, run_step}
use etcd.Raft.Holds.{
  Holds, Holds-ok, Holds-if, Holds-value, Holds-panic, Holds-choice, Holds-handler,
}
use native.Mathlib.Nat.{le_refl}
use etcd.Raft.Evolution.{IsValid, step_of}
use etcd.Raft.Evolution.Roles.{campaign-Ensures, become_follower-Evolves}
use etcd.Raft.Evolution.Dispatch.{run_step-Ensures}
use etcd.Raft.Evolution.Steps.{IsTimed, step_term-Ensures}
use etcd.Raft.Member.{step, step_body, step_term, record_commit, is_hup, is_vote, is_denied}
use etcd.Raft.Votes.{campaign_raises}
use etcd.Raft.Frame.{Frame, handle_append_entries-Frame, handle_snapshot-Frame}

-- The term and the vote stay.
abbrev SameHard : Raft → Raft → Type 0
SameHard r s = s.hard ≡ r.hard

Holds-SameHard : {r : Raft} {m : Result Raft} → Holds Frame r m → Holds SameHard r m
Holds-SameHard p = record { at = λ s h. (p.at s h).hard }

answer_vote-SameHard :
    (r : Raft) (m : Message) → r.hard.vote ≢ 0 → Holds SameHard r (answer_vote r m)
unfolding answer_vote
answer_vote-SameHard r m voted = elim (Bool-cases (r.hard.vote == 0 || r.hard.vote == m.from)) [
  | inl free ↦ simp free (
      Holds-value (Log.is_up_to_date r.raft_log m.index m.log_term) _
        λ b _. Holds-choice _ _ b (ground (arith, free)) refl)
  | inr bound ↦ simp bound (Holds-ok refl)
]

module _ {R : Raft → Raft → Type 0} where
  -- The cases of `stepFollower`.
  Holds-follower :
      {r : Raft} (t : MessageType) {prop app snap vote other : Result Raft}
      → Holds R r prop
      → Holds R r app
      → Holds R r snap
      → Holds R r vote
      → Holds R r other
      → Holds R r (elim t [
        | MessageType.msg_prop ↦ prop
        | MessageType.msg_app ↦ app
        | MessageType.msg_snap ↦ snap
        | MessageType.msg_vote ↦ vote
        | _ ↦ other
      ])
  Holds-follower MessageType.msg_prop a b c d e = a
  Holds-follower MessageType.msg_app a b c d e = b
  Holds-follower MessageType.msg_snap a b c d e = c
  Holds-follower MessageType.msg_vote a b c d e = d
  Holds-follower _ a b c d e = e

step_follower-SameHard :
    (r : Raft) (m : Message) → r.hard.vote ≢ 0 → Holds SameHard r (step_follower r m)
unfolding step_follower
step_follower-SameHard r m voted =
    Holds-follower m.type (Holds-if (r.lead == 0) (Holds-panic r _) (Holds-ok refl))
      (record { at = λ s h. ((handle_append_entries-Frame _ m).at s h).hard })
      (Holds-ok (handle_snapshot-Frame _ m).hard) (answer_vote-SameHard r m voted) (Holds-ok refl)

-- The vote as long as the term lasts.
record KeepsVote (r s : Raft) : Type 0 where
  vote : s.hard.term ≡ r.hard.term → s.hard.vote ≡ r.hard.vote

SameHard-KeepsVote : {r : Raft} {m : Result Raft} → Holds SameHard r m → Holds KeepsVote r m
SameHard-KeepsVote p = record { at = λ s h. record { vote = λ _. ap (λ k. k.vote) (p.at s h) } }

-- Code that ends in a later term.
later-KeepsVote :
    {r : Raft} {m : Result Raft}
    → ((s : Raft) → m ≡ ok s → r.hard.term < s.hard.term)
    → Holds KeepsVote r m
later-KeepsVote h = record {
  at = λ s e. record { vote = λ same. absurd (omega (arith, h s e, same)) };
}

module _ (r : Raft) (v : IsValid r) (f : r.state ≡ state_follower) (voted : r.hard.vote ≢ 0) where
  run_step-KeepsVote : (m : Message) → Holds KeepsVote r (run_step r m)
  unfolding run_step
  run_step-KeepsVote m =
      Holds-handler r.step (λ e. absurd (cc (e, v.handler, ap step_of f)))
        (λ e. absurd (cc (e, v.handler, ap step_of f)))
        (λ _. SameHard-KeepsVote (step_follower-SameHard r m voted))

  step_term-KeepsVote : (m : Message) → IsTimed m → Holds KeepsVote r (step_term r m)
  step_term-KeepsVote m timed = elim (Bool-cases (m.term == 0)) [
    | inl z ↦ unfold step_term in simp z (run_step-KeepsVote m)
    | inr dated ↦ elim (Bool-cases (ltb r.hard.term m.term)) [
      | inl newer ↦
          let lead = if is_vote m.type then 0 else m.from in
          let back = become_follower-Evolves r m.term lead v (ground arith) in
          unfold step_term in
          simp (dated, newer)
            (later-KeepsVote λ s h.
              let e =
                (run_step-Ensures (become_follower r m.term lead) m back.valid
                    (λ _. unfold become_follower in le_refl m.term)).at
                  s h in
              unfold become_follower in ground (arith, newer, e.term))
      | inr not_newer ↦
          unfold step_term in
          simp (dated, not_newer)
            (Holds-if (ltb m.term r.hard.term) (Holds-ok (record { vote = λ _. refl }))
              (run_step-KeepsVote m))
    ]
  ]

  step_body-KeepsVote : (m : Message) → IsTimed m → Holds KeepsVote r (step_body r m)
  unfolding step_body
  step_body-KeepsVote m timed =
      Holds-if (is_removed r m.from)
        (Holds-choice _ _ (m.from == r.id) (record { vote = λ _. refl })
          (record { vote = λ _. refl }))
        (Holds-if (is_denied m.type) (Holds-ok (record { vote = λ _. refl }))
          (elim (Bool-cases (is_hup m.type)) [
            | inl hup ↦ simp hup (
                later-KeepsVote λ s h.
                  let (c, e, rest) = >>=-eq-ok (campaign r) (λ c. step_term c m) h in
                  let c_valid = ((campaign-Ensures r v).at c e).valid in
                  omega (
                    arith,
                    campaign_raises r c e,
                    ((step_term-Ensures c m c_valid timed).at s rest).term,
                  ))
            | inr other ↦ simp other (step_term-KeepsVote m timed)
          ]))

-- A valid follower that has given its vote keeps it: after any message that does not panic, and that
-- has a term if it has a snapshot, if the term is still the same then so is the vote.
pub vote_once :
    (r s : Raft) (m : Message)
    → IsValid r
    → r.state ≡ state_follower
    → r.hard.vote ≢ 0
    → IsTimed m
    → step r m ≡ ok s
    → s.hard.term ≡ r.hard.term
    → s.hard.vote ≡ r.hard.vote
vote_once r s m v f voted timed h =
    let h' : (do b ← step_body r m; ok (record_commit b)) ≡ ok s = unfold step in h in
    let (b, e, rest) = >>=-eq-ok (step_body r m) (λ b. ok (record_commit b)) h' in
    let keeps = ((step_body-KeepsVote r v f voted m timed).at b e).vote in
    λ same. ground (arith, rest, same, keeps)
