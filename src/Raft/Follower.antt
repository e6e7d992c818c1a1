-- ===== src/Raft/Follower.antt =====
-- raft/raft.go: what a follower answers to a candidate and to a heartbeat.
use etcd.Prelude.{
  [], ◌∷◌, ◌++◌, ℕ, ◌≡◌, ◌≢◌, refl, some, arith, ok, true, ◌==◌, ◌||◌, ◌⊎◌, inl, inr, Bool-cases,
}
use etcd.Raft.Pb.{Message, msg_app, msg_app_resp, msg_vote_resp, empty_message}
use etcd.Raft.Log
use etcd.Raft.Log.Bounds.{IsWf}
use etcd.Raft.Log.Branches.{maybe_append_empty}
use etcd.Raft.Log.Recency.{AtLeast, is_up_to_date_exact}
use etcd.Raft.Machine.{Raft, send, send_heartbeat}
use etcd.Raft.Step.{step_follower, answer_vote}

-- The two answers of a follower to a request for its vote.
abbrev pub granted : Raft → Message → Raft
granted r m =
    send (record r { elapsed = 0; hard = record r.hard { vote = m.from } })
      (empty_message msg_vote_resp m.from)

abbrev pub refused : Raft → Message → Raft
refused r m = send r (record (empty_message msg_vote_resp m.from) { denied = true })

-- A member with a well-formed log answers each request for its vote that names a last term. It gives the vote, and records
-- it, when it has not voted for another and the candidate's last index and term are at least as
-- recent as its own; it refuses, and changes nothing but its mailbox, when it has voted for another
-- or its own log is more recent.
pub answer_vote_exact :
    (r : Raft) (m : Message) (t : ℕ)
    → IsWf r.raft_log
    → m.log_term ≡ some t
    → (s : ℕ) × (Log.term r.raft_log (Log.last_index r.raft_log) ≡ some s)
      × ((answer_vote r m ≡ ok (granted r m))
            × ((r.hard.vote ≡ 0) ⊎ (r.hard.vote ≡ m.from))
            × AtLeast m.index t (Log.last_index r.raft_log) s
          ⊎ (answer_vote r m ≡ ok (refused r m))
            × ((r.hard.vote ≢ 0) × (r.hard.vote ≢ m.from)
                ⊎ ¬ AtLeast m.index t (Log.last_index r.raft_log) s))
answer_vote_exact r m t w e =
    let (s, b, last, asked, iff) = is_up_to_date_exact r.raft_log m.index t w in
    let asked' : Log.is_up_to_date r.raft_log m.index m.log_term ≡ ok b = rw e asked in
    (
      s,
      last,
      elim (Bool-cases (r.hard.vote == 0 || r.hard.vote == m.from)) [
        | inl free ↦ elim (Bool-cases b) [
          | inl new ↦
              inl (
                unfold answer_vote in simp (free, asked', new) refl,
                ground (arith, free),
                iff.0 new,
              )
          | inr old ↦ inr (
            unfold answer_vote in simp (free, asked', old) refl,
            inr (λ h. let y = iff.1 h in cc (y, old)),
          )
        ]
        | inr bound ↦ inr (
          unfold answer_vote in simp bound refl,
          inl (λ h. ground (arith, bound, h), λ h. ground (arith, bound, h)),
        )
      ],
    )

-- The heartbeat that `sendHeartbeat` puts into a leader's mailbox for a member is acknowledged by this
-- member as a follower whose log still has an entry of index 0 and term 0: it answers with its own
-- last index, whatever entries it holds, and its log is unchanged.
pub heartbeat_vouches :
    (f leader : Raft)
    → Log.term f.raft_log 0 ≡ some 0
    → (m : Message) × ((send_heartbeat leader f.id).msgs ≡ leader.msgs ++ m ∷ [])
      × (step_follower f m
          ≡ ok (
              send
                (record f { elapsed = 0; lead = leader.id })
                (record (empty_message msg_app_resp leader.id) {
                  index = Log.last_index f.raft_log;
                })))
heartbeat_vouches f leader h =
    let matched : Log.match_term f.raft_log 0 (some 0) ≡ true =
      unfold Log.match_term Log.term in ground (arith, h) in
    (
      record (empty_message msg_app f.id) { from = leader.id; term = leader.hard.term },
      unfold send_heartbeat send in refl,
      unfold step_follower in
          rw (maybe_append_empty f.raft_log 0 0 (some 0) matched (omega arith)) refl,
    )
