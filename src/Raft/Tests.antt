-- ===== src/Raft/Tests.antt =====
-- raft/raft.go and raft/node.go: runs of small members, and the theorems on members at these runs.
use etcd.Prelude.Map.{lookup}
use etcd.Raft.Log.Recency.{AtLeast}
use etcd.Raft.Node.Run.{new_raft-IsValid}
use etcd.Raft.Relapse.{vote_forgotten}
use etcd.Raft.Log.Bounds.{IsWf}
use etcd.Prelude.{
  ◌++◌, ℕ, ◌+◌, ◌-◌, ◌≤◌, ◌<◌, ◌≡◌, ◌≢◌, refl, ◌⊎◌, inl, inr, Bool, true, false, none, some, List,
  [], ◌∷◌, not, length, get_elem?, arith, ok, leb, Option,
}
use etcd.Raft.Pb.{msg_vote, Message, msg_app, msg_app_resp, msg_vote_resp, empty_message}
use etcd.Raft.Log
use etcd.Raft.Machine.{
  StepFunc, state_candidate, Raft, Progress, quorum, send, send_heartbeat, campaign, maybe_commit,
}
use etcd.Raft.Machine.Quorum.{maybe_commit_exact, quorum_overlap, replicas, commit_at}
use etcd.Raft.Step.{step_candidate, step_follower, answer_vote}
use etcd.Raft.Member.{step, new_raft}
use etcd.Raft.Follower.{granted, refused, answer_vote_exact, heartbeat_vouches}
use etcd.Raft.Ballot.{vote_once}
use etcd.Raft.Evolution.{IsValid, Evolves}
use etcd.Raft.Evolution.Steps.{step_safe}
use etcd.Raft.Samples.{
  appended, entry, local, replaced, follower, candidate, leader, append_request, late_request, vote,
  follower-IsValid, local-IsWf,
}

takes_entries : step follower append_request ≡ ok appended
unfolding step etcd.Prelude.Map.lookup Log.maybe_append Log.match_term Log.at Log.find_conflict
    Log.append Log.last_index Log.slice
takes_entries = refl

-- Member 2 after it has turned member 3 down.
abbrev loyal : Raft
loyal = record follower {
  msgs = record (empty_message msg_vote_resp 3) { from = 2; term = 3; denied = true } ∷ [];
}

keeps_vote : step follower late_request ≡ ok loyal
unfolding step etcd.Prelude.Map.lookup
keeps_vote = refl

-- What the leader of term 4 sends first.
abbrev first_append : ℕ → Message
first_append to = record (empty_message msg_app to) {
  from = 1;
  term = 4;
  log_term = some 2;
  index = 3;
  entries = entry 4 4 ∷ [];
  commit = 1;
}

-- Member 1 once it has won.
abbrev elected : Raft
elected = record leader {
  hard = record { term = 4; vote = 0; commit = 1 };
  raft_log = record local { ents = entry 0 0 ∷ entry 1 1 ∷ entry 1 2 ∷ entry 2 3 ∷ entry 4 4 ∷ [] };
  prs =
      (1, record { match = 4; next = 5 })
      ∷ (2, record { match = 0; next = 4 })
      ∷ (3, record { match = 0; next = 4 })
      ∷ [];
  elapsed = 0;
  msgs = first_append 2 ∷ first_append 3 ∷ [];
}

commits : maybe_commit leader ≡ ok (commit_at leader 3, true)
unfolding maybe_commit etcd.Prelude.Sort.sort_desc Log.maybe_commit Log.term Log.at
commits = refl

step_safe_example : Evolves follower appended × (appended.hard.commit ≡ replaced.committed)
step_safe_example =
    step_safe follower appended append_request follower-IsValid (λ e. cc) takes_entries

vote_once_example : loyal.hard.vote ≡ follower.hard.vote
vote_once_example =
    vote_once follower loyal late_request follower-IsValid refl (λ e. cc) (λ e. cc) keeps_vote refl

maybe_commit_exact_example :
    (m : ℕ) × (quorum leader ≤ replicas m leader)
    × ((t : ℕ) → m < t → replicas t leader < quorum leader)
    × ((maybe_commit leader ≡ ok (commit_at leader m, true)) × (1 < m) × (Log.term local m ≡ some 2)
        ⊎ (maybe_commit leader ≡ ok (leader, false)) × ((m ≤ 1) ⊎ (Log.term local m ≢ some 2)))
maybe_commit_exact_example = maybe_commit_exact leader (λ e. cc)

quorum_overlap_example :
    (k : ℕ) × (x : ℕ × Progress) × (get_elem? leader.prs k ≡ some x)
    × (leb x.0 2 ≡ true)
    × (leb 2 x.0 ≡ true)
unfolding quorum
quorum_overlap_example =
    quorum_overlap leader (λ i. leb i 2) (λ i. leb 2 i) (omega arith) (omega arith)

answer_vote_exact_example :
    (s : ℕ) × (Log.term local (Log.last_index local) ≡ some s)
    × ((answer_vote follower late_request ≡ ok (granted follower late_request))
          × ((follower.hard.vote ≡ 0) ⊎ (follower.hard.vote ≡ 3))
          × AtLeast 9 9 (Log.last_index local) s
        ⊎ (answer_vote follower late_request ≡ ok (refused follower late_request))
          × ((follower.hard.vote ≢ 0) × (follower.hard.vote ≢ 3)
              ⊎ ¬ AtLeast 9 9 (Log.last_index local) s))
answer_vote_exact_example = answer_vote_exact follower late_request 9 local-IsWf refl

first_term : Log.term local 0 ≡ some 0
unfolding Log.term Log.at
first_term = refl

heartbeat_vouches_example :
    (m : Message) × ((send_heartbeat leader 2).msgs ≡ leader.msgs ++ m ∷ [])
    × (step_follower follower m
        ≡ ok (
            send
              (record follower { elapsed = 0; lead = 1 })
              (record (empty_message msg_app_resp 1) { index = Log.last_index local })))
heartbeat_vouches_example = heartbeat_vouches follower leader first_term

new_raft-IsValid_example : (r : Raft) × (new_raft 1 (1 ∷ 2 ∷ []) 10 1 ≡ ok r) × IsValid r
new_raft-IsValid_example = new_raft-IsValid 1 (1 ∷ 2 ∷ []) 10 1 (λ e. cc)

abbrev vote_message : ℕ → Message
vote_message to = record (empty_message msg_vote to) {
  from = 2;
  term = 4;
  log_term = some 2;
  index = 3;
}

-- Member 2 running for term 4.
abbrev running : Raft
running = record follower {
  hard = record { term = 4; vote = 2; commit = 1 };
  prs =
      (1, record { match = 0; next = 4 })
      ∷ (2, record { match = 3; next = 4 })
      ∷ (3, record { match = 0; next = 4 })
      ∷ [];
  state = state_candidate;
  votes = (2, true) ∷ [];
  elapsed = 0;
  msgs = vote_message 1 ∷ vote_message 3 ∷ [];
  step = StepFunc.step_candidate;
}

runs : campaign follower ≡ ok running
unfolding campaign lookup etcd.Prelude.Map.insert Log.last_index Log.term Log.at
runs = refl

-- Member 1, still a candidate, hears of a leader of its own term.
abbrev rival_append : Message
rival_append = record append_request { from = 3; to = 1; term = 4 }

-- It becomes a follower, without a vote.
abbrev forgetful : Raft
forgetful = record follower {
  hard = record { term = 4; vote = 0; commit = 1 };
  id = 1;
  raft_log = replaced;
  prs =
      (1, record { match = 3; next = 4 })
      ∷ (2, record { match = 0; next = 4 })
      ∷ (3, record { match = 0; next = 4 })
      ∷ [];
  lead = 3;
  elapsed = 0;
  msgs = record (empty_message msg_app_resp 3) { from = 1; term = 4; index = 4 } ∷ [];
}

steps_back : step_candidate candidate rival_append ≡ ok forgetful
unfolding step_candidate Log.maybe_append Log.match_term Log.at Log.find_conflict Log.append
    Log.last_index Log.slice
steps_back = refl

forgetful-IsWf : IsWf forgetful.raft_log
forgetful-IsWf = record {
  nonempty = omega arith;
  compacted = omega arith;
  ordered = omega arith;
  within = omega arith;
  stable = omega arith;
}

last_of_replaced : Log.term replaced (Log.last_index replaced) ≡ some 3
unfolding Log.term Log.at Log.last_index
last_of_replaced = refl

vote_forgotten_example :
    (forgetful.hard.term ≡ candidate.hard.term)
    × (answer_vote forgetful late_request ≡ ok (granted forgetful late_request))
vote_forgotten_example =
    vote_forgotten candidate forgetful rival_append late_request 9 3 refl (λ e. cc) steps_back refl
      forgetful-IsWf refl last_of_replaced (inl (omega arith))
