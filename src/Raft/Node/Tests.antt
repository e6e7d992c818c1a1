-- ===== src/Raft/Node/Tests.antt =====
-- raft/node.go: a run of the loop on a small member, and the theorems on the loop at it.
use etcd.Raft.Pb.{msg_vote_resp, msg_prop, msg_vote, msg_app_resp, empty_message, Message, Snapshot}
use etcd.Raft.Node.Stale.{proposal_panics}
use etcd.Raft.Machine.{Raft, should_stop}
use etcd.Raft.Evolution.{IsValid, Evolves}
use etcd.Raft.Member.{restart}
use etcd.Raft.Node.Restart.{restart-IsValid}
use etcd.Prelude.{
  arith, ◌≢◌, ◌⊎◌, no_leader, panic, ℕ, ◌≡◌, refl, List, [], ◌∷◌, ok, true, false, none, some,
}
use etcd.Raft.Node.{
  soft_state, should_stop, soft_equal, Loop, Event, start_loop, ready, take_ready, round,
  is_offered, contains_updates,
}
use etcd.Raft.Node.Run.{Runs, Runs-Evolves}
use etcd.Raft.Node.Updates.{taken_once}
use etcd.Raft.Samples.{entry, appended, follower, follower-IsValid, append_request, replaced}

-- Member 2 at the start of its loop.
abbrev started : Loop
started = record {
  raft = follower;
  lead = 0;
  proposals = false;
  prev_soft = record { lead = 0; raft_state = follower.state; should_stop = false };
  prev_hard = follower.hard;
  prev_snapi = 0;
}

starts : start_loop follower ≡ started
unfolding start_loop etcd.Prelude.Map.lookup
starts = refl

receives : round started (Event.receives append_request) ≡ ok (record started { raft = appended })
unfolding round etcd.Prelude.Map.lookup etcd.Raft.Log.maybe_append etcd.Raft.Log.match_term
    etcd.Raft.Log.at etcd.Raft.Log.find_conflict etcd.Raft.Log.append etcd.Raft.Log.last_index
    etcd.Raft.Log.slice
receives = refl

-- The loop after a round that takes the `Ready`: it knows the leader and takes proposals.
abbrev taken : Loop
taken = record {
  raft = record appended { raft_log = record replaced { unstable = 5; applied = 3 }; msgs = [] };
  lead = 1;
  proposals = true;
  prev_soft = record { lead = 1; raft_state = follower.state; should_stop = false };
  prev_hard = appended.hard;
  prev_snapi = 0;
}

takes : round (record started { raft = appended }) Event.takes_ready ≡ ok taken
unfolding round etcd.Raft.Log.reset_unstable etcd.Prelude.Map.lookup etcd.Raft.Log.reset_next_ents
    etcd.Raft.Log.last_index
takes = refl

has_updates : is_offered (record started { raft = appended }) Event.takes_ready ≡ true
unfolding is_offered
has_updates = refl

taken_once_example :
    contains_updates (ready (take_ready (record started { raft = appended }))) ≡ false
taken_once_example = taken_once (record started { raft = appended })

offered : is_offered started (Event.receives append_request) ≡ true
unfolding is_offered
offered = refl

two_rounds : Runs started taken
two_rounds =
    Runs.next Event.takes_ready
      (Runs.next (Event.receives append_request) Runs.here offered (λ e. cc) receives) has_updates
      tt takes

Runs-Evolves_example : Evolves follower taken.raft
Runs-Evolves_example = Runs-Evolves follower-IsValid two_rounds

-- A candidate with an old log asks for member 2's vote in term 4.
abbrev newer_request : Message
newer_request = record (empty_message msg_vote 2) { from = 3; term = 4 }

-- The loop after that request: member 2 has no leader, and proposals are still taken.
abbrev stale : Loop
stale = record {
  raft = record appended {
    hard = record { term = 4; vote = 0; commit = 3 };
    prs =
        (1, record { match = 0; next = 5 })
        ∷ (2, record { match = 4; next = 5 })
        ∷ (3, record { match = 0; next = 5 })
        ∷ [];
    lead = 0;
    msgs =
        record (empty_message msg_app_resp 1) { from = 2; term = 3; index = 4 }
        ∷ record (empty_message msg_vote_resp 3) { from = 2; term = 4; denied = true }
        ∷ [];
  };
  lead = 1;
  proposals = true;
  prev_soft = started.prev_soft;
  prev_hard = started.prev_hard;
  prev_snapi = 0;
}

loses_leader : round (record started { raft = appended }) (Event.receives newer_request) ≡ ok stale
unfolding round etcd.Prelude.Map.lookup etcd.Raft.Log.is_up_to_date etcd.Raft.Log.at
    etcd.Raft.Log.last_index
loses_leader = refl

-- The loop gets there.
reaches_stale : Runs started stale
reaches_stale =
    Runs.next (Event.receives newer_request)
      (Runs.next (Event.receives append_request) Runs.here offered (λ e. cc) receives)
      (unfold is_offered in refl) (λ e. cc) loses_leader

abbrev proposal : Message
proposal = record (empty_message msg_prop 0) { entries = entry 0 0 ∷ [] }

same_soft : soft_equal (soft_state stale.raft) stale.prev_soft ≡ true
unfolding soft_equal soft_state etcd.Prelude.Map.lookup
same_soft = refl

is_member : should_stop stale.raft ≡ false
unfolding should_stop etcd.Prelude.Map.lookup
is_member = refl

proposal_panics_example :
    (is_offered stale (Event.proposes proposal) ≡ true)
    × (round stale (Event.proposes proposal) ≡ panic no_leader)
proposal_panics_example =
    proposal_panics stale proposal refl refl refl same_soft is_member refl refl

-- What the storage of member 2 may hold: a snapshot up to index 1, and the entries from there on.
abbrev stored : Snapshot
stored = record { bytes = []; nodes = 1 ∷ 2 ∷ 3 ∷ []; index = 1; term = 1 }

restart-IsValid_example :
    (r : Raft) × (restart 2 [] 10 1
        (some stored)
        (record { term = 3; vote = 1; commit = 2 })
        (entry 1 1 ∷ entry 1 2 ∷ entry 2 3 ∷ [])
      ≡ ok r)
    × IsValid r
    × (r.hard ≡ record { term = 3; vote = 1; commit = 2 })
    × (r.raft_log.ents ≡ entry 1 1 ∷ entry 1 2 ∷ entry 2 3 ∷ [])
restart-IsValid_example =
    restart-IsValid 2 [] 10 1 (some stored) (record { term = 3; vote = 1; commit = 2 })
      (entry 1 1 ∷ entry 1 2 ∷ entry 2 3 ∷ []) (λ e. cc) (omega arith) (omega arith) (omega arith)
