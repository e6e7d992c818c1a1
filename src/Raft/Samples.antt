-- ===== src/Raft/Samples.antt =====
-- raft/*.go: small logs, members and messages for the runs.
use etcd.Prelude.{refl, ℕ, List, [], ◌∷◌, arith, true, false, some}
use etcd.Raft.Pb.{
  msg_app_resp, Entry, entry_normal, empty_snapshot, Message, empty_message, msg_app, msg_vote,
  msg_vote_resp,
}
use etcd.Raft.Log.{RaftLog}
use etcd.Raft.Log.Bounds.{IsWf}
use etcd.Raft.Machine.{
  Raft, Progress, update, state_follower, state_candidate, state_leader, TickFunc, StepFunc,
}
use etcd.Raft.Evolution.{IsValid}

abbrev pub entry : ℕ → ℕ → Entry
entry t i = record { type = entry_normal; term = t; index = i; bytes = [] }

-- A log of three entries, the first of them committed, the last two not yet stored.
abbrev pub local : RaftLog
local = record {
  ents = entry 0 0 ∷ entry 1 1 ∷ entry 1 2 ∷ entry 2 3 ∷ [];
  unstable = 2;
  committed = 1;
  applied = 0;
  offset = 0;
  snapshot = empty_snapshot;
  compact_threshold = 10000;
}

-- What a leader of term 3 sends behind index 1.
abbrev pub incoming : List Entry
incoming = entry 1 2 ∷ entry 3 3 ∷ entry 3 4 ∷ []

abbrev pub replaced : RaftLog
replaced = record local {
  ents = entry 0 0 ∷ entry 1 1 ∷ entry 1 2 ∷ entry 3 3 ∷ entry 3 4 ∷ [];
  committed = 3;
}

-- The same log with its committed entries executed.
abbrev pub executed : RaftLog
executed = record replaced { applied = 2 }

pub local-IsWf : IsWf local
local-IsWf = record {
  nonempty = omega arith;
  compacted = omega arith;
  ordered = omega arith;
  within = omega arith;
  stable = omega arith;
}

pub replaced-IsWf : IsWf replaced
replaced-IsWf = record {
  nonempty = omega arith;
  compacted = omega arith;
  ordered = omega arith;
  within = omega arith;
  stable = omega arith;
}

pub executed-IsWf : IsWf executed
executed-IsWf = record {
  nonempty = omega arith;
  compacted = omega arith;
  ordered = omega arith;
  within = omega arith;
  stable = omega arith;
}

abbrev pub peers : List (ℕ × Progress)
peers = (1, update 0) ∷ (2, update 0) ∷ (3, update 0) ∷ []

-- Member 2, which has voted for member 1 in term 3.
abbrev pub follower : Raft
follower = record {
  hard = record { term = 3; vote = 1; commit = 1 };
  id = 2;
  raft_log = local;
  prs = peers;
  state = state_follower;
  votes = [];
  msgs = [];
  lead = 0;
  pending_conf = false;
  removed = [];
  elapsed = 4;
  heartbeat_timeout = 1;
  election_timeout = 10;
  tick = TickFunc.tick_election;
  step = StepFunc.step_follower;
}

pub follower-IsValid : IsValid follower
follower-IsValid = record {
  log = local-IsWf;
  next = (omega arith, (omega arith, (omega arith, tt)));
  handler = refl;
  clock = refl;
  leads = λ e. cc;
}

-- Member 1, which runs for term 4 and has its own vote.
abbrev pub candidate : Raft
candidate = record follower {
  hard = record { term = 4; vote = 1; commit = 1 };
  id = 1;
  state = state_candidate;
  votes = (1, true) ∷ [];
  step = StepFunc.step_candidate;
}

-- Member 1 as the leader of term 2, with two members known to hold its whole log.
abbrev pub leader : Raft
leader = record follower {
  hard = record { term = 2; vote = 1; commit = 1 };
  id = 1;
  prs = (1, update 3) ∷ (2, update 3) ∷ (3, update 1) ∷ [];
  state = state_leader;
  lead = 1;
  tick = TickFunc.tick_heartbeat;
  step = StepFunc.step_leader;
}

-- What the leader of term 3 sends to member 2.
abbrev pub append_request : Message
append_request = record (empty_message msg_app 2) {
  from = 1;
  term = 3;
  log_term = some 1;
  index = 1;
  entries = incoming;
  commit = 3;
}

-- A request for member 2's vote in term 3, from member 3.
abbrev pub late_request : Message
late_request = record (empty_message msg_vote 2) {
  from = 3;
  term = 3;
  log_term = some 9;
  index = 9;
}

-- Member 2 gives member 1 its vote.
abbrev pub vote : Message
vote = record (empty_message msg_vote_resp 1) { from = 2; term = 4 }

-- Member 2 once it has taken the entries of its leader.
abbrev pub appended : Raft
appended = record follower {
  hard = record { term = 3; vote = 1; commit = 3 };
  raft_log = replaced;
  lead = 1;
  elapsed = 0;
  msgs = record (empty_message msg_app_resp 1) { from = 2; term = 3; index = 4 } ∷ [];
}
