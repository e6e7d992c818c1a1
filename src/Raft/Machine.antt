-- ===== src/Raft/Machine.antt =====
-- raft/raft.go: the state of one member, and the operations that its handlers are made of.
-- A map ranges in the order of its list. `next` of a progress is at least 1 (a part of the
-- invariant), so that `next - 1` is the source's.
pub mod Quorum
use etcd.Prelude.{
  ℕ, suc, ◌+◌, ◌-◌, ◌/◌, Bool, true, false, Option, none, some, List, [], ◌∷◌, ◌++◌, map, ltb, ◌==◌,
  if◌then◌else◌, length, get_elem?, Result, ok, panic, ◌>>=◌, Panic,
}
use etcd.Prelude.Map.{lookup, insert}
use etcd.Prelude.Sort.{sort_desc}
use etcd.Raft.Pb.{
  Entry, EntryType, entry_normal, entry_conf_change, Message, MessageType, msg_app, msg_snap,
  msg_vote, HardState, empty_entry, empty_message,
}
use etcd.Raft.Log
use etcd.Raft.Log.{RaftLog}

pub data StateType : Type 0 where
  state_follower state_candidate state_leader : StateType

-- The functions that the fields `tick` and `step` may hold.
pub data TickFunc : Type 0 where
  tick_election tick_heartbeat : TickFunc

pub data StepFunc : Type 0 where
  step_follower step_candidate step_leader : StepFunc

pub record Progress : Type 0 where
  pub match : ℕ
  pub next : ℕ

-- The method `update` of a progress.
abbrev pub update : ℕ → Progress
update n = record { match = n; next = n + 1 }

-- The method `decr` of a progress.
abbrev pub decr : Progress → Progress
decr pr = if ltb (pr.next - 1) 1 then record pr { next = 1 } else record pr { next = pr.next - 1 }

pub record Raft : Type 0 where
  pub hard : HardState
  pub id : ℕ
  pub raft_log : RaftLog
  pub prs : List (ℕ × Progress)
  pub state : StateType
  pub votes : List (ℕ × Bool)
  pub msgs : List Message
  pub lead : ℕ
  pub pending_conf : Bool
  pub removed : List (ℕ × Bool)
  pub elapsed : ℕ
  pub heartbeat_timeout : ℕ
  pub election_timeout : ℕ
  pub tick : TickFunc
  pub step : StepFunc

-- A pointer that a map holds, or a nil dereference; an element of a slice, or out of range.
abbrev pub or_nil {ℓ} : {A : Type ℓ} → Option A → Result A
or_nil none = panic Panic.nil_pointer
or_nil (some a) = ok a

abbrev pub or_range {ℓ} : {A : Type ℓ} → Option A → Result A
or_range none = panic Panic.index_out_of_range
or_range (some a) = ok a

abbrev pub flag : Option Bool → Bool
flag none = false
flag (some b) = b

unfoldable pub is_removed : Raft → ℕ → Bool
is_removed r id = flag (lookup id r.removed)

unfoldable pub should_stop : Raft → Bool
unfolding is_removed
should_stop r = is_removed r r.id

unfoldable pub has_leader : Raft → Bool
has_leader r = if r.lead == 0 then false else true

-- `q`: the size of a majority.
unfoldable pub quorum : Raft → ℕ
quorum r = length r.prs / 2 + 1

abbrev pub count_granted : List (ℕ × Bool) → ℕ
count_granted [] = 0
count_granted ((i, v) ∷ vs) = if v then suc (count_granted vs) else count_granted vs

unfoldable pub poll : Raft → ℕ → Bool → Raft × ℕ
poll r id v =
    let votes : List (ℕ × Bool) = elim (lookup id r.votes) [
      | none ↦ insert id v r.votes
      | some _ ↦ r.votes
    ] in
    (record r { votes = votes }, count_granted votes)

unfoldable pub send : Raft → Message → Raft
send r m = record r { msgs = r.msgs ++ record m { from = r.id; term = r.hard.term } ∷ [] }

unfoldable pub need_snapshot : Raft → ℕ → Result Bool
need_snapshot r i =
    if ltb i r.raft_log.offset
    then (if r.raft_log.snapshot.term == 0 then panic Panic.need_snapshot else ok true)
    else ok false

unfoldable pub send_append : Raft → ℕ → Result Raft
unfolding need_snapshot send
send_append r to = do
  pr ← or_nil (lookup to r.prs)
  let m = record (empty_message msg_app to) { index = pr.next - 1 }
  snap ← need_snapshot r (pr.next - 1)
  (if snap then ok (send r (record m { type = msg_snap; snapshot = r.raft_log.snapshot })) else (do
    es ← Log.entries r.raft_log pr.next
    ok (
        send r (record m {
          log_term = Log.term r.raft_log (pr.next - 1);
          entries = es;
          commit = r.raft_log.committed;
        }))))

unfoldable pub send_heartbeat : Raft → ℕ → Raft
unfolding send
send_heartbeat r to = send r (empty_message msg_app to)

-- The loop of the broadcasts over the members: each but the member itself.
unfoldable pub each_peer : (Raft → ℕ → Result Raft) → Raft → List (ℕ × Progress) → Result Raft
each_peer f r [] = ok r
each_peer f r ((i, _) ∷ prs) = do r' ← (if i == r.id then ok r else f r i); each_peer f r' prs

unfoldable pub bcast_append : Raft → Result Raft
unfolding each_peer send_append
bcast_append r = each_peer send_append r r.prs

unfoldable pub bcast_heartbeat : Raft → Result Raft
unfolding each_peer send_heartbeat
bcast_heartbeat r = each_peer (λ s i. ok (send_heartbeat s i)) r r.prs

abbrev pub matches : List (ℕ × Progress) → List ℕ
matches [] = []
matches ((i, pr) ∷ prs) = pr.match ∷ matches prs

unfoldable pub maybe_commit : Raft → Result (Raft × Bool)
unfolding quorum
maybe_commit r = do
  mci ← or_range (get_elem? (sort_desc (matches r.prs)) (quorum r - 1))
  let (l, done) = Log.maybe_commit r.raft_log mci r.hard.term
  ok (record r { raft_log = l }, done)

abbrev pub fresh_progress : ℕ → ℕ → List (ℕ × Progress) → List (ℕ × Progress)
fresh_progress id last [] = []
fresh_progress id last ((i, _) ∷ prs) =
    (i, record { match = if i == id then last else 0; next = last + 1 })
    ∷ fresh_progress id last prs

unfoldable pub reset : Raft → ℕ → Raft
reset r term = record r {
  hard = record { term = term; vote = 0; commit = r.hard.commit };
  lead = 0;
  elapsed = 0;
  votes = [];
  prs = fresh_progress r.id (Log.last_index r.raft_log) r.prs;
  pending_conf = false;
}

unfoldable pub append_entry : Raft → Entry → Result Raft
unfolding maybe_commit
append_entry r e = do
  let last = Log.last_index r.raft_log
  let l = (Log.append r.raft_log last (record e { term = r.hard.term; index = last + 1 } ∷ [])).0
  _ ← or_nil (lookup r.id r.prs)
  (r', _) ←
      maybe_commit (record r { raft_log = l; prs = insert r.id (update (Log.last_index l)) r.prs })
  ok r'

unfoldable pub become_follower : Raft → ℕ → ℕ → Raft
unfolding reset
become_follower r term lead = record (reset r term) {
  step = step_follower;
  tick = tick_election;
  lead = lead;
  state = state_follower;
}

unfoldable pub become_candidate : Raft → Result Raft
unfolding reset
become_candidate r =
    let s = reset r (r.hard.term + 1) in
    let candidate : Raft = record s {
      step = step_candidate;
      tick = tick_election;
      hard = record s.hard { vote = r.id };
      state = state_candidate;
    } in
    elim r.state [ state_leader ↦ panic Panic.leader_to_candidate | _ ↦ ok candidate ]

-- The scan of the uncommitted entries for configuration changes.
unfoldable pub scan_conf : Bool → List Entry → Result Bool
scan_conf pending [] = ok pending
scan_conf pending (e ∷ es) = do
  pending' ← elim e.type [
    | entry_conf_change ↦ if pending then panic Panic.double_config else ok true
    | entry_normal ↦ ok pending
  ]
  scan_conf pending' es

unfoldable pub become_leader : Raft → Result Raft
unfolding reset scan_conf append_entry
become_leader r =
    let s = reset r r.hard.term in
    let leader : Raft = record s {
      step = step_leader;
      tick = tick_heartbeat;
      lead = r.id;
      state = state_leader;
    } in
    let elected : Result Raft = (do
      es ← Log.entries r.raft_log (r.raft_log.committed + 1)
      pending ← scan_conf false es
      append_entry (record leader { pending_conf = pending }) empty_entry) in
    elim r.state [ state_follower ↦ panic Panic.follower_to_leader | _ ↦ elected ]

-- The message that asks a member for its vote.
abbrev pub vote_request : Raft → ℕ → Message
vote_request r to =
    let last = Log.last_index r.raft_log in
    record (empty_message msg_vote to) { index = last; log_term = Log.term r.raft_log last }

-- `campaign` after the change of role.
unfoldable pub request_votes : Raft → Result Raft
unfolding poll quorum become_leader each_peer send
request_votes s = do
  let (t, granted) = poll s s.id true
  u ← (if quorum s == granted then become_leader t else ok t)
  each_peer (λ w i. ok (send w (vote_request w i))) u u.prs

unfoldable pub campaign : Raft → Result Raft
unfolding become_candidate request_votes
campaign r = do s ← become_candidate r; request_votes s
