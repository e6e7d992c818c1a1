-- ===== src/Raft/Member.antt =====
-- raft/raft.go: `Step` and the ticks, and how a member starts, restarts and compacts its log.
use etcd.Prelude.{
  ℕ, ◌+◌, Bool, true, false, Option, none, some, List, [], ◌∷◌, ltb, ◌==◌, if◌then◌else◌, Result,
  ok, panic, ◌>>=◌, Panic,
}
use etcd.Prelude.Map.{lookup, insert}
use etcd.Raft.Pb.{
  Entry, Message, MessageType, msg_hup, msg_beat, msg_vote, msg_denied, HardState, Snapshot,
  empty_message,
}
use etcd.Raft.Log
use etcd.Raft.Log.{new_log}
use etcd.Raft.Machine.{
  Raft, Progress, state_follower, TickFunc, StepFunc, is_removed, send, become_follower, campaign,
}
use etcd.Raft.Step.{run_step, restore}

abbrev pub is_hup : MessageType → Bool
is_hup msg_hup = true
is_hup _ = false

abbrev pub is_denied : MessageType → Bool
is_denied msg_denied = true
is_denied _ = false

abbrev pub is_vote : MessageType → Bool
is_vote msg_vote = true
is_vote _ = false

-- The second `switch` of `Step`, on the term of the message, and the call of the role's handler.
unfoldable pub step_term : Raft → Message → Result Raft
unfolding run_step become_follower
step_term r m =
    let newer = become_follower r m.term (if is_vote m.type then 0 else m.from) in
    if m.term == 0
    then run_step r m
    else if ltb r.hard.term m.term
    then run_step newer m
    else if ltb m.term r.hard.term
    then ok r
    else run_step r m

-- `Step` up to its deferred statement.
unfoldable pub step_body : Raft → Message → Result Raft
unfolding is_removed send campaign step_term
step_body r m =
    if is_removed r m.from
    then ok (if m.from == r.id then r else send r (empty_message msg_denied m.from))
    else if is_denied m.type
    then ok (record r { removed = insert r.id true r.removed })
    else (do s ← (if is_hup m.type then campaign r else ok r); step_term s m)

-- The deferred statement of `Step`.
abbrev pub record_commit : Raft → Raft
record_commit r = record r { hard = record r.hard { commit = r.raft_log.committed } }

unfoldable pub step : Raft → Message → Result Raft
unfolding step_body
step r m = do s ← step_body r m; ok (record_commit s)

-- A member may be promoted when its own id is among the members.
unfoldable pub promotable : Raft → Bool
promotable r = elim (lookup r.id r.prs) [ none ↦ false | some _ ↦ true ]

abbrev pub local_message : MessageType → ℕ → Message
local_message type from = record (empty_message type 0) { from = from }

unfoldable pub tick_election : Raft → Result Raft
unfolding step promotable
tick_election r =
    if promotable r
    then (if ltb r.election_timeout (r.elapsed + 1)
        then step (record r { elapsed = 0 }) (local_message msg_hup r.id)
        else ok (record r { elapsed = r.elapsed + 1 }))
    else ok (record r { elapsed = 0 })

unfoldable pub tick_heartbeat : Raft → Result Raft
unfolding step
tick_heartbeat r =
    if ltb r.heartbeat_timeout (r.elapsed + 1)
    then step (record r { elapsed = 0 }) (local_message msg_beat r.id)
    else ok (record r { elapsed = r.elapsed + 1 })

-- The call `r.tick()`.
unfoldable pub run_tick : Raft → Result Raft
unfolding tick_election tick_heartbeat
run_tick r = elim r.tick [
  | TickFunc.tick_election ↦ tick_election r
  | TickFunc.tick_heartbeat ↦ tick_heartbeat r
]

abbrev zero_progress : List ℕ → List (ℕ × Progress) → List (ℕ × Progress)
zero_progress [] prs = prs
zero_progress (p ∷ ps) prs = zero_progress ps (insert p (record { match = 0; next = 0 }) prs)

-- The literal of `newRaft`, with the zero values of the fields that it leaves out.
unfoldable pub initial_raft : ℕ → List ℕ → ℕ → ℕ → Raft
unfolding new_log
initial_raft id peers election heartbeat = record {
  hard = record { term = 0; vote = 0; commit = 0 };
  id = id;
  raft_log = new_log;
  prs = zero_progress peers [];
  state = state_follower;
  votes = [];
  msgs = [];
  lead = 0;
  pending_conf = false;
  removed = [];
  elapsed = 0;
  heartbeat_timeout = heartbeat;
  election_timeout = election;
  tick = TickFunc.tick_election;
  step = StepFunc.step_follower;
}

unfoldable pub new_raft : ℕ → List ℕ → ℕ → ℕ → Result Raft
unfolding initial_raft become_follower
new_raft id peers election heartbeat =
    if id == 0
    then panic Panic.none_id
    else ok (become_follower (initial_raft id peers election heartbeat) 0 0)

unfoldable pub load_ents : Raft → List Entry → Raft
load_ents r ents = record r { raft_log = Log.load r.raft_log ents }

unfoldable pub load_state : Raft → HardState → Raft
load_state r st = record r { raft_log = record r.raft_log { committed = st.commit }; hard = st }

abbrev pub nodes : List (ℕ × Progress) → List ℕ
nodes [] = []
nodes ((i, _) ∷ prs) = i ∷ nodes prs

-- For an `applied` out of the log, which no well-formed log has, the source would give the
-- snapshot the term -1; the model stops there.
unfoldable pub compact : Raft → List ℕ → Result Raft
compact r d = do
  let l = r.raft_log
  t ← elim (Log.term l l.applied) [ none ↦ panic Panic.index_out_of_range | some t ↦ ok t ]
  (l', _) ← Log.compact (Log.snap l d l.applied t (nodes r.prs)) l.applied
  ok (record r { raft_log = l' })

-- `RestartNode`, before the loop starts.
unfoldable pub restart : ℕ → List ℕ → ℕ → ℕ → Option Snapshot → HardState → List Entry → Result Raft
unfolding new_raft restore load_ents load_state
restart id peers election heartbeat snapshot st ents = do
  r ← new_raft id peers election heartbeat
  let s : Raft = elim snapshot [ none ↦ r | some sn ↦ (restore r sn).0 ]
  ok (load_ents (load_state s st) ents)
