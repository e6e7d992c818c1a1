-- ===== src/Raft/Step.antt =====
-- raft/raft.go: the handlers of messages, by the role of the member.
use etcd.Prelude.{
  ℕ, ◌+◌, ◌-◌, Bool, true, false, not, ◌||◌, List, [], ◌∷◌, leb, ◌==◌, if◌then◌else◌, length,
  Result, ok, panic, ◌>>=◌, Panic,
}
use etcd.Prelude.Map.{lookup, insert, delete}
use etcd.Raft.Pb.{
  Entry, entry_normal, entry_conf_change, Snapshot, Message, msg_beat, msg_prop, msg_app,
  msg_app_resp, msg_vote, msg_vote_resp, msg_snap, empty_message,
}
use etcd.Raft.Log
use etcd.Raft.Log.{RaftLog, new_log}
use etcd.Raft.Machine.{
  Raft, update, decr, StepFunc, or_nil, quorum, poll, send, send_append, bcast_append,
  bcast_heartbeat, maybe_commit, append_entry, become_follower, become_leader,
}

unfoldable pub handle_append_entries : Raft → Message → Result Raft
unfolding send
handle_append_entries r m = do
  (l, accepted) ← Log.maybe_append r.raft_log m.index m.log_term m.commit m.entries
  let s = record r { raft_log = l }
  let reply = empty_message msg_app_resp m.from
  ok (
      send s (
        if accepted
        then record reply { index = Log.last_index l }
        else record reply { denied = true }))

unfoldable pub set_progress : Raft → ℕ → ℕ → ℕ → Raft
set_progress r id match next = record r {
  prs = insert id (record { match = match; next = next }) r.prs;
}

-- The loop of `restore` over the members that the snapshot names.
unfoldable pub restore_nodes : Raft → List ℕ → Raft
unfolding set_progress
restore_nodes r [] = r
restore_nodes r (n ∷ ns) =
    let last = Log.last_index r.raft_log in
    restore_nodes (set_progress r n (if n == r.id then last else 0) (last + 1)) ns

unfoldable pub restore : Raft → Snapshot → Raft × Bool
unfolding restore_nodes
restore r s =
    if leb s.index r.raft_log.committed
    then (r, false)
    else (restore_nodes (record r { raft_log = Log.restore r.raft_log s; prs = [] }) s.nodes, true)

unfoldable pub handle_snapshot : Raft → Message → Raft
unfolding restore send
handle_snapshot r m =
    let (s, restored) = restore r m.snapshot in
    let reply = empty_message msg_app_resp m.from in
    send s (record reply {
      index = if restored then Log.last_index s.raft_log else s.raft_log.committed;
    })

unfoldable pub add_node : Raft → ℕ → Raft
unfolding set_progress
add_node r id = record (set_progress r id 0 (Log.last_index r.raft_log + 1)) {
  pending_conf = false;
}

unfoldable pub remove_node : Raft → ℕ → Raft
remove_node r id = record r {
  prs = delete id r.prs;
  pending_conf = false;
  removed = insert id true r.removed;
}

-- A proposal that the leader takes in.
unfoldable pub propose : Raft → Entry → Result Raft
unfolding append_entry bcast_append
propose r e = do s ← append_entry r e; bcast_append s

unfoldable pub step_leader : Raft → Message → Result Raft
unfolding bcast_heartbeat propose send_append maybe_commit bcast_append send
step_leader r m = elim m.type [
  | msg_beat ↦ bcast_heartbeat r
  | msg_prop ↦ elim m.entries [
    | [] ↦ panic Panic.proposal_length
    | e ∷ [] ↦ elim e.type [
      | entry_conf_change ↦
          if r.pending_conf then ok r else propose (record r { pending_conf = true }) e
      | entry_normal ↦ propose r e
    ]
    | _ ∷ _ ∷ _ ↦ panic Panic.proposal_length
  ]
  | msg_app_resp ↦ do
    pr ← or_nil (lookup m.from r.prs)
    (if m.denied then send_append (record r { prs = insert m.from (decr pr) r.prs }) m.from else (do
      (s, committed) ← maybe_commit (record r { prs = insert m.from (update m.index) r.prs })
      (if committed then bcast_append s else ok s)))
  | msg_vote ↦ ok (send r (record (empty_message msg_vote_resp m.from) { denied = true }))
  | _ ↦ ok r
]

unfoldable pub step_candidate : Raft → Message → Result Raft
unfolding handle_append_entries handle_snapshot become_follower send poll quorum become_leader
    bcast_append
step_candidate r m = elim m.type [
  | msg_prop ↦ panic Panic.no_leader
  | msg_app ↦ handle_append_entries (become_follower r r.hard.term m.from) m
  | msg_snap ↦ ok (handle_snapshot (become_follower r m.term m.from) m)
  | msg_vote ↦ ok (send r (record (empty_message msg_vote_resp m.from) { denied = true }))
  | msg_vote_resp ↦
      let (s, granted) = poll r m.from (not m.denied) in
      let won : Result Raft = (do t ← become_leader s; bcast_append t) in
      if quorum s == granted
      then won
      else if quorum s == length s.votes - granted
      then ok (become_follower s s.hard.term 0)
      else ok s
  | _ ↦ ok r
]

-- The `case msgVote` of `stepFollower`.
unfoldable pub answer_vote : Raft → Message → Result Raft
unfolding send
answer_vote r m =
    let reply = empty_message msg_vote_resp m.from in
    let refused = send r (record reply { denied = true }) in
    let granted = send (record r { elapsed = 0; hard = record r.hard { vote = m.from } }) reply in
    if r.hard.vote == 0 || r.hard.vote == m.from
    then (do
      recent ← Log.is_up_to_date r.raft_log m.index m.log_term
      ok (if recent then granted else refused))
    else ok refused

unfoldable pub step_follower : Raft → Message → Result Raft
unfolding handle_append_entries handle_snapshot answer_vote send
step_follower r m = elim m.type [
  | msg_prop ↦ if r.lead == 0 then panic Panic.no_leader else ok (send r (record m { to = r.lead }))
  | msg_app ↦ handle_append_entries (record r { elapsed = 0; lead = m.from }) m
  | msg_snap ↦ ok (handle_snapshot (record r { elapsed = 0 }) m)
  | msg_vote ↦ answer_vote r m
  | _ ↦ ok r
]

-- The call `r.step(r, m)`.
unfoldable pub run_step : Raft → Message → Result Raft
unfolding step_leader step_candidate step_follower
run_step r m = elim r.step [
  | StepFunc.step_leader ↦ step_leader r m
  | StepFunc.step_candidate ↦ step_candidate r m
  | StepFunc.step_follower ↦ step_follower r m
]
