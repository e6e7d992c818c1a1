-- ===== src/Raft/Node.antt =====
-- raft/node.go: the loop that drives one member. Each round of the loop prepares a `Ready` and then
-- takes one of the events that are offered to it; which one is left to the environment. The
-- channels themselves, and the contexts of the callers, are not modelled.
pub mod Run
pub mod Updates
pub mod Restart
pub mod Calls
pub mod Stale
mod Tests
use etcd.Prelude.{
  ℕ, Bool, true, false, not, ◌&&◌, ◌||◌, Option, none, some, List, [], if◌then◌else◌, ◌==◌, ltb,
  length, Result, ok, ◌>>=◌,
}
use etcd.Raft.Pb.{
  Entry, Message, HardState, Snapshot, empty_snapshot, ConfChangeType, conf_change_add_node,
  conf_change_remove_node,
}
use etcd.Raft.Log
use etcd.Raft.Machine.{
  Raft, StateType, state_follower, state_candidate, state_leader, should_stop, has_leader,
}
use etcd.Raft.Step.{add_node, remove_node}
use etcd.Raft.Member.{step, run_tick, compact}

pub record SoftState : Type 0 where
  pub lead : ℕ
  pub raft_state : StateType
  pub should_stop : Bool

unfoldable pub soft_state : Raft → SoftState
unfolding should_stop
soft_state r = record { lead = r.lead; raft_state = r.state; should_stop = should_stop r }

abbrev pub same_state : StateType → StateType → Bool
same_state state_follower state_follower = true
same_state state_candidate state_candidate = true
same_state state_leader state_leader = true
same_state _ _ = false

abbrev pub same_flag : Bool → Bool → Bool
same_flag true b = b
same_flag false b = not b

-- The method `equal` of a soft state.
unfoldable pub soft_equal : SoftState → SoftState → Bool
soft_equal a b =
    a.lead == b.lead
    && (same_state a.raft_state b.raft_state && same_flag a.should_stop b.should_stop)

unfoldable pub is_hard_state_equal : HardState → HardState → Bool
is_hard_state_equal a b = a.term == b.term && (a.vote == b.vote && a.commit == b.commit)

abbrev pub empty_state : HardState
empty_state = record { term = 0; vote = 0; commit = 0 }

unfoldable pub is_empty_hard_state : HardState → Bool
unfolding is_hard_state_equal
is_empty_hard_state st = is_hard_state_equal st empty_state

unfoldable pub is_empty_snap : Snapshot → Bool
is_empty_snap sp = sp.index == 0

pub record Ready : Type 0 where
  pub soft : Option SoftState
  pub hard : HardState
  pub entries : List Entry
  pub snapshot : Snapshot
  pub committed_entries : List Entry
  pub messages : List Message

unfoldable pub contains_updates : Ready → Bool
unfolding is_empty_hard_state is_empty_snap
contains_updates rd =
    elim rd.soft [ none ↦ false | some _ ↦ true ]
    || (not (is_empty_hard_state rd.hard)
        || (not (is_empty_snap rd.snapshot)
            || (ltb 0 (length rd.entries)
                || (ltb 0 (length rd.committed_entries) || ltb 0 (length rd.messages)))))

unfoldable pub new_ready : Raft → SoftState → HardState → ℕ → Ready
unfolding soft_state soft_equal is_hard_state_equal
new_ready r prev_soft prev_hard prev_snapi = record {
  soft = if soft_equal (soft_state r) prev_soft then none else some (soft_state r);
  hard = if is_hard_state_equal r.hard prev_hard then empty_state else r.hard;
  entries = Log.unstable_ents r.raft_log;
  snapshot =
      if prev_snapi == r.raft_log.snapshot.index then empty_snapshot else r.raft_log.snapshot;
  committed_entries = Log.next_ents r.raft_log;
  messages = r.msgs;
}

-- The variables of `run`; `proposals` says that `propc` is not nil.
pub record Loop : Type 0 where
  pub raft : Raft
  pub lead : ℕ
  pub proposals : Bool
  pub prev_soft : SoftState
  pub prev_hard : HardState
  pub prev_snapi : ℕ

unfoldable pub start_loop : Raft → Loop
unfolding soft_state
start_loop r = record {
  raft = r;
  lead = 0;
  proposals = false;
  prev_soft = soft_state r;
  prev_hard = r.hard;
  prev_snapi = r.raft_log.snapshot.index;
}

unfoldable pub ready : Loop → Ready
unfolding new_ready
ready n = new_ready n.raft n.prev_soft n.prev_hard n.prev_snapi

-- What a round does before its `select`.
unfoldable pub prepare : Loop → Loop
unfolding ready has_leader
prepare n = elim (ready n).soft [
  | none ↦ n
  | some soft ↦
      if n.lead == soft.lead
      then n
      else record n { lead = soft.lead; proposals = has_leader n.raft }
]

-- The cases of the `select`, but for the end of the loop.
pub data Event : Type 0 where
  proposes receives : Message → Event
  compacts : List ℕ → Event
  conf_changes : ConfChangeType → ℕ → Event
  ticks takes_ready : Event

-- A nil channel is never ready.
unfoldable pub is_offered : Loop → Event → Bool
unfolding prepare ready contains_updates
is_offered n (Event.proposes m) = (prepare n).proposals
is_offered n Event.takes_ready = contains_updates (ready n)
is_offered n _ = true

-- The member once its `Ready` has been taken.
unfoldable pub delivered : Raft → Raft
delivered r = record r { raft_log = Log.reset_unstable (Log.reset_next_ents r.raft_log); msgs = [] }

unfoldable pub take_ready : Loop → Loop
unfolding ready delivered is_empty_hard_state is_empty_snap
take_ready n =
    let rd = ready n in
    record n {
      raft = delivered n.raft;
      prev_soft = elim rd.soft [ none ↦ n.prev_soft | some soft ↦ soft ];
      prev_hard = if is_empty_hard_state rd.hard then n.prev_hard else rd.hard;
      prev_snapi = if is_empty_snap rd.snapshot then n.prev_snapi else rd.snapshot.index;
    }

-- The panic on a type of change that is neither has no case here.
abbrev pub apply_conf_change : Raft → ConfChangeType → ℕ → Raft
apply_conf_change r conf_change_add_node id = add_node r id
apply_conf_change r conf_change_remove_node id = remove_node r id

-- The `select` on one event.
unfoldable pub handle : Loop → Event → Result Loop
unfolding step run_tick compact take_ready
handle n (Event.proposes m) = do
  r ← step n.raft (record m { from = n.raft.id })
  ok (record n { raft = r })
handle n (Event.receives m) = do r ← step n.raft m; ok (record n { raft = r })
handle n (Event.compacts d) = do r ← compact n.raft d; ok (record n { raft = r })
handle n (Event.conf_changes t id) = ok (record n { raft = apply_conf_change n.raft t id })
handle n Event.ticks = do r ← run_tick n.raft; ok (record n { raft = r })
handle n Event.takes_ready = ok (take_ready n)

-- One round of the loop.
unfoldable pub round : Loop → Event → Result Loop
unfolding prepare handle
round n e = handle (prepare n) e
