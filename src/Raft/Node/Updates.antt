-- ===== src/Raft/Node/Updates.antt =====
-- raft/node.go: what a `Ready` reports, and that nothing is reported twice.
use etcd.Prelude.{inr, inl, Bool-cases, ◌≡◌, refl, [], arith, true, false, Bool, none}
use etcd.Raft.Pb.{HardState}
use etcd.Raft.Log
use etcd.Raft.Log.Delivery.{unstable_ents-reset_unstable}
use etcd.Raft.Machine.{StateType, state_follower, state_candidate, state_leader}
use etcd.Raft.Node.{
  Loop, SoftState, soft_state, soft_equal, same_state, same_flag, is_hard_state_equal,
  is_empty_hard_state, is_empty_snap, ready, take_ready, contains_updates,
}

same_state_refl : (s : StateType) → same_state s s ≡ true
same_state_refl state_follower = refl
same_state_refl state_candidate = refl
same_state_refl state_leader = refl

same_flag_refl : (b : Bool) → same_flag b b ≡ true
same_flag_refl true = refl
same_flag_refl false = refl

soft_equal_refl : (s : SoftState) → soft_equal s s ≡ true
unfolding soft_equal
soft_equal_refl s = simp (same_state_refl, same_flag_refl) (ground arith)

is_hard_state_equal_refl : (h : HardState) → is_hard_state_equal h h ≡ true
unfolding is_hard_state_equal
is_hard_state_equal_refl h = ground arith

module _ (n : Loop) where
  soft_taken : (ready (take_ready n)).soft ≡ none
  soft_taken = elim (Bool-cases (soft_equal (soft_state n.raft) n.prev_soft)) [
    | inl e ↦ unfold take_ready in ground (arith, e)
    | inr e ↦ unfold take_ready in ground (arith, e, soft_equal_refl (soft_state n.raft))
  ]

  hard_taken : is_empty_hard_state (ready (take_ready n)).hard ≡ true
  hard_taken = unfold take_ready in ground arith

  snapshot_taken : is_empty_snap (ready (take_ready n)).snapshot ≡ true
  snapshot_taken = unfold take_ready Log.reset_unstable Log.reset_next_ents in ground arith

  entries_taken : (ready (take_ready n)).entries ≡ []
  entries_taken =
      unfold take_ready in unstable_ents-reset_unstable (Log.reset_next_ents n.raft.raft_log)

  committed_taken : (ready (take_ready n)).committed_entries ≡ []
  committed_taken =
      unfold take_ready Log.next_ents Log.reset_unstable Log.reset_next_ents in ground arith

  messages_taken : (ready (take_ready n)).messages ≡ []
  messages_taken = unfold take_ready in refl

  -- Once a `Ready` has been taken, the next one reports no update.
  pub taken_once : contains_updates (ready (take_ready n)) ≡ false
  unfolding contains_updates
  taken_once = ground (
    arith, soft_taken, hard_taken, snapshot_taken, entries_taken, committed_taken, messages_taken,
  )
