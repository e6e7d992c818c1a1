-- ===== src/Raft/Log/Recency.antt =====
-- raft/log.go: `isUpToDate` compares logs by their last entry, term first.
use etcd.Prelude.{ℕ, ◌+◌, ◌-◌, ◌≤◌, ◌<◌, ◌≡◌, refl, ◌⊎◌, ◌↔◌, arith, length, ok, true, some, Bool}
use etcd.Raft.Pb.{Entry}
use etcd.Raft.Log.{RaftLog, at, term, newer, last_index, is_up_to_date}
use etcd.Raft.Log.Bounds.{IsWf, at_within}

-- Index `i` and term `t` are at least as recent as `j` and `s`.
abbrev pub AtLeast : ℕ → ℕ → ℕ → ℕ → Type 0
AtLeast i t j s = (s < t) ⊎ ((t ≡ s) × (j ≤ i))

last_term :
    (l : RaftLog)
    → IsWf l
    → (t : ℕ) × (e : Entry) × (at l (last_index l) ≡ some e)
      × (e.term ≡ t)
      × (term l (last_index l) ≡ some t)
unfolding last_index term
last_term l v =
    let (e, k) = at_within l (length l.ents + l.offset - 1) (omega arith) (omega arith) in
    (e.term, e, k, refl, ground (arith, k))

-- For a well-formed log the test never fails, and says yes exactly when the candidate's last index
-- and term are at least as recent as the log's own: a later term, or the same with no lower index.
pub is_up_to_date_exact :
    (l : RaftLog) (i t : ℕ)
    → IsWf l
    → (s : ℕ) × (b : Bool) × (term l (last_index l) ≡ some s)
      × (is_up_to_date l i (some t) ≡ ok b)
      × ((b ≡ true) ↔ AtLeast i t (last_index l) s)
is_up_to_date_exact l i t v =
    let (s, e, k, z, w) = last_term l v in
    (
      s,
      newer e (last_index l) i (some t),
      w,
      unfold is_up_to_date in ground (arith, k),
      (λ h. ground arith, λ h. ground arith),
    )
