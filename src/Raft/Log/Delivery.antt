-- ===== src/Raft/Log/Delivery.antt =====
-- raft/log.go: `nextEnts` and `unstableEnts`, and the marks that their readers reset.
use etcd.Prelude.{
  inr, inl, leb, Bool-cases, ℕ, ◌+◌, ◌-◌, ◌≤◌, ◌<◌, ◌≡◌, [], ◌++◌, arith, length, get_elem?,
}
use etcd.Raft.Log.{
  RaftLog, slice, at, next_ents, reset_next_ents, unstable_ents, reset_unstable, last_index,
}
use etcd.Raft.Log.Bounds.{IsWf, length-slice}
use etcd.Raft.Log.Slices.{slice-append, get_elem?-slice}

pub next_ents-eq : (l : RaftLog) → IsWf l → next_ents l ≡ slice l (l.applied + 1) (l.committed + 1)
unfolding next_ents slice
next_ents-eq l v = ground arith

-- In a well-formed log the entries handed out for execution are the entries from applied + 1 to
-- the commit index: with those from any index of the log up to `applied` they make all up to the commit index, the k-th of
-- them is the log's entry at applied + 1 + k, and once the reader has reset the mark none is left.
pub next_ents_exact :
    (l : RaftLog) (a : ℕ)
    → IsWf l
    → l.offset ≤ a
    → a ≤ l.applied
    → (slice l (a + 1) (l.applied + 1) ++ next_ents l ≡ slice l (a + 1) (l.committed + 1))
      × ((k : ℕ)
          → l.applied + k < l.committed
          → get_elem? (next_ents l) k ≡ at l (l.applied + 1 + k))
      × (next_ents (reset_next_ents l) ≡ [])
      × ((reset_next_ents l).applied ≡ l.committed)
next_ents_exact l a v h k = (
  rw (next_ents-eq l v) (
      slice-append l (a + 1) (l.applied + 1) (l.committed + 1) (omega arith) (omega arith)
        (omega arith) (omega arith)),
  λ j g. rw (next_ents-eq l v) (
      get_elem?-slice l (l.applied + 1) (l.committed + 1) j (omega arith) (omega arith)
        (omega arith)),
  unfold next_ents reset_next_ents in ground arith,
  unfold reset_next_ents in ground arith,
)

pub unstable_ents-reset_unstable : (l : RaftLog) → unstable_ents (reset_unstable l) ≡ []
unfolding unstable_ents reset_unstable slice last_index
unstable_ents-reset_unstable l =
    elim (Bool-cases (leb (length l.ents + l.offset - 1 + 1) (length l.ents + l.offset - 1 + 1))) [
      | inl e ↦ ground (arith, e)
      | inr e ↦ ground (arith, e)
    ]

-- In a well-formed log that has not been compacted past its unstable mark, there are as many
-- unstable entries as indexes from the mark to the last index, the k-th of them is the log's entry
-- at the mark + k, and once the reader has reset the mark none is left.
pub unstable_ents_exact :
    (l : RaftLog)
    → IsWf l
    → l.offset ≤ l.unstable
    → (length (unstable_ents l) ≡ last_index l + 1 - l.unstable)
      × ((k : ℕ)
          → l.unstable + k ≤ last_index l
          → get_elem? (unstable_ents l) k ≡ at l (l.unstable + k))
      × (unstable_ents (reset_unstable l) ≡ [])
unfolding last_index
unstable_ents_exact l v h = (
  unfold unstable_ents in
      length-slice l l.unstable (length l.ents + l.offset - 1 + 1) h (omega arith),
  λ k g.
      unfold unstable_ents in
      get_elem?-slice l l.unstable (length l.ents + l.offset - 1 + 1) k h (omega arith)
        (omega arith),
  unfold unstable_ents reset_unstable slice in ground arith,
)
