-- ===== src/Raft/Log/Compaction.antt =====
-- raft/log.go: `compact` drops a prefix and changes no entry that stays.
use Prim.Native.Nat.{max}
use etcd.Prelude.{
  ℕ, ◌+◌, ◌-◌, ◌≤◌, ◌<◌, ◌≡◌, refl, ◌⊎◌, inl, inr, arith, length, ltb, ltb→ge, ltb→lt, ok, panic,
  Bool-cases, compact_out_of_bounds, get_elem?-drop, if◌then◌else◌, none, ◌||◌,
}
use etcd.Raft.Log.{RaftLog, slice, at, compact, last_index}
use etcd.Raft.Log.Bounds.{IsWf, length-slice, at-eq, at_below, compact-IsWf}
use etcd.Raft.Log.Slices.{slice_to_end}

-- The log that `compact` leaves.
abbrev compacted : RaftLog → ℕ → RaftLog
compacted l i = record l {
  ents = slice l i (last_index l + 1);
  unstable = max (i + 1) l.unstable;
  offset = i;
}

module _ (l : RaftLog) (i : ℕ) (h : l.offset ≤ i) (k : i < length l.ents + l.offset) where
  last_index-compacted : last_index (compacted l i) ≡ last_index l
  unfolding last_index
  last_index-compacted = omega (arith, length-slice l i (length l.ents + l.offset - 1 + 1))

  at-compacted : (j : ℕ) → at (compacted l i) j ≡ (if ltb j i then none else at l j)
  at-compacted j = elim (Bool-cases (ltb j i)) [
    | inl low ↦ rw (low, at_below (compacted l i) j (ltb→lt j i low)) refl
    | inr high ↦
        rw
          (
            high,
            at-eq (compacted l i) j (ltb→ge j i high),
            slice_to_end l i h k,
            at-eq l j (omega (arith, ltb→ge j i high)),
          )
          (get_elem?-drop (i - l.offset) l.ents (j - i) (j - l.offset)
            (omega (arith, ltb→ge j i high)))
  ]

-- What a compaction at `i` leaves: a well-formed log that starts at `i`, with the same entries from
-- there on and none before, the same last, commit and applied index, and `n` entries.
pub record IsCompacted (l : RaftLog) (i : ℕ) (l' : RaftLog) (n : ℕ) : Type 0 where
  pub above : l.offset ≤ i
  pub below : i ≤ l.applied
  pub wf : IsWf l'
  pub offset : l'.offset ≡ i
  pub size : n ≡ length l'.ents
  pub last : last_index l' ≡ last_index l
  pub committed : l'.committed ≡ l.committed
  pub applied : l'.applied ≡ l.applied
  pub entries : (j : ℕ) → at l' j ≡ (if ltb j i then none else at l j)

-- Compacting a well-formed log at `i` panics when `i` is out of the range from the offset to the
-- applied index. Else it leaves a well-formed log that starts at `i`, has the entries from `i` on
-- unchanged and none before, the same last, commit and applied index, and as many entries as the
-- number that is returned.
pub compact_exact :
    (l : RaftLog) (i : ℕ)
    → IsWf l
    → ((i < l.offset) ⊎ (l.applied < i)) × (compact l i ≡ panic compact_out_of_bounds)
      ⊎ ((l' : RaftLog) × (n : ℕ) × (compact l i ≡ ok (l', n)) × IsCompacted l i l' n)
compact_exact l i v = elim (Bool-cases (ltb i l.offset || ltb l.applied i)) [
  | inl out ↦ inl (ground arith, unfold compact in ground arith)
  | inr inside ↦
      let low : l.offset ≤ i = ground arith in
      let high : i < length l.ents + l.offset = ground arith in
      let e : compact l i ≡ ok (compacted l i, length (compacted l i).ents) =
        unfold compact in rw inside refl in
      inr (
        compacted l i,
        length (compacted l i).ents,
        e,
        record {
          above = low;
          below = ground arith;
          wf = compact-IsWf l (compacted l i) i _ v e;
          offset = refl;
          size = refl;
          last = last_index-compacted l i low high;
          committed = refl;
          applied = refl;
          entries = at-compacted l i low high;
        },
      )
]
