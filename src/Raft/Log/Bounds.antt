-- ===== src/Raft/Log/Bounds.antt =====
-- raft/log.go: the order of the log's positions, and that every operation keeps it.
use etcd.Prelude.{
  Option, ℕ, ◌+◌, ◌-◌, ◌≤◌, ◌<◌, ◌≡◌, ◌≢◌, ◌↔◌, refl, inl, inr, ◌⊎◌, none, some, List, arith, true,
  false, ltb, leb, length, get_elem?, take, drop, length-append, length-take, length-drop, ok,
  Bool-cases, get_elem?-ge, get_elem?-lt,
}
use etcd.Raft.Pb.{Entry, Snapshot}
use etcd.Raft.Log.{
  same_term, RaftLog, new_log, last_index, at, slice, append, advance_commit, reset_unstable,
  reset_next_ents, maybe_commit, compact, restore, term,
}

-- The positions in order: offset ≤ applied ≤ committed ≤ the last index, none of them past the log.
pub record IsWf (l : RaftLog) : Type 0 where
  pub nonempty : 1 ≤ length l.ents
  pub compacted : l.offset ≤ l.applied
  pub ordered : l.applied ≤ l.committed
  pub within : l.committed + 1 ≤ length l.ents + l.offset
  pub stable : l.unstable ≤ length l.ents + l.offset

-- What `slice` returns within bounds.
pub slice-eq :
    (l : RaftLog) (lo hi : ℕ)
    → l.offset ≤ lo
    → lo ≤ hi
    → hi ≤ length l.ents + l.offset
    → slice l lo hi ≡ take (hi - lo) (drop (lo - l.offset) l.ents)
unfolding slice
slice-eq l lo hi a b c = elim (Bool-cases (leb hi lo)) [
  | inl e ↦ let z : hi - lo ≡ 0 = ground arith in rw (e, z) refl
  | inr e ↦ ground arith
]

pub at-eq : (l : RaftLog) (i : ℕ) → l.offset ≤ i → at l i ≡ get_elem? l.ents (i - l.offset)
unfolding at
at-eq l i h = ground (arith, get_elem?-ge l.ents (i - l.offset))

pub length-slice :
    (l : RaftLog) (lo hi : ℕ)
    → l.offset ≤ lo
    → hi ≤ length l.ents + l.offset
    → length (slice l lo hi) ≡ hi - lo
unfolding slice
length-slice l lo hi a b =
    ground (
      arith,
      length-take (hi - lo) (drop (lo - l.offset) l.ents),
      length-drop (lo - l.offset) l.ents,
    )

-- Past the end there is nothing.
pub at-lt : (l : RaftLog) (i : ℕ) {e : Entry} → at l i ≡ some e → i < length l.ents + l.offset
unfolding at
at-lt l i h = ground arith

pub at-ge : (l : RaftLog) (i : ℕ) {e : Entry} → at l i ≡ some e → l.offset ≤ i
unfolding at
at-ge l i h = ground arith

pub at_below : (l : RaftLog) (i : ℕ) → i < l.offset → at l i ≡ none
unfolding at
at_below l i h = ground arith

pub at_within :
    (l : RaftLog) (i : ℕ)
    → l.offset ≤ i
    → i < length l.ents + l.offset
    → (e : Entry) × (at l i ≡ some e)
at_within l i h k = rw (at-eq l i h) (get_elem?-lt l.ents (i - l.offset) (omega arith))

pub term-of-at : (l m : RaftLog) (i j : ℕ) → at l i ≡ at m j → term l i ≡ term m j
unfolding term
term-of-at l m i j h = ground arith

pub at_cases :
    (l : RaftLog) (i : ℕ) → (at l i ≡ none) ⊎ ((l.offset ≤ i) × (i < length l.ents + l.offset))
unfolding at
at_cases l i = ground arith

pub new_log-IsWf : IsWf new_log
unfolding new_log
new_log-IsWf = omega arith

pub append-IsWf :
    (l : RaftLog) (after : ℕ) (es : List Entry)
    → IsWf l
    → l.committed ≤ after
    → after + 1 ≤ length l.ents + l.offset
    → IsWf (append l after es).0
unfolding append
append-IsWf l after es v h k =
    omega
      (arith, length-append (slice l l.offset (after + 1)) es, length-slice l l.offset (after + 1))

pub advance_commit-IsWf : (l : RaftLog) (c : ℕ) → IsWf l → IsWf (advance_commit l c)
unfolding advance_commit last_index
advance_commit-IsWf l c v = ground arith

pub maybe_commit-IsWf : (l : RaftLog) (i t : ℕ) → IsWf l → IsWf (maybe_commit l i t).0
unfolding maybe_commit term
maybe_commit-IsWf l i t v = ground (arith, at_cases l i)

pub compact-IsWf : (l l' : RaftLog) (i n : ℕ) → IsWf l → compact l i ≡ ok (l', n) → IsWf l'
unfolding compact last_index
compact-IsWf l l' i n v h = ground (arith, length-slice l i (length l.ents + l.offset - 1 + 1))

pub reset_unstable-IsWf : (l : RaftLog) → IsWf l → IsWf (reset_unstable l)
unfolding reset_unstable last_index
reset_unstable-IsWf l v = omega arith

pub reset_next_ents-IsWf : (l : RaftLog) → IsWf l → IsWf (reset_next_ents l)
unfolding reset_next_ents
reset_next_ents-IsWf l v = ground arith

pub restore-IsWf : (l : RaftLog) (s : Snapshot) → IsWf (restore l s)
unfolding restore
restore-IsWf l s = omega arith

pub same_term_self : (o : Option ℕ) (t : ℕ) → (same_term o (some t) ≡ true) ↔ (o ≡ some t)
same_term_self none t = (λ h. cc, λ h. cc)
same_term_self (some s) t = (λ h. ground arith, λ h. ground arith)

pub maybe_commit_cases :
    (l : RaftLog) (m t : ℕ)
    → (maybe_commit l m t ≡ (record l { committed = m }, true))
        × (l.committed < m)
        × (term l m ≡ some t)
      ⊎ (maybe_commit l m t ≡ (l, false)) × ((m ≤ l.committed) ⊎ (term l m ≢ some t))
maybe_commit_cases l m t = elim (Bool-cases (ltb l.committed m)) [
  | inl above ↦ elim (Bool-cases (same_term (term l m) (some t))) [
    | inl s ↦
        inl (
          unfold maybe_commit in rw (above, s) refl,
          ground arith,
          (same_term_self (term l m) t).0 s,
        )
    | inr s ↦ inr (
      unfold maybe_commit in rw (above, s) refl,
      inr (λ h. let y = (same_term_self (term l m) t).1 h in cc (y, s)),
    )
  ]
  | inr below ↦ inr (unfold maybe_commit in rw below refl, inl (ground arith))
]
