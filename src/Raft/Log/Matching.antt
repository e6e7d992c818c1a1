-- ===== src/Raft/Log/Matching.antt =====
-- raft/log.go: `append` and `findConflict` against the leader's entries.
use etcd.Prelude.{
  ◌⊎◌, Option-cases, ℕ, zero, suc, ◌+◌, ◌-◌, ◌≤◌, ◌<◌, ◌≡◌, ◌≢◌, refl, inl, inr, none, some, List,
  [], ◌∷◌, ◌++◌, arith, ltb, leb, if◌then◌else◌, length, get_elem?, take, length-take,
  get_elem?-append_left, get_elem?-append_right, get_elem?-take, Bool-cases, ltb→lt, ltb→ge,
}
use etcd.Raft.Pb.{Entry}
use etcd.Raft.Log.{RaftLog, at, term, slice, find_conflict, append, conflicts}
use etcd.Raft.Log.Bounds.{slice-eq, at-eq, at_below, at_cases}

-- The log holds, from index `from` on, an entry of the same term for each entry of the list that
-- stands before index `to`.
abbrev pub AgreesTo : RaftLog → ℕ → ℕ → List Entry → Type 0
AgreesTo l from to es =
    (j : ℕ) (e : Entry) → from + j < to → get_elem? es j ≡ some e → term l (from + j) ≡ some e.term

-- The same of all entries.
abbrev pub Agrees : RaftLog → ℕ → List Entry → Type 0
Agrees l from es = (j : ℕ) (e : Entry) → get_elem? es j ≡ some e → term l (from + j) ≡ some e.term

get_elem?-kept :
    (l : RaftLog) (after i : ℕ) (es : List Entry)
    → l.offset ≤ after
    → after + 1 ≤ length l.ents + l.offset
    → l.offset ≤ i
    → get_elem? (slice l l.offset (after + 1) ++ es) (i - l.offset)
      ≡ (if leb i after then get_elem? l.ents (i - l.offset) else get_elem? es (i - (after + 1)))
get_elem?-kept l after i es h k g =
    rw (slice-eq l l.offset (after + 1) (omega arith) (omega arith) k) (
      let z : l.offset - l.offset ≡ 0 = omega arith in
      rw z (
        ground (
          arith,
          length-take (after + 1 - l.offset) l.ents,
          get_elem?-append_left (take (after + 1 - l.offset) l.ents) es (i - l.offset),
          get_elem?-append_right (take (after + 1 - l.offset) l.ents) es (i - l.offset)
              (i - (after + 1)),
          get_elem?-take (after + 1 - l.offset) l.ents (i - l.offset),
        )))

-- `append` keeps the entries up to `after`, puts the new ones behind it, and drops the rest.
pub at-append :
    (l : RaftLog) (after i : ℕ) (es : List Entry)
    → l.offset ≤ after
    → after + 1 ≤ length l.ents + l.offset
    → at (append l after es).0 i ≡ (if leb i after then at l i else get_elem? es (i - (after + 1)))
unfolding append
at-append l after i es h k = elim (Bool-cases (ltb i l.offset)) [
  | inl low ↦
      rw
        (
          at_below (append l after es).0 i (ltb→lt i l.offset low),
          at_below l i (ltb→lt i l.offset low),
        )
        (ground arith)
  | inr high ↦
      rw
        (at-eq (append l after es).0 i (ltb→ge i l.offset high), at-eq l i (ltb→ge i l.offset high))
        (get_elem?-kept l after i es h k (ltb→ge i l.offset high))
]

pub find_conflict-none :
    (l : RaftLog) (from : ℕ) (es : List Entry) → find_conflict l from es ≡ none → Agrees l from es
unfolding find_conflict term
find_conflict-none l from [] h j e k = cc
find_conflict-none l from (x ∷ es) h zero e k =
    let z : from + 0 ≡ from = omega arith in rw z (ground arith)
find_conflict-none l from (x ∷ es) h (suc j) e k =
    let z : from + suc j ≡ from + 1 + j = omega arith in
    rw z (find_conflict-none l (from + 1) es (ground arith) j e k)

-- The reported conflict lies among the new entries, and everything before it agrees.
pub find_conflict-range :
    (l : RaftLog) (from ci : ℕ) (es : List Entry)
    → find_conflict l from es ≡ some ci
    → (from ≤ ci) × (ci < from + length es)
unfolding find_conflict
find_conflict-range l from ci [] h = cc
find_conflict-range l from ci (x ∷ es) h = ground (arith, find_conflict-range l (from + 1) ci es)

pub find_conflict-some :
    (l : RaftLog) (from ci : ℕ) (es : List Entry)
    → find_conflict l from es ≡ some ci
    → AgreesTo l from ci es
unfolding find_conflict term
find_conflict-some l from ci [] h j e g k = cc
find_conflict-some l from ci (x ∷ es) h zero e g k =
    let z : from + 0 ≡ from = omega arith in rw z (ground arith)
find_conflict-some l from ci (x ∷ es) h (suc j) e g k =
    let z : from + suc j ≡ from + 1 + j = omega arith in
    rw z (find_conflict-some l (from + 1) ci es (ground arith) j e (omega arith) k)

-- When `findConflict` reports an index, there is a leader's entry for that index, and the log has no
-- entry there or one of another term.
pub find_conflict_differs :
    (l : RaftLog) (from ci : ℕ) (es : List Entry)
    → find_conflict l from es ≡ some ci
    → (e : Entry) × (get_elem? es (ci - from) ≡ some e) × (term l ci ≢ some e.term)
unfolding find_conflict term
find_conflict_differs l from ci [] h = cc
find_conflict_differs l from ci (x ∷ es) h = elim (Bool-cases (conflicts (at l from) x)) [
  | inl c ↦
      let first : from ≡ ci = ground arith in
      let z : ci - from ≡ 0 = omega arith in (x, rw z refl, λ k. ground (arith, first, c, k))
  | inr c ↦
      let later : find_conflict l (from + 1) es ≡ some ci = ground (arith, c) in
      let (e, k, d) = find_conflict_differs l (from + 1) ci es later in
      let z : ci - from ≡ suc (ci - (from + 1)) =
        omega (arith, find_conflict-range l (from + 1) ci es later) in
      (e, rw z k, d)
]

-- A conflict comes at most one past the end of the log.
pub find_conflict_within :
    (l : RaftLog) (from ci : ℕ) (es : List Entry)
    → find_conflict l from es ≡ some ci
    → from ≤ length l.ents + l.offset
    → ci ≤ length l.ents + l.offset
unfolding find_conflict
find_conflict_within l from ci [] h k = cc
find_conflict_within l from ci (x ∷ es) h k =
    ground (arith, find_conflict_within l (from + 1) ci es, at_cases l from)

-- Where the log and the leader's entries first differ: nowhere, and then the log has an entry of the
-- same term for each of them; or at an index among them, and then it has an entry of the same term
-- for each one before, and at the index it has none or one of another term.
pub find_conflict_exact :
    (l : RaftLog) (from : ℕ) (es : List Entry)
    → (find_conflict l from es ≡ none) × Agrees l from es
      ⊎ ((ci : ℕ) × (find_conflict l from es ≡ some ci)
          × (from ≤ ci)
          × (ci < from + length es)
          × AgreesTo l from ci es
          × ((e : Entry) × (get_elem? es (ci - from) ≡ some e) × (term l ci ≢ some e.term)))
find_conflict_exact l from es = elim (Option-cases (find_conflict l from es)) [
  | inl e ↦ inl (e, find_conflict-none l from es e)
  | inr (ci, e) ↦
      let (low, high) = find_conflict-range l from ci es e in
      inr
        (ci, e, low, high, find_conflict-some l from ci es e, find_conflict_differs l from ci es e)
]
