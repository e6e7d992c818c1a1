-- ===== src/Raft/Log/Branches.antt =====
-- raft/log.go: `maybeAppend`, on every branch.
use etcd.Prelude.{
  inl, inr, false, ℕ, ◌+◌, ◌≤◌, ◌≡◌, true, Option, List, [], arith, Result-cases, ok, Bool-cases,
}
use etcd.Raft.Pb.{Entry}
use etcd.Raft.Log.{RaftLog, find_conflict, reconcile, maybe_append, match_term}

-- When a log refuses a leader's entries, it has no entry of their previous term at `index`, and it is
-- given back as it was.
pub maybe_append_refused :
    (l l' : RaftLog) (index committed : ℕ) (log_term : Option ℕ) (es : List Entry)
    → maybe_append l index log_term committed es ≡ ok (l', false)
    → (match_term l index log_term ≡ false) × (l ≡ l')
maybe_append_refused l l' index committed log_term es h =
    elim (Bool-cases (match_term l index log_term)) [
      | inl t ↦ elim (Result-cases (reconcile l (index + 1) es (find_conflict l (index + 1) es))) [
        | inl (m, r) ↦ absurd (unfold maybe_append in ground (arith, t, r, h))
        | inr (p, r) ↦ absurd (unfold maybe_append in ground (arith, t, r, h))
      ]
      | inr t ↦ (t, unfold maybe_append in ground (arith, t, h))
    ]

-- A match with no entries and no newer commit index changes nothing.
pub maybe_append_empty :
    (l : RaftLog) (index committed : ℕ) (log_term : Option ℕ)
    → match_term l index log_term ≡ true
    → committed ≤ l.committed
    → maybe_append l index log_term committed [] ≡ ok (l, true)
unfolding maybe_append find_conflict
maybe_append_empty l index committed log_term t h = rw t (ground arith)
