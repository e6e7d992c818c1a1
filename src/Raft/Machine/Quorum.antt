-- ===== src/Raft/Machine/Quorum.antt =====
-- raft/raft.go: `q` and `maybeCommit`: what a majority of the members has stored.
use etcd.Prelude.{
  ℕ, suc, ◌+◌, ◌-◌, ◌≤◌, ◌<◌, ◌≡◌, ◌≢◌, refl, inl, inr, ◌⊎◌, Bool, true, false, ◌&&◌, some, List,
  [], ◌∷◌, arith, length, get_elem?, get_elem?-lt, ok, Bool-cases, if◌then◌else◌,
}
use etcd.Prelude.Sort.{
  sort_desc, count_ge, length-sort_desc, count_ge-sort_desc, sort_desc-IsDescending,
  descending_rank,
}
use etcd.Raft.Log
use etcd.Raft.Log.Bounds.{maybe_commit_cases}
use etcd.Raft.Machine.{Raft, Progress, matches, quorum, maybe_commit}

length-matches : (prs : List (ℕ × Progress)) → length (matches prs) ≡ length prs
length-matches [] = refl
length-matches ((i, p) ∷ prs) = omega (arith, length-matches prs)

-- How many members the leader knows to hold the log up to `i`.
abbrev pub replicas : ℕ → Raft → ℕ
replicas i r = count_ge i (matches r.prs)

-- The index that `maybeCommit` reads off.
pub quorum_index :
    (r : Raft)
    → r.prs ≢ []
    → (m : ℕ) × (get_elem? (sort_desc (matches r.prs)) (quorum r - 1) ≡ some m)
      × (quorum r ≤ replicas m r)
      × ((t : ℕ) → m < t → replicas t r < quorum r)
unfolding quorum
quorum_index r h =
    let some_prs : 1 ≤ length r.prs = ground arith in
    let xs = matches r.prs in
    let (m, e) =
      get_elem?-lt (sort_desc xs) (quorum r - 1)
        (omega (arith, length-sort_desc xs, length-matches r.prs)) in
    let (_, many, few) =
      descending_rank _ m (quorum r - 1) (sort_desc xs) (sort_desc-IsDescending xs) e in
    (
      m,
      e,
      omega (arith, count_ge-sort_desc m xs, many),
      λ t g. omega (arith, count_ge-sort_desc t xs, few t g),
    )

-- The state after a commit up to `m`.
abbrev pub commit_at : Raft → ℕ → Raft
commit_at r m = record r { raft_log = record r.raft_log { committed = m } }

-- A leader with members commits exactly by majority: there is one index `m` that a majority of the
-- members has stored, while no higher one is stored by a majority. If `m` is above the commit index
-- and the log's entry at `m` has the current term, the commit index becomes `m` and nothing else
-- changes; else the call changes nothing, for `m` is not above it or has another term.
pub maybe_commit_exact :
    (r : Raft)
    → r.prs ≢ []
    → (m : ℕ) × (quorum r ≤ replicas m r)
      × ((t : ℕ) → m < t → replicas t r < quorum r)
      × ((maybe_commit r ≡ ok (commit_at r m, true))
            × (r.raft_log.committed < m)
            × (Log.term r.raft_log m ≡ some r.hard.term)
          ⊎ (maybe_commit r ≡ ok (r, false))
            × ((m ≤ r.raft_log.committed) ⊎ (Log.term r.raft_log m ≢ some r.hard.term)))
maybe_commit_exact r h = let (m, e, many, few) = quorum_index r h in (m, many, few, outcome m e)
  where
    outcome :
        (m : ℕ)
        → get_elem? (sort_desc (matches r.prs)) (quorum r - 1) ≡ some m
        → (maybe_commit r ≡ ok (commit_at r m, true))
            × (r.raft_log.committed < m)
            × (Log.term r.raft_log m ≡ some r.hard.term)
          ⊎ (maybe_commit r ≡ ok (r, false))
            × ((m ≤ r.raft_log.committed) ⊎ (Log.term r.raft_log m ≢ some r.hard.term))
    outcome m e = elim (maybe_commit_cases r.raft_log m r.hard.term) [
      | inl (c, above, current) ↦ inl (unfold maybe_commit in rw (e, c) refl, above, current)
      | inr (c, why) ↦ inr (unfold maybe_commit in rw (e, c) refl, why)
    ]

-- How many members satisfy a test.
abbrev pub voters : (ℕ → Bool) → List (ℕ × Progress) → ℕ
voters p [] = 0
voters p ((i, _) ∷ prs) = if p i then suc (voters p prs) else voters p prs

pigeonhole :
    (p q : ℕ → Bool) (prs : List (ℕ × Progress))
    → length prs < voters p prs + voters q prs
    → (k : ℕ) × (x : ℕ × Progress) × (get_elem? prs k ≡ some x) × (p x.0 ≡ true) × (q x.0 ≡ true)
pigeonhole p q [] h = absurd (omega arith)
pigeonhole p q ((i, pr) ∷ prs) h = elim (Bool-cases (p i && q i)) [
  | inl both ↦ (0, (i, pr), refl, ground arith, ground arith)
  | inr either ↦ let (k, x, e, a, b) = pigeonhole p q prs (ground arith) in (suc k, x, e, a, b)
]

-- Any two majorities of the members share a member.
pub quorum_overlap :
    (r : Raft) (p q : ℕ → Bool)
    → quorum r ≤ voters p r.prs
    → quorum r ≤ voters q r.prs
    → (k : ℕ) × (x : ℕ × Progress) × (get_elem? r.prs k ≡ some x) × (p x.0 ≡ true) × (q x.0 ≡ true)
unfolding quorum
quorum_overlap r p q h g = pigeonhole p q r.prs (omega arith)
