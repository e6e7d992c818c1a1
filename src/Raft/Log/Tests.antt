-- ===== src/Raft/Log/Tests.antt =====
-- raft/log.go: runs on small logs, and the theorems on the log at these runs.
use etcd.Raft.Samples.{
  replaced-IsWf, entry, local, incoming, replaced, executed, local-IsWf, executed-IsWf,
}
use etcd.Raft.Log.Replication.{replicates}
use etcd.Prelude.{
  none, ◌<◌, compact_out_of_bounds, conflict_with_committed, ℕ, ◌+◌, ◌-◌, ◌≤◌, ◌≡◌, ◌≢◌, refl, ◌⊎◌,
  ◌↔◌, Bool, true, false, some, [], ◌∷◌, ◌++◌, length, get_elem?, arith, ok, panic,
}
use etcd.Raft.Pb.{Entry}
use etcd.Raft.Log.{
  entries, RaftLog, last_index, is_out_of_bounds, at, term, slice, match_term, find_conflict,
  append, maybe_append, unstable_ents, reset_unstable, next_ents, reset_next_ents, is_up_to_date,
  compact,
}
use etcd.Raft.Log.Matching.{Agrees, AgreesTo, find_conflict_exact}
use etcd.Raft.Log.Acceptance.{Extends, maybe_append-Extends}
use etcd.Raft.Log.Compaction.{IsCompacted, compact_exact}
use etcd.Raft.Log.Recency.{AtLeast, is_up_to_date_exact}
use etcd.Raft.Log.Delivery.{next_ents_exact, unstable_ents_exact}

conflict : find_conflict local 2 incoming ≡ some 3
unfolding find_conflict at is_out_of_bounds
conflict = refl

accepted : maybe_append local 1 (some 1) 3 incoming ≡ ok (replaced, true)
unfolding maybe_append match_term at find_conflict append slice last_index
accepted = refl

rejected : maybe_append local 3 (some 1) 3 incoming ≡ ok (local, false)
unfolding maybe_append match_term at
rejected = refl

committed_conflict :
    maybe_append local 0 (some 0) 3 (entry 2 1 ∷ []) ≡ panic conflict_with_committed
unfolding maybe_append match_term at find_conflict
committed_conflict = refl

compacted_at_two :
    compact executed 2
    ≡ ok (
      record executed { ents = entry 1 2 ∷ entry 3 3 ∷ entry 3 4 ∷ []; unstable = 3; offset = 2 },
      3,
    )
unfolding compact slice last_index
compacted_at_two = refl

executes : next_ents executed ≡ entry 3 3 ∷ []
unfolding next_ents slice
executes = refl

stores : unstable_ents local ≡ entry 1 2 ∷ entry 2 3 ∷ []
unfolding unstable_ents slice last_index
stores = refl

maybe_append-Extends_example : Extends local replaced 2 incoming
maybe_append-Extends_example =
    maybe_append-Extends local replaced 1 3 (some 1) incoming local-IsWf accepted

find_conflict_exact_example :
    (find_conflict local 2 incoming ≡ none) × Agrees local 2 incoming
    ⊎ ((ci : ℕ) × (find_conflict local 2 incoming ≡ some ci)
        × (2 ≤ ci)
        × (ci < 2 + length incoming)
        × AgreesTo local 2 ci incoming
        × ((e : Entry) × (get_elem? incoming (ci - 2) ≡ some e) × (term local ci ≢ some e.term)))
find_conflict_exact_example = find_conflict_exact local 2 incoming

compact_exact_example :
    ((2 < 0) ⊎ (2 < 2)) × (compact executed 2 ≡ panic compact_out_of_bounds)
    ⊎ ((l' : RaftLog) × (n : ℕ) × (compact executed 2 ≡ ok (l', n)) × IsCompacted executed 2 l' n)
compact_exact_example = compact_exact executed 2 executed-IsWf

is_up_to_date_exact_example :
    (s : ℕ) × (b : Bool) × (term local (last_index local) ≡ some s)
    × (is_up_to_date local 4 (some 2) ≡ ok b)
    × ((b ≡ true) ↔ AtLeast 4 2 (last_index local) s)
is_up_to_date_exact_example = is_up_to_date_exact local 4 2 local-IsWf

next_ents_exact_example :
    (slice executed (0 + 1) (2 + 1) ++ next_ents executed ≡ slice executed (0 + 1) (3 + 1))
    × ((k : ℕ) → 2 + k < 3 → get_elem? (next_ents executed) k ≡ at executed (2 + 1 + k))
    × (next_ents (reset_next_ents executed) ≡ [])
    × ((reset_next_ents executed).applied ≡ 3)
next_ents_exact_example = next_ents_exact executed 0 executed-IsWf (omega arith) (omega arith)

unstable_ents_exact_example :
    (length (unstable_ents local) ≡ last_index local + 1 - 2)
    × ((k : ℕ) → 2 + k ≤ last_index local → get_elem? (unstable_ents local) k ≡ at local (2 + k))
    × (unstable_ents (reset_unstable local) ≡ [])
unstable_ents_exact_example = unstable_ents_exact local local-IsWf (omega arith)

-- A leader that holds the replaced log sends its entries from index 2 on.
sent : entries replaced 2 ≡ ok incoming
unfolding entries slice last_index
sent = refl

received : maybe_append local (2 - 1) (term replaced (2 - 1)) 3 incoming ≡ ok (replaced, true)
unfolding maybe_append match_term at term find_conflict append slice last_index
received = refl

replicates_example : term replaced 3 ≡ term replaced 3
replicates_example =
    replicates replaced local replaced 2 3 3 incoming replaced-IsWf local-IsWf (omega arith) sent
      received (omega arith) (unfold last_index in omega arith)
