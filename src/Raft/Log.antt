-- ===== src/Raft/Log.antt =====
-- raft/log.go: the log of one member.
-- `ents` holds the entries from index `offset` on; the first is only there to be matched against.
-- Slices are values: that `append` may write into an array that an earlier slice still shows is
-- not modelled.
pub mod Bounds
pub mod Matching
pub mod Acceptance
pub mod Branches
pub mod Replication
pub mod Compaction
pub mod Recency
pub mod Slices
pub mod Delivery
mod Tests
use Prim.Native.Nat.{min, max}
use etcd.Prelude.{
  ℕ, suc, ◌+◌, ◌-◌, ◌≡◌, Bool, true, false, not, ◌&&◌, ◌||◌, Option, none, some, List, [], ◌∷◌,
  ◌++◌, ltb, leb, ◌==◌, if◌then◌else◌, length, get_elem?, take, drop, Result, ok, panic, ◌>>=◌,
  conflict_with_committed, first_entry, compact_out_of_bounds, Panic,
}
use etcd.Raft.Pb.{Entry, Snapshot, empty_entry, empty_snapshot}

abbrev pub default_compact_threshold : ℕ
default_compact_threshold = 10000

pub record RaftLog : Type 0 where
  pub ents : List Entry
  pub unstable : ℕ
  pub committed : ℕ
  pub applied : ℕ
  pub offset : ℕ
  pub snapshot : Snapshot
  pub compact_threshold : ℕ

unfoldable pub new_log : RaftLog
new_log = record {
  ents = empty_entry ∷ [];
  unstable = 0;
  committed = 0;
  applied = 0;
  offset = 0;
  snapshot = empty_snapshot;
  compact_threshold = default_compact_threshold;
}

unfoldable pub is_empty : RaftLog → Bool
is_empty l = l.offset == 0 && length l.ents == 1

unfoldable pub load : RaftLog → List Entry → RaftLog
load l ents = record l { ents = ents; unstable = l.offset + length ents }

unfoldable pub last_index : RaftLog → ℕ
last_index l = length l.ents + l.offset - 1

-- i > lastIndex is i + 1 > len(ents) + offset.
unfoldable pub is_out_of_bounds : RaftLog → ℕ → Bool
is_out_of_bounds l i = ltb i l.offset || ltb (length l.ents + l.offset) (i + 1)

unfoldable pub is_out_of_applied_bounds : RaftLog → ℕ → Bool
is_out_of_applied_bounds l i = ltb i l.offset || ltb l.applied i

unfoldable pub at : RaftLog → ℕ → Option Entry
unfolding is_out_of_bounds
at l i = if is_out_of_bounds l i then none else get_elem? l.ents (i - l.offset)

-- Out of bounds is the term -1 of the source.
unfoldable pub term : RaftLog → ℕ → Option ℕ
term l i = elim (at l i) [ none ↦ none | some e ↦ some e.term ]

unfoldable pub slice : RaftLog → ℕ → ℕ → List Entry
unfolding is_out_of_bounds
slice l lo hi =
    if leb hi lo
    then []
    else if is_out_of_bounds l lo || is_out_of_bounds l (hi - 1)
    then []
    else take (hi - lo) (drop (lo - l.offset) l.ents)

-- The entry that the log holds and the entry that the leader sent have one term; -1 has none.
abbrev pub same_term : Option ℕ → Option ℕ → Bool
same_term (some s) (some t) = s == t
same_term (some s) none = false
same_term none t = false

unfoldable pub match_term : RaftLog → ℕ → Option ℕ → Bool
match_term l i t = elim (at l i) [ none ↦ false | some e ↦ same_term (some e.term) t ]

abbrev pub conflicts : Option Entry → Entry → Bool
conflicts none ne = true
conflicts (some oe) ne = not (oe.term == ne.term)

-- `none` is the -1 of the source.
unfoldable pub find_conflict : RaftLog → ℕ → List Entry → Option ℕ
find_conflict l from [] = none
find_conflict l from (ne ∷ ents) =
    if conflicts (at l from) ne then some from else find_conflict l (from + 1) ents

unfoldable pub append : RaftLog → ℕ → List Entry → RaftLog × ℕ
append l after ents =
    let l' : RaftLog = record l {
      ents = slice l l.offset (after + 1) ++ ents;
      unstable = min l.unstable (after + 1);
    } in
    (l', last_index l')

-- The `switch` of `maybeAppend`.
unfoldable pub reconcile : RaftLog → ℕ → List Entry → Option ℕ → Result RaftLog
reconcile l from ents none = ok l
reconcile l from ents (some ci) =
    if leb ci l.committed
    then panic conflict_with_committed
    else ok (append l (ci - 1) (drop (ci - from) ents)).0

unfoldable pub advance_commit : RaftLog → ℕ → RaftLog
advance_commit l committed =
    if ltb l.committed committed then record l { committed = min committed (last_index l) } else l

unfoldable pub maybe_append : RaftLog → ℕ → Option ℕ → ℕ → List Entry → Result (RaftLog × Bool)
unfolding reconcile advance_commit
maybe_append l index log_term committed ents =
    if match_term l index log_term
    then (do
      l' ← reconcile l (index + 1) ents (find_conflict l (index + 1) ents)
      ok (advance_commit l' committed, true))
    else ok (l, false)

unfoldable pub unstable_ents : RaftLog → List Entry
unstable_ents l = slice l l.unstable (last_index l + 1)

unfoldable pub reset_unstable : RaftLog → RaftLog
reset_unstable l = record l { unstable = last_index l + 1 }

unfoldable pub next_ents : RaftLog → List Entry
next_ents l = if ltb l.applied l.committed then slice l (l.applied + 1) (l.committed + 1) else []

unfoldable pub reset_next_ents : RaftLog → RaftLog
reset_next_ents l = if ltb l.applied l.committed then record l { applied = l.committed } else l

unfoldable pub entries : RaftLog → ℕ → Result (List Entry)
entries l i = if i == l.offset then panic first_entry else ok (slice l i (last_index l + 1))

abbrev newer : Entry → ℕ → ℕ → Option ℕ → Bool
newer e last i none = false
newer e last i (some t) = ltb e.term t || (t == e.term && leb last i)

-- A log with no entry at all would be a nil dereference.
unfoldable pub is_up_to_date : RaftLog → ℕ → Option ℕ → Result Bool
is_up_to_date l i t = elim (at l (last_index l)) [
  | none ↦ panic Panic.nil_pointer
  | some e ↦ ok (newer e (last_index l) i t)
]

unfoldable pub maybe_commit : RaftLog → ℕ → ℕ → RaftLog × Bool
maybe_commit l max_index t =
    if ltb l.committed max_index && same_term (term l max_index) (some t)
    then (record l { committed = max_index }, true)
    else (l, false)

unfoldable pub compact : RaftLog → ℕ → Result (RaftLog × ℕ)
unfolding is_out_of_applied_bounds
compact l i =
    if is_out_of_applied_bounds l i
    then panic compact_out_of_bounds
    else (let rest = slice l i (last_index l + 1) in
        ok (record l { ents = rest; unstable = max (i + 1) l.unstable; offset = i }, length rest))

unfoldable pub snap : RaftLog → List ℕ → ℕ → ℕ → List ℕ → RaftLog
snap l d index t nodes = record l {
  snapshot = record { bytes = d; nodes = nodes; index = index; term = t };
}

unfoldable pub should_compact : RaftLog → Bool
should_compact l = ltb (l.compact_threshold + l.offset) l.applied

unfoldable pub restore : RaftLog → Snapshot → RaftLog
restore l s = record l {
  ents = record empty_entry { term = s.term } ∷ [];
  unstable = s.index + 1;
  committed = s.index;
  applied = s.index;
  offset = s.index;
  snapshot = s;
}
