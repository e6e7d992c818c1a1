-- ===== src/Raft/Log/Replication.antt =====
-- raft/log.go: the entries that a leader takes from its log with `entries`, in a follower's log
-- after `maybeAppend`.
use etcd.Prelude.{
  ℕ, ◌+◌, ◌-◌, ◌≤◌, ◌<◌, ◌≡◌, sym, ap, ◌∙◌, some, List, arith, ok, true, length, get_elem?,
}
use etcd.Raft.Pb.{Entry}
use etcd.Raft.Log.{RaftLog, at, term, slice, entries, last_index, maybe_append}
use etcd.Raft.Log.Bounds.{IsWf, at_within}
use etcd.Raft.Log.Slices.{get_elem?-slice}
use etcd.Raft.Log.Acceptance.{maybe_append-Extends}

entries-slice :
    (l : RaftLog) (next : ℕ) (es : List Entry)
    → l.offset < next
    → entries l next ≡ ok es
    → slice l next (last_index l + 1) ≡ es
unfolding entries
entries-slice l next es h e = ground (arith, h, e)

-- Replication, for well-formed logs: when a follower accepts the entries of a leader's log from
-- `next` on, where `next` is above the leader's offset, its log has the leader's term at each index from `next` to the leader's last index.
pub replicates :
    (leader follower follower' : RaftLog) (next committed i : ℕ) (es : List Entry)
    → IsWf leader
    → IsWf follower
    → leader.offset < next
    → entries leader next ≡ ok es
    → maybe_append follower (next - 1) (term leader (next - 1)) committed es ≡ ok (follower', true)
    → next ≤ i
    → i ≤ last_index leader
    → term follower' i ≡ term leader i
unfolding last_index
replicates leader follower follower' next committed i es v w h sent accepted low high =
    let (e, here) = at_within leader i (omega arith) (omega arith) in
    let x =
      maybe_append-Extends follower follower' (next - 1) committed (term leader (next - 1)) es w
        accepted in
    let listed : get_elem? es (i - next) ≡ some e =
      ap (λ k. get_elem? k (i - next)) (sym (entries-slice leader next es h sent))
      ∙ get_elem?-slice leader next (length leader.ents + leader.offset - 1 + 1) (i - next)
          (omega arith) (omega arith) (omega arith)
      ∙ ap (at leader) (omega arith)
      ∙ here in
    let place : next - 1 + 1 + (i - next) ≡ i = omega arith in
    let there : term follower' i ≡ some e.term =
      ap (term follower') (sym place) ∙ x.agrees (i - next) e listed in
    let leaders : term leader i ≡ some e.term = unfold term in ground (arith, here) in
    there ∙ sym leaders
