-- ===== src/Raft/Node/Restart.antt =====
-- raft/node.go: `RestartNode`, from what the storage holds.
use etcd.Prelude.{
  subst, inr, inl, Bool-cases, ℕ, ◌+◌, ◌≤◌, ◌≡◌, ◌≢◌, refl, ap, List, [], ◌∷◌, Option, none, some,
  arith, ok, leb, length, ◌==◌,
}
use etcd.Raft.Pb.{Entry, Snapshot, HardState}
use etcd.Raft.Log
use etcd.Raft.Log.{RaftLog}
use etcd.Raft.Machine.{Raft, become_follower}
use etcd.Raft.Step.{restore, restore_nodes, set_progress}
use etcd.Raft.Member.{new_raft, initial_raft, load_ents, load_state, restart}
use etcd.Raft.Evolution.{IsValid}
use etcd.Raft.Evolution.Handlers.{restore-Evolves}
use etcd.Raft.Node.Run.{new_raft-IsValid}

-- The log of a member that has nothing yet begins at index 0; that of a snapshot at its index.
abbrev pub first_index : Option Snapshot → ℕ
first_index none = 0
first_index (some s) = s.index

restore_nodes-raft_log : (ns : List ℕ) (r : Raft) → (restore_nodes r ns).raft_log ≡ r.raft_log
unfolding restore_nodes set_progress
restore_nodes-raft_log [] r = refl
restore_nodes-raft_log (n ∷ ns) r = restore_nodes-raft_log ns _

-- The log starts, and is applied, just up to index `i`.
record StartsAt (r : Raft) (i : ℕ) : Type 0 where
  offset : r.raft_log.offset ≡ i
  applied : r.raft_log.applied ≡ i
  committed : r.raft_log.committed ≡ i

restore-StartsAt : (r : Raft) (s : Snapshot) → StartsAt r 0 → StartsAt (restore r s).0 s.index
restore-StartsAt r s z = elim (Bool-cases (leb s.index r.raft_log.committed)) [
  | inl old ↦
      let none_yet : s.index ≡ 0 = ground (arith, old, z.committed) in
      unfold restore in
      rw old (record {
        offset = omega (arith, z.offset);
        applied = omega (arith, z.applied);
        committed = omega (arith, z.committed);
      })
  | inr new ↦
      let same =
        restore_nodes-raft_log s.nodes
          (record r { raft_log = Log.restore r.raft_log s; prs = [] }) in
      unfold restore in
      rw new (
        unfold Log.restore in
        record {
          offset = ap (λ l. l.offset) same;
          applied = ap (λ l. l.applied) same;
          committed = ap (λ l. l.committed) same;
        })
]

-- The state and the entries that are loaded, on top of a valid member whose log starts at `i`.
loaded-IsValid :
    (r : Raft) (i : ℕ) (st : HardState) (ents : List Entry)
    → IsValid r
    → StartsAt r i
    → 1 ≤ length ents
    → i ≤ st.commit
    → st.commit + 1 ≤ length ents + i
    → IsValid (load_ents (load_state r st) ents)
unfolding load_ents load_state Log.load
loaded-IsValid r i st ents v z h low high = record {
  log = record {
    nonempty = h;
    compacted = omega (arith, z.offset, z.applied);
    ordered = omega (arith, z.applied);
    within = omega (arith, z.offset);
    stable = omega arith;
  };
  next = v.next;
  handler = v.handler;
  clock = v.clock;
  leads = v.leads;
}

first-StartsAt :
    (id : ℕ) (peers : List ℕ) (election heartbeat : ℕ)
    → StartsAt (become_follower (initial_raft id peers election heartbeat) 0 0) 0
unfolding initial_raft become_follower
first-StartsAt id peers election heartbeat = record {
  offset = refl;
  applied = refl;
  committed = refl;
}

new_raft-StartsAt :
    (id : ℕ) (peers : List ℕ) (election heartbeat : ℕ) (r : Raft)
    → new_raft id peers election heartbeat ≡ ok r
    → StartsAt r 0
new_raft-StartsAt id peers election heartbeat r h = elim (Bool-cases (id == 0)) [
  | inl z ↦ absurd (unfold new_raft in ground (arith, z, h))
  | inr n ↦
      let same : become_follower (initial_raft id peers election heartbeat) 0 0 ≡ r =
        unfold new_raft in ground (arith, n, h) in
      subst (λ s. StartsAt s 0) same (first-StartsAt id peers election heartbeat)
]

-- A member with an id other than 0 restarts, and is valid, from a snapshot, if there is one, from
-- entries of which the first stands at the snapshot's index (at 0 if there is none), and from a
-- state whose commit index lies between that index and the last of the entries. It has the term, the
-- vote and the commit index of this state, and these entries.
pub restart-IsValid :
    (id : ℕ) (peers : List ℕ) (election heartbeat : ℕ) (snapshot : Option Snapshot) (st : HardState)
    (ents : List Entry)
    → id ≢ 0
    → 1 ≤ length ents
    → first_index snapshot ≤ st.commit
    → st.commit + 1 ≤ length ents + first_index snapshot
    → (r : Raft) × (restart id peers election heartbeat snapshot st ents ≡ ok r)
      × IsValid r
      × (r.hard ≡ st)
      × (r.raft_log.ents ≡ ents)
restart-IsValid id peers election heartbeat snapshot st ents h some_ents low high =
    let (r, starts, v) = new_raft-IsValid id peers election heartbeat h in
    let z = new_raft-StartsAt id peers election heartbeat r starts in
    from r v z starts snapshot low high
  where
    from :
        (r : Raft)
        → IsValid r
        → StartsAt r 0
        → new_raft id peers election heartbeat ≡ ok r
        → (sn : Option Snapshot) → first_index sn ≤ st.commit
        → st.commit + 1 ≤ length ents + first_index sn
        → (s : Raft) × (restart id peers election heartbeat sn st ents ≡ ok s)
          × IsValid s
          × (s.hard ≡ st)
          × (s.raft_log.ents ≡ ents)
    from r v z e none a b = (
      load_ents (load_state r st) ents,
      unfold restart in rw e refl,
      loaded-IsValid r 0 st ents v z some_ents a b,
      unfold load_ents load_state in refl,
      unfold load_ents Log.load in refl,
    )
    from r v z e (some sn) a b = (
      load_ents (load_state (restore r sn).0 st) ents,
      unfold restart in rw e refl,
      loaded-IsValid (restore r sn).0 sn.index st ents (restore-Evolves r sn v).valid
          (restore-StartsAt r sn z) some_ents a b,
      unfold load_ents load_state in refl,
      unfold load_ents Log.load in refl,
    )
