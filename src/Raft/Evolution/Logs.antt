-- ===== src/Raft/Evolution/Logs.antt =====
-- raft/log.go: the operations of the log that a member calls, as steps of its evolution.
use etcd.Prelude.{ok, subst, ◌≡◌, ℕ, ◌+◌, ◌-◌, ◌<◌, refl, List, arith, length, inl, inr}
use etcd.Raft.Pb.{Entry, Snapshot}
use etcd.Raft.Log
use etcd.Raft.Log.{RaftLog, at, last_index}
use etcd.Raft.Log.Bounds.{
  IsWf, append-IsWf, reset_unstable-IsWf, reset_next_ents-IsWf, maybe_commit_cases,
}
use etcd.Raft.Log.Compaction.{compact_exact}
use etcd.Raft.Log.Acceptance.{Extends}
use etcd.Raft.Log.Matching.{at-append}
use etcd.Raft.Evolution.{LogEvolves, LogEvolves-refl}

pub Extends-LogEvolves :
    {l l' : RaftLog} {from : ℕ} {es : List Entry} → Extends l l' from es → LogEvolves l l'
Extends-LogEvolves x = record {
  committed = x.commit;
  offset = omega (arith, x.offset);
  applied = omega (arith, x.applied);
  kept = λ i h k. x.kept i k;
}

-- An append behind the last entry.
module _ (l : RaftLog) (es : List Entry) (v : IsWf l) where
  pub append_last-IsWf : IsWf (Log.append l (last_index l) es).0
  append_last-IsWf =
      append-IsWf l (last_index l) es v (unfold last_index in omega arith)
        (unfold last_index in omega arith)

  pub append_last-LogEvolves : LogEvolves l (Log.append l (last_index l) es).0
  append_last-LogEvolves = record {
    committed = unfold Log.append in omega arith;
    offset = unfold Log.append in omega arith;
    applied = unfold Log.append in omega arith;
    kept = λ i h k.
        unfold last_index in ground (arith, at-append l (length l.ents + l.offset - 1) i es);
  }

pub maybe_commit-LogEvolves : (l : RaftLog) (m t : ℕ) → LogEvolves l (Log.maybe_commit l m t).0
maybe_commit-LogEvolves l m t = elim (maybe_commit_cases l m t) [
  | inl (e, above, _) ↦ rw e (record {
    committed = omega arith;
    offset = omega arith;
    applied = omega arith;
    kept = λ i h k. unfold at in refl;
  })
  | inr (e, _) ↦ rw e (LogEvolves-refl l)
]

pub restore-LogEvolves :
    (l : RaftLog) (s : Snapshot) → IsWf l → l.committed < s.index → LogEvolves l (Log.restore l s)
unfolding Log.restore
restore-LogEvolves l s v h = record {
  committed = omega arith;
  offset = omega arith;
  applied = omega arith;
  kept = λ i g k. absurd (omega arith);
}

pub snap-LogEvolves :
    (l : RaftLog) (d : List ℕ) (i t : ℕ) (ns : List ℕ) → LogEvolves l (Log.snap l d i t ns)
unfolding Log.snap
snap-LogEvolves l d i t ns = record {
  committed = omega arith;
  offset = omega arith;
  applied = omega arith;
  kept = λ j h k. unfold at in refl;
}

pub compact-LogEvolves :
    (l l' : RaftLog) (i n : ℕ) → IsWf l → Log.compact l i ≡ ok (l', n) → LogEvolves l l'
compact-LogEvolves l l' i n v h = elim (compact_exact l i v) [
  | inl (_, e) ↦ absurd (cc (e, h))
  | inr (m, k, e, x) ↦
      let same : m ≡ l' = cc (e, h) in
      subst (λ o. LogEvolves l o) same
        (record {
          committed = omega (arith, x.committed);
          offset = omega (arith, x.offset, x.above);
          applied = omega (arith, x.applied);
          kept = λ j g c. ground (arith, x.entries j, x.offset, g);
        })
]

pub delivered-IsWf : (l : RaftLog) → IsWf l → IsWf (Log.reset_unstable (Log.reset_next_ents l))
delivered-IsWf l v = reset_unstable-IsWf (Log.reset_next_ents l) (reset_next_ents-IsWf l v)

pub delivered-LogEvolves :
    (l : RaftLog) → IsWf l → LogEvolves l (Log.reset_unstable (Log.reset_next_ents l))
unfolding Log.reset_unstable Log.reset_next_ents
delivered-LogEvolves l v = record {
  committed = ground arith;
  offset = ground arith;
  applied = ground arith;
  kept = λ j h k. unfold at in ground arith;
}
