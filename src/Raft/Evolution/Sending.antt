-- ===== src/Raft/Evolution/Sending.antt =====
-- raft/raft.go: `send`, `sendAppend` and the broadcasts change the mailbox only.
use etcd.Prelude.{ℕ, ◌-◌, refl, List, [], ◌∷◌, arith, Result, ok, if◌then◌else◌, ◌==◌}
use etcd.Raft.Pb.{Message}
use etcd.Raft.Log
use etcd.Prelude.Map.{lookup}
use etcd.Raft.Machine.{
  Raft, Progress, send, send_append, send_heartbeat, each_peer, bcast_append, bcast_heartbeat,
  or_nil, need_snapshot,
}
use etcd.Raft.Holds.{Holds-ok, Holds-if, Holds-value}
use etcd.Raft.Evolution.{IsValid, Evolves, Evolves-refl, Ensures, Ensures-bind, Evolves-same_log}

-- Whatever is put into the mailbox.
pub mailbox-Evolves :
    (r : Raft) (ms : List Message) → IsValid r → Evolves r (record r { msgs = ms })
mailbox-Evolves r ms v = Evolves-same_log v refl (omega arith) refl v.next v.handler v.clock v.leads

pub send-Evolves : (r : Raft) (m : Message) → IsValid r → Evolves r (send r m)
unfolding send
send-Evolves r m v = mailbox-Evolves r _ v

pub send_append-Ensures : (r : Raft) (to : ℕ) → IsValid r → Ensures r (send_append r to)
unfolding send_append
send_append-Ensures r to v = Holds-value (or_nil (lookup to r.prs)) _ λ pr _.
    Holds-value (need_snapshot r (pr.next - 1)) _ λ snap _.
      Holds-if snap (Holds-ok (mailbox-Evolves r _ v))
        (Holds-value (Log.entries r.raft_log pr.next) _ λ es _. Holds-ok (mailbox-Evolves r _ v))

pub each_peer-Ensures :
    (f : Raft → ℕ → Result Raft)
    → ((s : Raft) (i : ℕ) → IsValid s → Ensures s (f s i))
    → (r : Raft) (prs : List (ℕ × Progress)) → IsValid r
    → Ensures r (each_peer f r prs)
unfolding each_peer
each_peer-Ensures f ensures r [] v = Holds-ok (Evolves-refl r v)
each_peer-Ensures f ensures r ((i, _) ∷ prs) v =
    Ensures-bind (if i == r.id then ok r else f r i) (λ s. each_peer f s prs)
      (Holds-if (i == r.id) (Holds-ok (Evolves-refl r v)) (ensures r i v))
      λ s e. each_peer-Ensures f ensures s prs e.valid

pub bcast_append-Ensures : (r : Raft) → IsValid r → Ensures r (bcast_append r)
unfolding bcast_append
bcast_append-Ensures r v = each_peer-Ensures send_append send_append-Ensures r r.prs v

pub bcast_heartbeat-Ensures : (r : Raft) → IsValid r → Ensures r (bcast_heartbeat r)
unfolding bcast_heartbeat
bcast_heartbeat-Ensures r v =
    each_peer-Ensures (λ s i. ok (send_heartbeat s i))
      (λ s i w. Holds-ok (unfold send_heartbeat in mailbox-Evolves s _ w)) r r.prs v
