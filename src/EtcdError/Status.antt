-- ===== src/EtcdError/Status.antt =====
-- error/error.go: which errors are the server's own.
use etcd.Prelude.{◌≤◌, ◌<◌, ◌≡◌, ◌↔◌, arith}
use etcd.EtcdError.{Error, status}

-- An error is answered with the status of an internal error just when its code is one of the 300s,
-- the errors of raft.
pub status_internal : (e : Error) → (status e ≡ 500) ↔ (300 ≤ e.error_code) × (e.error_code < 400)
unfolding status
status_internal e = ground arith
