-- ===== src/EtcdError/Tests.antt =====
-- error/error.go: two errors, and the theorem on the status at one of them.
use etcd.Prelude.{◌≤◌, ◌<◌, ◌≡◌, ◌↔◌, refl, []}
use etcd.EtcdError.{Error, status, new_error, ecode_leader_elect}
use etcd.EtcdError.Status.{status_internal}

abbrev electing : Error
electing = record {
  error_code = ecode_leader_elect;
  text = "During Leader Election";
  cause = [];
  index = 7;
}

makes : new_error ecode_leader_elect [] 7 ≡ electing
unfolding new_error
makes = refl

status_internal_example : (status electing ≡ 500) ↔ (300 ≤ 301) × (301 < 400)
status_internal_example = status_internal electing
