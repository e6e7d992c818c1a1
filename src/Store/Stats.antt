-- ===== src/Store/Stats.antt =====
-- store/stats.go: the counters of the operations. A counter is a natural number: that a uint64 wraps
-- after 2^64 operations is not modelled.
use etcd.Prelude.{ℕ, ◌+◌}

-- The fields that `Inc` knows.
pub data Field : Type 0 where
  set_success set_fail delete_success delete_fail create_success create_fail : Field
  update_success update_fail compare_and_swap_success compare_and_swap_fail : Field
  get_success get_fail expire_count compare_and_delete_success compare_and_delete_fail : Field

pub record Stats : Type 0 where
  pub gets : ℕ
  pub gets_failed : ℕ
  pub sets : ℕ
  pub sets_failed : ℕ
  pub deletes : ℕ
  pub deletes_failed : ℕ
  pub updates : ℕ
  pub updates_failed : ℕ
  pub creates : ℕ
  pub creates_failed : ℕ
  pub swaps : ℕ
  pub swaps_failed : ℕ
  pub compared_deletes : ℕ
  pub compared_deletes_failed : ℕ
  pub expired : ℕ
  pub watchers : ℕ

unfoldable pub new_stats : Stats
new_stats = record {
  gets = 0;
  gets_failed = 0;
  sets = 0;
  sets_failed = 0;
  deletes = 0;
  deletes_failed = 0;
  updates = 0;
  updates_failed = 0;
  creates = 0;
  creates_failed = 0;
  swaps = 0;
  swaps_failed = 0;
  compared_deletes = 0;
  compared_deletes_failed = 0;
  expired = 0;
  watchers = 0;
}

-- The literal lists its values by position, so the last two go to each other's field.
unfoldable pub clone : Stats → Stats
clone s = record {
  gets = s.gets;
  gets_failed = s.gets_failed;
  sets = s.sets;
  sets_failed = s.sets_failed;
  deletes = s.deletes;
  deletes_failed = s.deletes_failed;
  updates = s.updates;
  updates_failed = s.updates_failed;
  creates = s.creates;
  creates_failed = s.creates_failed;
  swaps = s.swaps;
  swaps_failed = s.swaps_failed;
  compared_deletes = s.compared_deletes;
  compared_deletes_failed = s.compared_deletes_failed;
  expired = s.watchers;
  watchers = s.expired;
}

unfoldable pub total_reads : Stats → ℕ
total_reads s = s.gets + s.gets_failed

unfoldable pub total_transactions : Stats → ℕ
total_transactions s =
    s.sets + s.sets_failed + s.deletes + s.deletes_failed + s.swaps + s.swaps_failed
    + s.compared_deletes + s.compared_deletes_failed + s.updates + s.updates_failed

unfoldable pub inc : Field → Stats → Stats
inc set_success s = record s { sets = s.sets + 1 }
inc set_fail s = record s { sets_failed = s.sets_failed + 1 }
inc create_success s = record s { creates = s.creates + 1 }
inc create_fail s = record s { creates_failed = s.creates_failed + 1 }
inc delete_success s = record s { deletes = s.deletes + 1 }
inc delete_fail s = record s { deletes_failed = s.deletes_failed + 1 }
inc get_success s = record s { gets = s.gets + 1 }
inc get_fail s = record s { gets_failed = s.gets_failed + 1 }
inc update_success s = record s { updates = s.updates + 1 }
inc update_fail s = record s { updates_failed = s.updates_failed + 1 }
inc compare_and_swap_success s = record s { swaps = s.swaps + 1 }
inc compare_and_swap_fail s = record s { swaps_failed = s.swaps_failed + 1 }
inc compare_and_delete_success s = record s { compared_deletes = s.compared_deletes + 1 }
inc compare_and_delete_fail s = record s { compared_deletes_failed = s.compared_deletes_failed + 1 }
inc expire_count s = record s { expired = s.expired + 1 }
