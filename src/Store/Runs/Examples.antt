-- ===== src/Store/Runs/Examples.antt =====
-- store/*.go: the theorems of the store at small runs.
use etcd.Prelude.Yields.{Yields}
use etcd.Store.TtlHeap.{len, top, Item, TtlKeyHeap, push, pop, remove, update as update_heap}
use etcd.Store.TtlHeap.Kept.{IsOrdered, heap_keeps_order}
use etcd.Store.TtlHeap.Order.{time}
use etcd.Prelude.{
  some, ℕ, zero, suc, ◌<◌, ◌≤◌, ◌∙◌, sym, ap, ◌⊎◌, ◌>>=◌, true, arith, ◌*◌, ◌≡◌, refl, false, [],
  ◌∷◌, ok,
}
use etcd.EtcdError.{returned}
use etcd.Store.Event.{Event, new_event, set_action}
use etcd.Store.Watchers.{new_watch_hub, WatcherHub, notify_loop, remove_watcher}
use etcd.Prelude.Int.{pos, negsuc}
use etcd.Prelude.Names.{Names, same_names}
use etcd.Prelude.Clean.{segments}
use etcd.Store.Node.{childless, fields}
use etcd.Store.Watchers.Twice.{waiting, counted_twice}
use etcd.Store.State.{new_store, Store}
use etcd.Store.State.Places.{value_at}
use etcd.Store.Get.Reads.{Reads, get-create, get-compare_and_swap}
use etcd.Store.Create.Laws.{Created, NotCreated}
use etcd.Store.Create.Exact.{create_exact}
use etcd.Store.Swap.{update, compare_and_swap}
use etcd.Store.Swap.Laws.{Swapped, NotSwapped, compare_and_swap_exact}
use etcd.Store.Delete.{compare_and_delete, delete_expired_keys}
use etcd.Store.Expiry.{EndsIn, NothingDue, delete_expired_keys_ends}
use etcd.Store.Delete.Exact.{Deleted, NotDeleted, compare_and_delete_exact}
use etcd.Store.Create.{create}
use etcd.Store.Swap.Updates.{Updated, NotUpdated, update_exact}
use etcd.Store.Runs.{
  rewrites, rewritten, rewrites_once, drops, dropped, drops_once, linked_there, file_linked, small,
  path_ab, path_a, x, y, now, event_of, made, with_file, makes, swaps, swapped, swaps_once,
}

create_exact_example :
    Created (segments path_ab) x small with_file (returned (event_of made))
    ⊎ NotCreated small with_file (returned (event_of made))
unfolding create made
create_exact_example =
    create_exact now 0 path_ab x false small with_file (returned (event_of made))
      (fields small.root) childless (unfold small in refl) makes

get-create_example : Reads now path_ab x true true with_file
unfolding create made
get-create_example =
    get-create now now 0 path_ab x true true small with_file (event_of made) (fields small.root)
      childless (unfold small in refl) makes

compare_and_swap_exact_example :
    Swapped (segments path_ab) x 1 y with_file swapped (returned (event_of swaps))
    ⊎ NotSwapped (segments path_ab) x 1 with_file swapped (returned (event_of swaps))
unfolding compare_and_swap swaps
compare_and_swap_exact_example =
    compare_and_swap_exact now 1 (now * 2) path_ab x y with_file swapped (returned (event_of swaps))
      swaps_once

compare_and_delete_exact_example :
    Deleted (segments path_ab) x 1 with_file dropped (returned (event_of drops))
    ⊎ NotDeleted (segments path_ab) x 1 with_file dropped (returned (event_of drops))
unfolding compare_and_delete drops
compare_and_delete_exact_example =
    compare_and_delete_exact now 1 path_ab x with_file dropped (returned (event_of drops))
      (λ f there. sym (ap (linked_there (segments path_ab)) there) ∙ file_linked) drops_once

update_exact_example :
    Updated (segments path_ab) y with_file rewritten (returned (event_of rewrites))
    ⊎ NotUpdated (segments path_ab) y with_file rewritten (returned (event_of rewrites))
unfolding update rewrites
update_exact_example =
    update_exact now (now * 2) path_ab y with_file rewritten (returned (event_of rewrites))
      rewrites_once

get-compare_and_swap_example :
    Reads now path_ab y false false swapped
    × ((q : Names)
        → same_names (segments path_ab) q ≡ false
        → value_at q swapped.root ≡ value_at q with_file.root)
unfolding compare_and_swap swaps
get-compare_and_swap_example =
    get-compare_and_swap now now (now * 2) 1 path_ab x y false false with_file swapped
      (event_of swaps) swaps_once

abbrev item_b : Item
item_b = record { at = (b'b' ∷ []) ∷ []; expire_time = 1 }

-- A heap of two nodes.
abbrev heap_a : TtlKeyHeap
heap_a = record {
  array =
      record { at = (b'a' ∷ []) ∷ []; expire_time = 2 }
      ∷ record { at = (b'b' ∷ []) ∷ []; expire_time = 3 }
      ∷ [];
  key_map = ((b'a' ∷ []) ∷ [], 0) ∷ ((b'b' ∷ []) ∷ [], 1) ∷ [];
}

heap_a-IsOrdered : IsOrdered heap_a
heap_a-IsOrdered zero p q = absurd (omega (arith, p))
heap_a-IsOrdered (suc zero) p q = omega arith
heap_a-IsOrdered (suc (suc c)) p q = absurd (omega (arith, q))

delete_expired_keys_ends_example :
    EndsIn (NothingDue (now * 3)) (delete_expired_keys now (now * 3) swapped)
unfolding swapped etcd.Store.State.full_path
delete_expired_keys_ends_example =
    delete_expired_keys_ends now (now * 3) swapped (λ c p q. absurd (omega (arith, p, q)))

heap_keeps_order_example :
    (r : TtlKeyHeap) × (p : TtlKeyHeap × Item) × ((push item_b heap_a ≡ ok r) × IsOrdered r)
    × ((pop heap_a ≡ ok p) × IsOrdered p.0 × (suc (len p.0) ≡ 2) × (top heap_a ≡ some p.1))
    × Yields IsOrdered (remove item_b.at heap_a)
    × Yields IsOrdered (update_heap item_b heap_a)
    × ((i : ℕ) → i < 2 → time heap_a 0 ≤ time heap_a i)
heap_keeps_order_example = heap_keeps_order item_b item_b.at heap_a heap_a-IsOrdered (omega arith)

abbrev watched : WatcherHub
unfolding new_watch_hub
watched = record (new_watch_hub 2) {
  watchers = (path_a, 0) ∷ [];
  lists = (0 ∷ []) ∷ [];
  table = waiting path_a 0 false 3 ∷ [];
  count = pos 1;
}

abbrev event_a : Event
unfolding new_event
event_a = new_event set_action path_a 3 3

counted_twice_example :
    (u : WatcherHub) × ((notify_loop event_a path_a false 0 (0 ∷ []) watched >>= remove_watcher 0)
      ≡ ok u)
    × (u.count ≡ negsuc 0)
unfolding watched event_a
counted_twice_example =
    counted_twice 0 0 3 false false event_a watched (0 ∷ []) refl refl (omega arith)
