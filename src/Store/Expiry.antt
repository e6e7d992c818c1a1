-- ===== src/Store/Expiry.antt =====
-- store/store.go: the loop of DeleteExpiredKeys ends, and what it leaves.
use etcd.Prelude.{
  get_elem?, subst, List, ◌-◌, zero, suc, ◌+◌, ap, ◌∙◌, inl, inr, arith, ltb, Bool-cases,
  Option-cases, Result-cases, ltb→lt, ok-injective, panic, true, false, ◌&&◌, ok, Result, Option,
  ◌≡◌, refl, ◌<◌, ℕ, ◌≤◌, Bool, not, none, some, [], ◌∷◌, ◌++◌, ◌==◌, ◌>>=◌,
}
use etcd.Prelude.Names.{Names}
use etcd.Prelude.Paths.{Text}
use etcd.Prelude.Yields.{Yields, Yields-ok, Yields-if, Yields-bind, Yields-then, Yields-map}
use etcd.Store.Node.{is_dir, Node, kv, dir, Children, childless, child, Fields}
use etcd.Store.TtlHeap
use etcd.Store.Event.{Event}
use etcd.Store.Node.Show.{repr}
use etcd.Store.Stats.{Field, expire_count}
use etcd.Store.Watchers.{notify}
use etcd.Store.Delete.{
  fetch, expire_event, expire_node, tell_deleted, expire, expire_loop, delete_expired_keys,
}
use etcd.Store.TtlHeap.{Item, TtlKeyHeap, len}
use etcd.Store.TtlHeap.Kept.{IsOrdered, remove-IsOrdered, pop-IsOrdered, root_least}
use etcd.Store.TtlHeap.Order.{time, time_of, there_inside}
use etcd.Store.TtlHeap.Length.{pop-HasLen, remove-HasAtMost}
use etcd.Store.State.{announce, count, Place, Store}
use etcd.Store.State.Remove.{
  has_children, is_linked, remove, Callback, call, leave_heap, release, release_children,
}

-- What holds of a heap, and still does where a node has been removed from it, holds of the heap of the
-- store after every operation that removes nodes and tells the watchers.
module _ (P : TtlKeyHeap → Type 0)
    (kept : (at : Names) (h : TtlKeyHeap) → P h → Yields P (TtlHeap.remove at h)) where
  abbrev Holds : Store → Type 0
  Holds s = P s.ttl_key_heap

  call-Holds :
      (callback : Callback) (path : Text) (s : Store)
      → Holds s
      → Yields Holds (call callback path s)
  unfolding call
  call-Holds none path s h = Yields-ok h
  call-Holds (some callback) path s h =
      Yields-then (callback path s.watcher_hub) _ λ wh. Yields-ok h

  leave_heap-Holds :
      (at : Names) (f : Fields) (s : Store) → Holds s → Yields Holds (leave_heap at f s)
  unfolding leave_heap
  leave_heap-Holds at f s h =
      Yields-if (not (f.expire_time == 0))
        (Yields-bind (TtlHeap.remove at s.ttl_key_heap) _ (kept at s.ttl_key_heap h)
          λ heap still. Yields-ok still)
        (Yields-ok h)

  gone-Holds :
      (callback : Callback) (at : Names) (f : Fields) (s : Store)
      → Holds s
      → Yields Holds (call callback f.path s >>= leave_heap at f)
  gone-Holds callback at f s h =
      Yields-bind (call callback f.path s) (leave_heap at f) (call-Holds callback f.path s h)
        λ called still. leave_heap-Holds at f called still

  mutual
    unfolding release

    release-Holds :
        (callback : Callback) (at : Names) (linked : Bool) (node : Node) (s : Store)
        → Holds s
        → Yields Holds (release callback at linked node s)
    release-Holds callback at linked (kv f) s h = gone-Holds callback at f s h
    release-Holds callback at linked (dir f cs) s h =
        Yields-bind (release_children callback at cs s) _
          (release_children-Holds callback at cs s h)
          λ below still. Yields-if linked (gone-Holds callback at f below still) (Yields-ok still)

    release_children-Holds :
        (callback : Callback) (at : Names) (cs : Children) (s : Store)
        → Holds s
        → Yields Holds (release_children callback at cs s)
    release_children-Holds callback at childless s h = Yields-ok h
    release_children-Holds callback at (child key node cs) s h =
        Yields-bind (release callback (at ++ key ∷ []) _ node s) _
          (release-Holds callback (at ++ key ∷ []) _ node s h)
          λ next still. release_children-Holds callback at cs next still

  remove-Holds :
      (place : Place) (may_be_dir recursive : Bool) (callback : Callback) (s : Store)
      → Holds s
      → Yields (λ x. Holds x.0) (remove place may_be_dir recursive callback s)
  unfolding remove
  remove-Holds place may_be_dir recursive callback s h =
      let n' = place.node in
      let linked = is_linked place.at n' in
      Yields-if (is_dir n' && not may_be_dir) (Yields-ok h) (
        Yields-if (is_dir n' && has_children n' && not recursive) (Yields-ok h) (
          Yields-bind (release callback place.at linked n' s) _
            (release-Holds callback place.at linked n' s h) λ released still. Yields-ok still))

  announce-Holds :
      (field : Field) (e : Event) (s : Store)
      → Holds s
      → Yields (λ x. Holds x.0) (announce field e s)
  unfolding announce count
  announce-Holds field e s h = Yields-then (notify e s.watcher_hub) _ λ wh. Yields-ok h

  -- A round, where it holds of the heap once the top is popped.
  expire-Holds :
      (now : ℕ) (item : Item) (s : Store)
      → Yields (λ x. P x.0) (TtlHeap.pop s.ttl_key_heap)
      → Yields Holds (expire now item s)
  unfolding expire expire_node
  expire-Holds now item s first = Yields-then (fetch item s) _ λ n.
      Yields-then (repr now false false n) _ λ prev.
        let e = expire_event (s.current_index + 1) n prev in
        Yields-bind (TtlHeap.pop s.ttl_key_heap) _ first λ popped still.
          let started : Store = record s {
            current_index = s.current_index + 1;
            ttl_key_heap = popped.0;
          } in
          let place : Place = record { at = item.at; node = n } in
          Yields-bind (remove place true true (tell_deleted e) started) _
            (remove-Holds place true true (tell_deleted e) started still)
            λ removed still'.
              Yields-bind (announce expire_count e removed.0) _
                (announce-Holds expire_count e removed.0 still') λ told still''. Yields-ok still''

remove_less :
    (at : Names) (h : TtlKeyHeap) (n : ℕ)
    → suc (len h) ≤ n
    → Yields (λ r. suc (len r) ≤ n) (TtlHeap.remove at h)
remove_less at h n less =
    Yields-map (remove-HasAtMost at h (n - 1) (omega arith)) (λ r most. omega (arith, most, less))

-- A round of the loop takes a node from the heap.
expire-less :
    (now : ℕ) (item : Item) (s : Store)
    → Yields (λ next. suc (len next.ttl_key_heap) ≤ len s.ttl_key_heap) (expire now item s)
expire-less now item s =
    expire-Holds (λ h. suc (len h) ≤ len s.ttl_key_heap)
      (λ at h less. remove_less at h (len s.ttl_key_heap) less) now item s
      (Yields-map (pop-HasLen s.ttl_key_heap) (λ x less. omega (arith, less)))

-- A round keeps the order of the heap.
expire-IsOrdered :
    (now : ℕ) (item : Item) (s : Store)
    → IsOrdered s.ttl_key_heap
    → Yields (λ next. IsOrdered next.ttl_key_heap) (expire now item s)
expire-IsOrdered now item s o =
    expire-Holds IsOrdered remove-IsOrdered now item s (pop-IsOrdered s.ttl_key_heap o)

-- No node of the heap is to expire by this time.
pub NothingDue : ℕ → Store → Type 0
NothingDue cutoff s =
    (i : ℕ) (item : Item) → get_elem? s.ttl_key_heap.array i ≡ some item → cutoff < item.expire_time

-- Where the loop ends, and what holds of the store that it leaves.
pub EndsIn : (Store → Type 0) → Option (Result Store) → Type 0
EndsIn P r = (m : Result Store) × (r ≡ some m) × ((s : Store) → m ≡ ok s → P s)

-- A heap without a top is empty.
empty_later : (cutoff : ℕ) (s : Store) → TtlHeap.top s.ttl_key_heap ≡ none → NothingDue cutoff s
unfolding NothingDue TtlHeap.top
empty_later cutoff s empty i item there = nothing_there s.ttl_key_heap.array empty there
  where
    nothing_there :
        (xs : List Item)
        → get_elem? xs 0 ≡ none
        → get_elem? xs i ≡ some item
        → cutoff < item.expire_time
    nothing_there [] e t = cc
    nothing_there (x ∷ xs) e t = cc

time_is :
    (h : TtlKeyHeap) (i : ℕ) (item : Item)
    → get_elem? h.array i ≡ some item
    → time h i ≡ item.expire_time
time_is h i item there = ap time_of there

-- In a heap in order whose top is not due nothing is.
top_later :
    (cutoff : ℕ) (s : Store) (first : Item)
    → IsOrdered s.ttl_key_heap
    → TtlHeap.top s.ttl_key_heap ≡ some first
    → cutoff < first.expire_time
    → NothingDue cutoff s
unfolding NothingDue TtlHeap.top
top_later cutoff s first o top_is later i item there =
    let least = root_least s.ttl_key_heap i o (there_inside s.ttl_key_heap.array i item there) in
    omega (
      arith,
      later,
      time_is s.ttl_key_heap 0 first top_is,
      time_is s.ttl_key_heap i item there,
      least,
    )

loop_ends :
    (fuel now cutoff : ℕ) (s : Store)
    → len s.ttl_key_heap < fuel
    → IsOrdered s.ttl_key_heap
    → EndsIn (NothingDue cutoff) (expire_loop fuel now cutoff s)
unfolding EndsIn
loop_ends zero now cutoff s h o = elim h [ ]
loop_ends (suc fuel) now cutoff s h o = elim (Option-cases (TtlHeap.top s.ttl_key_heap)) [
  | inl empty ↦ (
    ok s,
    unfold expire_loop in rw (expire_loop, empty) refl,
    λ s' e. subst (NothingDue cutoff) (ok-injective e) (empty_later cutoff s empty),
  )
  | inr (item, top_is) ↦ elim (Bool-cases (ltb cutoff item.expire_time)) [
    | inl later ↦ (
      ok s,
      unfold expire_loop in rw (expire_loop, top_is, later) refl,
      λ s' e.
          subst (NothingDue cutoff) (ok-injective e)
            (top_later cutoff s item o top_is (ltb→lt cutoff item.expire_time later)),
    )
    | inr due ↦ elim (Result-cases (expire now item s)) [
      | inr (p, panics) ↦
          (panic p, unfold expire_loop in rw (expire_loop, top_is, due, panics) refl, λ s' e. cc)
      | inl (next, gives) ↦
          let less = (expire-less now item s).value next gives in
          let o' = (expire-IsOrdered now item s o).value next gives in
          let (m, ends, after) = loop_ends fuel now cutoff next (omega arith) o' in
          let step : expire_loop (suc fuel) now cutoff s ≡ expire_loop fuel now cutoff next =
            unfold expire_loop in rw (expire_loop, top_is, due, gives) refl in
          (m, step ∙ ends, after)
    ]
  ]
]

-- DeleteExpiredKeys ends, on every store whose heap is in order: the number of nodes in the heap
-- bounds its rounds. Where it does not panic, every node that is left in the heap expires after the
-- cutoff.
pub delete_expired_keys_ends :
    (now cutoff : ℕ) (s : Store)
    → IsOrdered s.ttl_key_heap
    → EndsIn (NothingDue cutoff) (delete_expired_keys now cutoff s)
unfolding delete_expired_keys
delete_expired_keys_ends now cutoff s o =
    loop_ends (suc (len s.ttl_key_heap)) now cutoff s (omega arith) o
