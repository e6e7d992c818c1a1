-- ===== src/Store/TtlHeap/Kept.antt =====
-- store/ttl_key_heap.go: every operation of the heap keeps its order.
use etcd.Prelude.{
  some, ◌>>=◌, subst, ℕ, zero, suc, ◌-◌, ◌≤◌, ◌<◌, ◌≡◌, ◌≢◌, refl, sym, inl, inr, not, [], ◌∷◌,
  ◌++◌, arith, ◌==◌, if◌then◌else◌, Bool-cases, ok, panic, Panic, take, get_elem?, get_elem?-take,
  get_elem?-append_left, length-append, length-take,
}
use etcd.Prelude.Names.{Names, same_names, lookup}
use etcd.Prelude.Yields.{
  Yields, Yields-ok, Yields-bind, Yields-then, Yields-map, Yields-if, Yields-panic, Yields-option,
}
use etcd.Store.TtlHeap.{
  top, Item, TtlKeyHeap, len, item, swap, up, down, push, push_last, pop, pop_last, remove_index,
  remove, update,
}
use etcd.Store.TtlHeap.Length.{pop-HasLen}
use etcd.Store.TtlHeap.Total.{push_ok, pop_ok}
use etcd.Store.TtlHeap.Top.{pop-top}
use etcd.Store.TtlHeap.Order.{
  time, parent, IsOrderedTo, TooHigh, TooLow, Loose, Exchanged, swap-Exchanged, swapped_len,
}
use etcd.Store.TtlHeap.Sift.{Sifted, down_loop-Sifted, down_loop-TooLow, up_loop-Sifted}

-- No node of the heap expires before its parent.
abbrev pub IsOrdered : TtlKeyHeap → Type 0
IsOrdered h = IsOrderedTo (len h) h

root_least_below :
    (k : ℕ) (h : TtlKeyHeap) (i : ℕ) → IsOrdered h → i < k → i < len h → time h 0 ≤ time h i
root_least_below zero h i o f p = elim f [ ]
root_least_below (suc k) h i o f p = elim (Bool-cases (i == 0)) [
  | inl root ↦
      let e : i ≡ 0 = ground (arith, root) in subst (λ t. time h 0 ≤ time h t) (sym e) (omega arith)
  | inr lower ↦
      let pos : 0 < i = ground (arith, lower) in
      let above = root_least_below k h (parent i) o (omega arith) (omega arith) in
      omega (arith, above, o i pos p)
]

-- In a heap in order no node expires before the one at the top.
pub root_least : (h : TtlKeyHeap) (i : ℕ) → IsOrdered h → i < len h → time h 0 ≤ time h i
root_least h i o p = root_least_below (suc i) h i o (omega arith) p

pop_last-IsOrdered :
    (h : TtlKeyHeap) (k : ℕ)
    → len h ≡ k
    → IsOrderedTo (k - 1) h
    → Yields (λ x. IsOrdered x.0) (pop_last h)
unfolding pop_last
pop_last-IsOrdered h k e o =
    Yields-then (if len h == 0 then panic Panic.index_out_of_range else item h (len h - 1)) _ λ x.
      Yields-ok λ c p q.
        let l = length-take (len h - 1) h.array in
        let inside : c < len h - 1 = omega (arith, l, q) in
        let same : (b : ℕ)
            → b < len h - 1
            → get_elem? (take (len h - 1) h.array) b ≡ get_elem? h.array b =
          λ b r. get_elem?-take (len h - 1) h.array b r in
        rw (same c inside, same (parent c) (omega (arith, inside)))
          (o c p (omega (arith, e, inside)))

-- Two nodes change places, the second one after all others.
swapped_root :
    (h s : TtlKeyHeap) → IsOrdered h → Exchanged 0 (len h - 1) h s → TooHigh (len h - 1) s 0
unfolding Exchanged
swapped_root h s o (same, i_in, j_in, at) = record {
  edges = λ c p q t. ground (arith, at c, at (parent c), o c);
  bridged = λ c p q t r. absurd (omega arith);
}

swapped-Loose :
    (h s : TtlKeyHeap) (i : ℕ)
    → IsOrdered h
    → i ≢ len h - 1
    → Exchanged i (len h - 1) h s
    → Loose (len h - 1) s i
unfolding Exchanged
swapped-Loose h s i o other (same, i_in, j_in, at) = record {
  edges = λ c p q t r. ground (arith, at c, at (parent c), o c);
  bridged = λ c p q t r. ground (arith, at c, at (parent i), o c, o i);
}

swapped_inside :
    (h s : TtlKeyHeap) (i : ℕ) → i ≢ len h - 1 → Exchanged i (len h - 1) h s → i < len h - 1
unfolding Exchanged
swapped_inside h s i other (same, i_in, j_in, at) = ground (arith, i_in, other)

pub pop-IsOrdered : (h : TtlKeyHeap) → IsOrdered h → Yields (λ x. IsOrdered x.0) (pop h)
unfolding pop down
pop-IsOrdered h o = Yields-if (len h == 0) (Yields-panic Panic.index_out_of_range) (
    Yields-bind (swap h 0 (len h - 1)) _ (swap-Exchanged h 0 (len h - 1)) λ s sw.
      Yields-bind (down s 0 (len h - 1)) _
        (down_loop-Sifted (suc (len h - 1)) (len h - 1) 0 (len h) s (omega arith)
          (swapped_len 0 (len h - 1) (len h) h s sw refl) (swapped_root h s o sw))
        λ d sifted. pop_last-IsOrdered d (len h) sifted.0 sifted.1)

-- What `heap.Remove` does before it cuts the last node off.
sifts :
    (h : TtlKeyHeap) (i : ℕ)
    → IsOrdered h
    → Yields (Sifted (len h) (len h - 1)) (
        if not (len h - 1 == i)
        then (do s ← swap h i (len h - 1); d ← down s i (len h - 1); up d i)
        else ok h)
unfolding down up
sifts h i o = elim (Bool-cases (len h - 1 == i)) [
  | inl last ↦ rw last (Yields-ok (refl, λ c p q. o c p (omega arith)))
  | inr other ↦ rw other (
      let n = len h - 1 in
      let apart : i ≢ n = λ e. ground (arith, e, other) in
      Yields-bind (swap h i n) _ (swap-Exchanged h i n) λ s sw.
        let inside = swapped_inside h s i apart sw in
        Yields-bind (down s i n) _
          (down_loop-TooLow (suc n) n i (len h) s (omega arith) inside
            (swapped_len i n (len h) h s sw refl) (swapped-Loose h s i o apart sw))
          λ d low. up_loop-Sifted (suc i) n i (len h) d (omega arith) inside low.0 low.1)
]

remove_index-IsOrdered :
    (h : TtlKeyHeap) (i : ℕ) → IsOrdered h → Yields IsOrdered (remove_index h i)
unfolding remove_index
remove_index-IsOrdered h i o = Yields-if (len h == 0) (Yields-panic Panic.index_out_of_range) (
    Yields-bind _ _ (sifts h i o) λ m sifted.
      Yields-bind (pop_last m) _ (pop_last-IsOrdered m (len h) sifted.0 sifted.1)
        λ x ordered. Yields-ok ordered)

pub remove-IsOrdered : (at : Names) (h : TtlKeyHeap) → IsOrdered h → Yields IsOrdered (remove at h)
unfolding remove
remove-IsOrdered at h o =
    Yields-option (lookup same_names at h.key_map) (Yields-ok o) λ i. remove_index-IsOrdered h i o

-- A node behind all others is only too low.
push_last-TooLow :
    (x : Item) (h : TtlKeyHeap) → IsOrdered h → TooLow (suc (len h)) (push_last x h) (len h)
unfolding push_last
push_last-TooLow x h o =
    let before : (c : ℕ) → c < len h → get_elem? (h.array ++ x ∷ []) c ≡ get_elem? h.array c =
      λ c. get_elem?-append_left h.array (x ∷ []) c in
    record {
      edges = λ c p q t.
          let inside : c < len h = omega arith in
          rw (before c inside, before (parent c) (omega (arith, inside))) (o c p inside);
      bridged = λ c p q t r. absurd (omega arith);
    }

push-IsOrdered : (x : Item) (h : TtlKeyHeap) → IsOrdered h → Yields IsOrdered (push x h)
unfolding push up push_last
push-IsOrdered x h o =
    let l = length-append h.array (x ∷ []) in
    Yields-map
      (up_loop-Sifted (suc (len h)) (suc (len h)) (len h) (suc (len h)) (push_last x h)
        (omega arith) (omega arith) (omega (arith, l)) (push_last-TooLow x h o))
      λ s sifted c p q. sifted.1 c p (omega (arith, sifted.0, q))

update-IsOrdered : (x : Item) (h : TtlKeyHeap) → IsOrdered h → Yields IsOrdered (update x h)
unfolding update
update-IsOrdered x h o = Yields-option (lookup same_names x.at h.key_map) (Yields-ok o) λ i.
    Yields-bind (remove_index h i) _ (remove_index-IsOrdered h i o)
      λ r ordered. push-IsOrdered x r ordered

-- The operations on a heap in order that is not empty. `push` and `pop` do not panic; `pop` takes
-- the node at the top, and no node expires before that one; after both of them the heap is in order,
-- and so it is after `remove` and `update` where these do not panic.
pub heap_keeps_order :
    (x : Item) (at : Names) (h : TtlKeyHeap)
    → IsOrdered h
    → 0 < len h
    → (r : TtlKeyHeap) × (p : TtlKeyHeap × Item) × ((push x h ≡ ok r) × IsOrdered r)
      × ((pop h ≡ ok p) × IsOrdered p.0 × (suc (len p.0) ≡ len h) × (top h ≡ some p.1))
      × Yields IsOrdered (remove at h)
      × Yields IsOrdered (update x h)
      × ((i : ℕ) → i < len h → time h 0 ≤ time h i)
heap_keeps_order x at h o some_left =
    let (r, pushes) = push_ok x h in
    let (p, pops) = pop_ok h some_left in
    (
      r,
      p,
      (pushes, (push-IsOrdered x h o).value r pushes),
      (
        pops,
        (pop-IsOrdered h o).value p pops,
        (pop-HasLen h).value p pops,
        (pop-top h).value p pops,
      ),
      remove-IsOrdered at h o,
      update-IsOrdered x h o,
      λ i. root_least h i o,
    )
