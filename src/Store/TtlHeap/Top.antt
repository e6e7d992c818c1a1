-- ===== src/Store/TtlHeap/Top.antt =====
-- store/ttl_key_heap.go: `pop` gives the node at the top.
use etcd.Prelude.{
  ℕ, zero, suc, ◌+◌, ◌-◌, ◌*◌, ◌≤◌, ◌<◌, ◌≡◌, ◌≢◌, refl, ap, ◌∙◌, sym, inl, inr, not, some, arith,
  leb, ◌==◌, Bool-cases, Panic, get_elem?,
}
use etcd.Prelude.Arrays.{set, length-set, get_elem?-set_same, get_elem?-set_other}
use etcd.Prelude.Yields.{
  Yields, Yields-ok, Yields-bind, Yields-then, Yields-if, Yields-panic, Yields-map, Yields-and,
}
use etcd.Store.TtlHeap.{
  TtlKeyHeap, len, item, less, swap, smaller, down_loop, down, pop_last, pop, top,
}
use etcd.Store.TtlHeap.Length.{down_loop-HasLen}
use etcd.Store.TtlHeap.Order.{item-time, there_inside, smaller-IsSmaller}

-- Two nodes that change places leave the others.
swap-other :
    (h : TtlKeyHeap) (i j c : ℕ)
    → i ≢ c
    → j ≢ c
    → Yields (λ s. get_elem? s.array c ≡ get_elem? h.array c) (swap h i j)
unfolding swap
swap-other h i j c p q = Yields-then (item h j) _ λ y. Yields-then (item h i) _ λ x.
    Yields-ok (get_elem?-set_other (set h.array i y) j c x q ∙ get_elem?-set_other h.array i c y p)

-- `down` moves only nodes of the first `n` positions.
down_loop-other :
    (fuel i n c : ℕ) (h : TtlKeyHeap)
    → n ≤ c
    → Yields (λ s. get_elem? s.array c ≡ get_elem? h.array c) (down_loop fuel h i n)
unfolding down_loop
down_loop-other zero i n c h out = Yields-ok refl
down_loop-other (suc fuel) i n c h out = elim (Bool-cases (leb n (2 * i + 1))) [
  | inl childless ↦ rw childless (Yields-ok refl)
  | inr one ↦ rw one (
      let inside : 2 * i + 1 < n = ground (arith, one) in
      Yields-bind (smaller h (2 * i + 1) n) _ (smaller-IsSmaller n h i inside) λ m sm.
        let m_in = sm.inside in
        Yields-then (less h m i) _ λ below. Yields-if (not below) (Yields-ok refl) (
          Yields-bind (swap h i m) _
            (swap-other h i m c (λ e. ground (arith, e, inside, out))
              (λ e. ground (arith, e, m_in, out)))
            λ s same. Yields-map (down_loop-other fuel m n c s out) (λ r same'. same' ∙ same)))
]

-- The node that was first is last.
swap-last :
    (h : TtlKeyHeap) (j : ℕ)
    → Yields (λ s. (get_elem? s.array j ≡ get_elem? h.array 0) × (len s ≡ len h)) (swap h 0 j)
unfolding swap
swap-last h j = Yields-bind (item h j) _ (item-time h j) λ y q.
    Yields-bind (item h 0) _ (item-time h 0) λ x p.
      let inside = there_inside h.array j y q.1 in
      let same = length-set h.array 0 y in
      Yields-ok (
        get_elem?-set_same (set h.array 0 y) j x (omega (arith, same, inside)) ∙ sym p.1,
        length-set (set h.array 0 y) j x ∙ same,
      )

pop_last-item :
    (h : TtlKeyHeap) (k : ℕ)
    → len h ≡ k
    → Yields (λ x. get_elem? h.array (k - 1) ≡ some x.1) (pop_last h)
unfolding pop_last
pop_last-item h k e = elim (Bool-cases (len h == 0)) [
  | inl empty ↦ rw empty (Yields-panic Panic.index_out_of_range)
  | inr full ↦ rw full (
      Yields-bind (item h (len h - 1)) _ (item-time h (len h - 1))
        λ x p. Yields-ok (ap (λ t. get_elem? h.array (t - 1)) (sym e) ∙ p.1))
]

-- What `pop` gives is the node that was at the top.
pub pop-top : (h : TtlKeyHeap) → Yields (λ x. top h ≡ some x.1) (pop h)
unfolding pop down top
pop-top h = Yields-if (len h == 0) (Yields-panic Panic.index_out_of_range) (
    let n = len h - 1 in
    Yields-bind (swap h 0 n) _ (swap-last h n) λ s first.
      Yields-bind (down s 0 n) _
        (Yields-and (down_loop-other (suc n) 0 n n s (omega arith))
          (down_loop-HasLen (suc n) 0 n (len h) s first.1))
        λ d kept.
          Yields-map (pop_last-item d (len h) kept.1) (λ x last. sym first.0 ∙ sym kept.0 ∙ last))
