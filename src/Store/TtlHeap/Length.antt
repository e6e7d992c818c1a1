-- ===== src/Store/TtlHeap/Length.antt =====
-- store/ttl_key_heap.go: the operations of the heap and the number of its nodes.
use etcd.Prelude.{
  length-take, inr, arith, Panic, inl, Bool-cases, ◌≤◌, ℕ, zero, suc, ◌+◌, ◌-◌, ◌*◌, ◌/◌, ◌≡◌, refl,
  ◌∙◌, not, leb, ◌==◌,
}
use etcd.Prelude.Arrays.{set, length-set}
use etcd.Prelude.Yields.{
  Yields-panic, Yields-option, Yields, Yields-ok, Yields-if, Yields-bind, Yields-then,
}
use etcd.Store.TtlHeap.{
  same_names, lookup, up, Names, down, pop, remove_index, remove, pop_last, TtlKeyHeap, len, item,
  less, swap, up_loop, smaller, down_loop,
}

-- A heap with so many nodes.
abbrev pub HasLen : ℕ → TtlKeyHeap → Type 0
HasLen n h = len h ≡ n

swap-HasLen : (h : TtlKeyHeap) (i j : ℕ) → Yields (HasLen (len h)) (swap h i j)
unfolding swap
swap-HasLen h i j = Yields-then (item h j) _ λ y.
    Yields-then (item h i) _
      λ x. Yields-ok (length-set (set h.array i y) j x ∙ length-set h.array i y)

up_loop-HasLen : (fuel j n : ℕ) (h : TtlKeyHeap) → len h ≡ n → Yields (HasLen n) (up_loop fuel h j)
unfolding up_loop
up_loop-HasLen zero j n h e = Yields-ok e
up_loop-HasLen (suc fuel) j n h e = Yields-if ((j - 1) / 2 == j) (Yields-ok e) (
    Yields-then (less h j ((j - 1) / 2)) _ λ below. Yields-if (not below) (Yields-ok e) (
      Yields-bind (swap h ((j - 1) / 2) j) _ (swap-HasLen h ((j - 1) / 2) j)
        λ s same. up_loop-HasLen fuel ((j - 1) / 2) n s (same ∙ e)))

pub down_loop-HasLen :
    (fuel i n m : ℕ) (h : TtlKeyHeap) → len h ≡ m → Yields (HasLen m) (down_loop fuel h i n)
unfolding down_loop
down_loop-HasLen zero i n m h e = Yields-ok e
down_loop-HasLen (suc fuel) i n m h e = Yields-if (leb n (2 * i + 1)) (Yields-ok e) (
    Yields-then (smaller h (2 * i + 1) n) _ λ j. Yields-then (less h j i) _ λ below.
      Yields-if (not below) (Yields-ok e) (
        Yields-bind (swap h i j) _ (swap-HasLen h i j)
          λ s same. down_loop-HasLen fuel j n m s (same ∙ e)))

-- The last node leaves the heap.
pop_last-HasLen :
    (h : TtlKeyHeap) (n : ℕ) → len h ≡ n → Yields (λ x. suc (len x.0) ≡ n) (pop_last h)
unfolding pop_last
pop_last-HasLen h n e = elim (Bool-cases (len h == 0)) [
  | inl empty ↦ rw empty (Yields-panic Panic.index_out_of_range)
  | inr some_left ↦ rw some_left (
      Yields-then (item h (len h - 1)) _
        λ x. Yields-ok (ground (arith, e, some_left, length-take (len h - 1) h.array)))
]

pub pop-HasLen : (h : TtlKeyHeap) → Yields (λ x. suc (len x.0) ≡ len h) (pop h)
unfolding pop down
pop-HasLen h = Yields-if (len h == 0) (Yields-panic Panic.index_out_of_range) (
    Yields-bind (swap h 0 (len h - 1)) _ (swap-HasLen h 0 (len h - 1)) λ s same.
      Yields-bind (down s 0 (len h - 1)) _
        (down_loop-HasLen (suc (len h - 1)) 0 (len h - 1) (len h) s same)
        λ d same'. pop_last-HasLen d (len h) same')

-- No more nodes than so many.
abbrev pub HasAtMost : ℕ → TtlKeyHeap → Type 0
HasAtMost n h = len h ≤ n

remove_index-HasAtMost :
    (h : TtlKeyHeap) (i n : ℕ) → len h ≤ n → Yields (HasAtMost n) (remove_index h i)
unfolding remove_index down up
remove_index-HasAtMost h i n e = Yields-if (len h == 0) (Yields-panic Panic.index_out_of_range) (
    Yields-bind _ _
      (Yields-if (not (len h - 1 == i))
        (Yields-bind (swap h i (len h - 1)) _ (swap-HasLen h i (len h - 1)) λ s same.
          Yields-bind (down s i (len h - 1)) _
            (down_loop-HasLen (suc (len h - 1)) i (len h - 1) (len h) s same)
            λ d same'. up_loop-HasLen (suc i) i (len h) d same')
        (Yields-ok refl))
      λ moved same.
        Yields-bind (pop_last moved) _ (pop_last-HasLen moved (len h) same)
          λ x less. Yields-ok (omega (arith, less, e)))

pub remove-HasAtMost :
    (at : Names) (h : TtlKeyHeap) (n : ℕ) → len h ≤ n → Yields (HasAtMost n) (remove at h)
unfolding remove
remove-HasAtMost at h n e =
    Yields-option (lookup same_names at h.key_map) (Yields-ok e) λ i. remove_index-HasAtMost h i n e
