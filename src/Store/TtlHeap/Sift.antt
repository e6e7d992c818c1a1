-- ===== src/Store/TtlHeap/Sift.antt =====
-- container/heap: up and down put one node in its place.
use etcd.Prelude.{
  false, ℕ, zero, suc, ◌+◌, ◌-◌, ◌*◌, ◌≤◌, ◌<◌, ◌≡◌, ◌∙◌, sym, inl, inr, arith, ltb, leb, ◌==◌,
  Bool-cases,
}
use etcd.Prelude.Yields.{Yields-map, Yields, Yields-ok, Yields-bind}
use etcd.Store.TtlHeap.{TtlKeyHeap, len, less, swap, up_loop, smaller, down_loop}
use etcd.Store.TtlHeap.Order.{
  swap_first-TooHigh, time, parent, IsOrderedTo, TooHigh, TooLow, Loose, IsSmaller, less-time,
  smaller-IsSmaller, swap-Exchanged, swapped_len, swap-TooHigh, swap_first-TooHigh, swap-TooLow,
}

-- As many nodes as before, the first `n` of them in order.
abbrev pub Sifted : ℕ → ℕ → TtlKeyHeap → Type 0
Sifted k n s = (len s ≡ k) × IsOrderedTo n s

-- A position whose children do not expire before it.
settled :
    (n i m : ℕ) (h : TtlKeyHeap)
    → IsSmaller n h i m
    → ltb (time h m) (time h i) ≡ false
    → (c : ℕ) → 0 < c
    → c < n
    → parent c ≡ i
    → time h i ≤ time h c
settled n i m h sm e c p q t = let least = sm.least c p q t in ground (arith, e, least)

-- `down` orders a heap that has a node too high at the position.
pub down_loop-Sifted :
    (fuel n i k : ℕ) (h : TtlKeyHeap)
    → n - i < fuel
    → len h ≡ k
    → TooHigh n h i
    → Yields (Sifted k n) (down_loop fuel h i n)
unfolding down_loop
down_loop-Sifted zero n i k h f l v = elim f [ ]
down_loop-Sifted (suc fuel) n i k h f l v = elim (Bool-cases (leb n (2 * i + 1))) [
  | inl childless ↦ rw childless (Yields-ok (l, λ c p q. v.edges c p q (ground (arith, childless))))
  | inr one ↦ rw one (
      let inside : 2 * i + 1 < n = ground (arith, one) in
      Yields-bind (smaller h (2 * i + 1) n) _ (smaller-IsSmaller n h i inside) λ m sm.
        Yields-bind (less h m i) _ (less-time h m i) λ below e. elim (Bool-cases below) [
          | inl low ↦
              let lower : time h m < time h i = ground (arith, e, low) in
              let deeper : n - m < fuel = let d = sm.child in ground (arith, d, sm.inside) in
              rw low (
                Yields-bind (swap h i m) _ (swap-Exchanged h i m) λ s sw.
                  down_loop-Sifted fuel n m k s deeper (swapped_len i m k h s sw l)
                    (swap-TooHigh n h s i m v sm lower sw))
          | inr high ↦ rw high (
              Yields-ok
                (l, λ c p q. ground (arith, v.edges c, settled n i m h sm (sym e ∙ high) c)))
        ])
]

-- `up` orders a heap that has a node too low at the position.
pub up_loop-Sifted :
    (fuel n i k : ℕ) (h : TtlKeyHeap)
    → i < fuel
    → i < n
    → len h ≡ k
    → TooLow n h i
    → Yields (Sifted k n) (up_loop fuel h i)
unfolding up_loop
up_loop-Sifted zero n i k h f inside l v = elim f [ ]
up_loop-Sifted (suc fuel) n i k h f inside l v = elim (Bool-cases (parent i == i)) [
  | inl root ↦ rw root (Yields-ok (l, λ c p q. v.edges c p q (λ e. ground (arith, root, e, p))))
  | inr lower ↦
      let pos : 0 < i = ground (arith, lower) in
      rw lower (
        Yields-bind (less h i (parent i)) _ (less-time h i (parent i)) λ below e.
          elim (Bool-cases below) [
            | inl low ↦
                let sooner : time h i < time h (parent i) = ground (arith, e, low) in
                rw low (
                  Yields-bind (swap h (parent i) i) _ (swap-Exchanged h (parent i) i) λ s sw.
                    up_loop-Sifted fuel n (parent i) k s (omega arith) (omega arith)
                      (swapped_len (parent i) i k h s sw l)
                      (swap-TooLow n h s i v pos inside sooner sw))
            | inr high ↦ rw high (Yields-ok (l, λ c p q. ground (arith, v.edges c, e, high)))
          ])
]

-- A heap in order has no node too low.
ordered-TooLow : (n i : ℕ) (h : TtlKeyHeap) → IsOrderedTo n h → TooLow n h i
ordered-TooLow n i h o = record {
  edges = λ c p q t. o c p q;
  bridged = λ c p q t r. ground (arith, o c, o i, t);
}

-- The first step of `down` where the node may be too high or too low: it is then only too low.
pub down_loop-TooLow :
    (fuel n i k : ℕ) (h : TtlKeyHeap)
    → n - i < fuel
    → i < n
    → len h ≡ k
    → Loose n h i
    → Yields (λ s. (len s ≡ k) × TooLow n s i) (down_loop fuel h i n)
unfolding down_loop
down_loop-TooLow zero n i k h f inside l v = elim f [ ]
down_loop-TooLow (suc fuel) n i k h f inside l v = elim (Bool-cases (leb n (2 * i + 1))) [
  | inl childless ↦ rw childless (
      Yields-ok (
        l,
        record {
          edges = λ c p q t. v.edges c p q t (ground (arith, childless));
          bridged = v.bridged;
        },
      ))
  | inr one ↦ rw one (
      let room : 2 * i + 1 < n = ground (arith, one) in
      Yields-bind (smaller h (2 * i + 1) n) _ (smaller-IsSmaller n h i room) λ m sm.
        Yields-bind (less h m i) _ (less-time h m i) λ below e. elim (Bool-cases below) [
          | inl low ↦
              let lower : time h m < time h i = ground (arith, e, low) in
              let deeper : n - m < fuel = let d = sm.child in ground (arith, d, sm.inside) in
              rw low (
                Yields-bind (swap h i m) _ (swap-Exchanged h i m) λ s sw.
                  Yields-map
                    (down_loop-Sifted fuel n m k s deeper (swapped_len i m k h s sw l)
                      (swap_first-TooHigh n h s i m v sm lower sw))
                    (λ d o. (o.0, ordered-TooLow n i d o.1)))
          | inr high ↦ rw high (
              Yields-ok (
                l,
                record {
                  edges = λ c p q t. ground (arith, v.edges c, settled n i m h sm (sym e ∙ high) c);
                  bridged = v.bridged;
                },
              ))
        ])
]
