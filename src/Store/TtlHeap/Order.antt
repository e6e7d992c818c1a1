-- ===== src/Store/TtlHeap/Order.antt =====
-- store/ttl_key_heap.go: the order of the heap by time, and what swap, up and down make of it.
use etcd.Prelude.{
  subst, Panic, panic, ℕ, zero, suc, ◌+◌, ◌-◌, ◌*◌, ◌/◌, ◌≤◌, ◌<◌, ◌≡◌, ◌≢◌, refl, ap, ◌∙◌, sym,
  inl, inr, ◌⊎◌, Bool, not, true, false, Option, none, some, List, [], ◌∷◌, arith, ltb, ◌==◌,
  if◌then◌else◌, length, get_elem?, Bool-cases, ok, ltb→lt,
}
use etcd.Prelude.Arrays.{set, length-set, get_elem?-set_same, get_elem?-set_other}
use etcd.Prelude.Yields.{Yields, Yields-ok, Yields-bind, Yields-panic}
use etcd.Store.TtlHeap.{Item, TtlKeyHeap, len, item, less, swap, smaller}

-- The time of the node at a position.
abbrev pub time_of : Option Item → ℕ
time_of none = 0
time_of (some x) = x.expire_time

abbrev pub time : TtlKeyHeap → ℕ → ℕ
time h i = time_of (get_elem? h.array i)

abbrev pub parent : ℕ → ℕ
parent c = (c - 1) / 2

-- No node of the first `n` positions expires before its parent.
abbrev pub IsOrderedTo : ℕ → TtlKeyHeap → Type 0
IsOrderedTo n h = (c : ℕ) → 0 < c → c < n → time h (parent c) ≤ time h c

-- The children of a position do not expire before its parent.
abbrev pub IsBridged : ℕ → TtlKeyHeap → ℕ → Type 0
IsBridged n h i = (c : ℕ) → 0 < c → c < n → parent c ≡ i → 0 < i → time h (parent i) ≤ time h c

-- Only the edges below the position may be out of order, or only the one above it, or both.
pub record TooHigh (n : ℕ) (h : TtlKeyHeap) (i : ℕ) : Type 0 where
  pub edges : (c : ℕ) → 0 < c → c < n → parent c ≢ i → time h (parent c) ≤ time h c
  pub bridged : IsBridged n h i

pub record TooLow (n : ℕ) (h : TtlKeyHeap) (i : ℕ) : Type 0 where
  pub edges : (c : ℕ) → 0 < c → c < n → c ≢ i → time h (parent c) ≤ time h c
  pub bridged : IsBridged n h i

pub record Loose (n : ℕ) (h : TtlKeyHeap) (i : ℕ) : Type 0 where
  pub edges : (c : ℕ) → 0 < c → c < n → c ≢ i → parent c ≢ i → time h (parent c) ≤ time h c
  pub bridged : IsBridged n h i

pub item-time :
    (h : TtlKeyHeap) (i : ℕ)
    → Yields (λ x. (x.expire_time ≡ time h i) × (get_elem? h.array i ≡ some x)) (item h i)
item-time h i = of (get_elem? h.array i)
  where
    of :
        (o : Option Item)
        → Yields
            (λ x. (x.expire_time ≡ time_of o) × (o ≡ some x))
            (elim o [ none ↦ panic Panic.index_out_of_range | some x ↦ ok x ])
    of none = Yields-panic Panic.index_out_of_range
    of (some x) = Yields-ok (refl, refl)

pub less-time :
    (h : TtlKeyHeap) (i j : ℕ) → Yields (λ b. b ≡ ltb (time h i) (time h j)) (less h i j)
unfolding less
less-time h i j =
    Yields-bind (item h i) _ (item-time h i)
      λ x p. Yields-bind (item h j) _ (item-time h j) λ y q. Yields-ok (rw (p.0, q.0) refl)

-- The times after two nodes have changed places.
unfoldable pub Exchanged : ℕ → ℕ → TtlKeyHeap → TtlKeyHeap → Type 0
Exchanged i j h s =
    (len s ≡ len h)
    × (i < len h)
    × (j < len h)
    × ((c : ℕ) → time s c ≡ (if c == j then time h i else if c == i then time h j else time h c))

pub there_inside : (xs : List Item) (i : ℕ) (x : Item) → get_elem? xs i ≡ some x → i < length xs
there_inside [] i x e = cc
there_inside (y ∷ xs) zero x e = omega arith
there_inside (y ∷ xs) (suc i) x e = omega (arith, there_inside xs i x e)

set_times :
    (xs : List Item) (i c : ℕ) (x : Item)
    → i < length xs
    → time_of (get_elem? (set xs i x) c)
      ≡ (if c == i then x.expire_time else time_of (get_elem? xs c))
set_times xs i c x h = elim (Bool-cases (c == i)) [
  | inl same ↦
      let e : i ≡ c = ground (arith, same) in
      rw same (
        ap (λ t. time_of (get_elem? (set xs i x) t)) (sym e)
        ∙ ap time_of (get_elem?-set_same xs i x h))
  | inr other ↦ rw other (ap time_of (get_elem?-set_other xs i c x (ground (arith, other))))
]

pub swap-Exchanged : (h : TtlKeyHeap) (i j : ℕ) → Yields (Exchanged i j h) (swap h i j)
unfolding swap Exchanged
swap-Exchanged h i j = Yields-bind (item h j) _ (item-time h j) λ y q.
    Yields-bind (item h i) _ (item-time h i) λ x p.
      let i_in = there_inside h.array i x p.1 in
      let j_in = there_inside h.array j y q.1 in
      let same = length-set h.array i y in
      Yields-ok (
        length-set (set h.array i y) j x ∙ same,
        i_in,
        j_in,
        λ c.
            set_times (set h.array i y) j c x (omega (arith, same, j_in))
            ∙ rw (p.0, set_times h.array i c y i_in, q.0) refl,
      )

pub swapped_len : (i j k : ℕ) (h s : TtlKeyHeap) → Exchanged i j h s → len h ≡ k → len s ≡ k
unfolding Exchanged
swapped_len i j k h s sw e = sw.0 ∙ e

-- The child of a position that expires first.
pub record IsSmaller (n : ℕ) (h : TtlKeyHeap) (i m : ℕ) : Type 0 where
  pub inside : m < n
  pub child : (m ≡ 2 * i + 1) ⊎ (m ≡ 2 * i + 2)
  pub least : (c : ℕ) → 0 < c → c < n → parent c ≡ i → time h m ≤ time h c

child_of : (c i : ℕ) → 0 < c → parent c ≡ i → (c ≡ 2 * i + 1) ⊎ (c ≡ 2 * i + 2)
child_of c i p e = elim (Bool-cases (c == 2 * i + 1)) [
  | inl left ↦ inl (ground (arith, left))
  | inr right ↦ inr (ground (arith, right))
]

-- A position that comes before the two children in the order.
least_of :
    (n : ℕ) (h : TtlKeyHeap) (i m : ℕ)
    → time h m ≤ time h (2 * i + 1)
    → (2 * i + 2 < n → time h m ≤ time h (2 * i + 2))
    → (c : ℕ) → 0 < c
    → c < n
    → parent c ≡ i
    → time h m ≤ time h c
least_of n h i m left right c p q e = elim (child_of c i p e) [
  | inl is ↦ subst (λ t. time h m ≤ time h t) (sym is) left
  | inr is ↦ subst (λ t. time h m ≤ time h t) (sym is) (right (omega arith))
]

pick :
    (n : ℕ) (h : TtlKeyHeap) (i : ℕ) (first : Bool)
    → 2 * i + 1 + 1 < n
    → first ≡ ltb (time h (2 * i + 1)) (time h (2 * i + 1 + 1))
    → IsSmaller n h i (if not first then 2 * i + 1 + 1 else 2 * i + 1)
pick n h i true two e = record {
  inside = omega arith;
  child = inl refl;
  least = least_of n h i (2 * i + 1) (omega arith) (λ q. ground (arith, e));
}
pick n h i false two e = record {
  inside = two;
  child = inr (omega arith);
  least = least_of n h i (2 * i + 1 + 1) (ground (arith, e)) (λ q. ground (arith, e));
}

pub smaller-IsSmaller :
    (n : ℕ) (h : TtlKeyHeap) (i : ℕ)
    → 2 * i + 1 < n
    → Yields (IsSmaller n h i) (smaller h (2 * i + 1) n)
unfolding smaller
smaller-IsSmaller n h i inside = elim (Bool-cases (ltb (2 * i + 1 + 1) n)) [
  | inl two ↦ rw two (
      Yields-bind (less h (2 * i + 1) (2 * i + 1 + 1)) _ (less-time h (2 * i + 1) (2 * i + 1 + 1))
        λ first e. Yields-ok (pick n h i first (ltb→lt (2 * i + 1 + 1) n two) e))
  | inr one ↦ rw one (
      Yields-ok (record {
        inside = inside;
        child = inl refl;
        least = least_of n h i (2 * i + 1) (omega arith) (λ q. ground (arith, one));
      }))
]

pub swap-TooHigh :
    (n : ℕ) (h s : TtlKeyHeap) (i m : ℕ)
    → TooHigh n h i
    → IsSmaller n h i m
    → time h m < time h i
    → Exchanged i m h s
    → TooHigh n s m
unfolding Exchanged
swap-TooHigh n h s i m v sm below (same, i_in, m_in, at) = record {
  edges =
      λ c p q t. ground (arith, at c, at (parent c), v.edges c, v.bridged m, sm.least c, sm.child);
  bridged = λ c p q r t. ground (arith, at c, at (parent m), v.edges c, sm.child);
}

pub swap_first-TooHigh :
    (n : ℕ) (h s : TtlKeyHeap) (i m : ℕ)
    → Loose n h i
    → IsSmaller n h i m
    → time h m < time h i
    → Exchanged i m h s
    → TooHigh n s m
unfolding Exchanged
swap_first-TooHigh n h s i m v sm below (same, i_in, m_in, at) = record {
  edges =
      λ c p q t. ground (arith, at c, at (parent c), v.edges c, v.bridged m, sm.least c, sm.child);
  bridged = λ c p q r t. ground (arith, at c, at (parent m), v.edges c, sm.child);
}

pub swap-TooLow :
    (n : ℕ) (h s : TtlKeyHeap) (i : ℕ)
    → TooLow n h i
    → 0 < i
    → i < n
    → time h i < time h (parent i)
    → Exchanged (parent i) i h s
    → TooLow n s (parent i)
unfolding Exchanged
swap-TooLow n h s i v pos inside below (same, i_in, m_in, at) = record {
  edges = λ c p q t. ground (arith, at c, at (parent c), v.edges c, v.bridged c, v.edges i);
  bridged =
      λ c p q r t. ground (arith, at c, at (parent (parent i)), v.edges c, v.edges (parent i));
}
