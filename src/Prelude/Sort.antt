-- ===== src/Prelude/Sort.antt =====
-- `sort.Sort(sort.Reverse(s))` on a slice of int64: the descending order, by insertion.
use Prim.Native.Nat.{ℕ, zero, suc, ◌+◌, ◌≤◌, ◌<◌}
use mathlib.Core.Path.{◌≡◌, refl}
use mathlib.Core.List.{List, [], ◌∷◌}
use mathlib.Core.Option.{some}
use native.Mathlib.Omega.{arith}
use etcd.Prelude.Tests.{leb, if◌then◌else◌}
use etcd.Prelude.Lists.{length, get_elem?}

unfoldable pub insert_desc : ℕ → List ℕ → List ℕ
insert_desc x [] = x ∷ []
insert_desc x (y ∷ ys) = if leb y x then x ∷ y ∷ ys else y ∷ insert_desc x ys

unfoldable pub sort_desc : List ℕ → List ℕ
unfolding insert_desc
sort_desc [] = []
sort_desc (x ∷ xs) = insert_desc x (sort_desc xs)

-- How many numbers are at least `t`.
abbrev pub count_ge : ℕ → List ℕ → ℕ
count_ge t [] = 0
count_ge t (x ∷ xs) = if leb t x then suc (count_ge t xs) else count_ge t xs

-- Everything is at most `b`, and the numbers fall.
abbrev pub IsDescending : ℕ → List ℕ → Type 0
IsDescending b [] = Unit {0}
IsDescending b (x ∷ xs) = (x ≤ b) × IsDescending x xs

length-insert_desc : (x : ℕ) (ys : List ℕ) → length (insert_desc x ys) ≡ suc (length ys)
unfolding insert_desc
length-insert_desc x [] = refl
length-insert_desc x (y ∷ ys) = ground (arith, length-insert_desc x ys)

pub length-sort_desc : (xs : List ℕ) → length (sort_desc xs) ≡ length xs
unfolding sort_desc
length-sort_desc [] = refl
length-sort_desc (x ∷ xs) = omega (arith, length-insert_desc x (sort_desc xs), length-sort_desc xs)

count_ge-insert_desc : (t x : ℕ) (ys : List ℕ) → count_ge t (insert_desc x ys) ≡ count_ge t (x ∷ ys)
unfolding insert_desc
count_ge-insert_desc t x [] = refl
count_ge-insert_desc t x (y ∷ ys) = ground (arith, count_ge-insert_desc t x ys)

-- Sorting keeps how many numbers reach a bound.
pub count_ge-sort_desc : (t : ℕ) (xs : List ℕ) → count_ge t (sort_desc xs) ≡ count_ge t xs
unfolding sort_desc
count_ge-sort_desc t [] = refl
count_ge-sort_desc t (x ∷ xs) =
    ground (arith, count_ge-insert_desc t x (sort_desc xs), count_ge-sort_desc t xs)

insert_desc-IsDescending :
    (b x : ℕ) (ys : List ℕ) → x ≤ b → IsDescending b ys → IsDescending b (insert_desc x ys)
unfolding insert_desc
insert_desc-IsDescending b x [] h d = (h, tt)
insert_desc-IsDescending b x (y ∷ ys) h d = ground (arith, insert_desc-IsDescending y x ys)

IsDescending-mono : (b c : ℕ) (ys : List ℕ) → b ≤ c → IsDescending b ys → IsDescending c ys
IsDescending-mono b c [] h d = tt
IsDescending-mono b c (y ∷ ys) h d = (omega arith, d.1)

abbrev highest : List ℕ → ℕ
highest [] = 0
highest (x ∷ xs) = x + highest xs

pub sort_desc-IsDescending : (xs : List ℕ) → IsDescending (highest xs) (sort_desc xs)
unfolding sort_desc
sort_desc-IsDescending [] = tt
sort_desc-IsDescending (x ∷ xs) =
    insert_desc-IsDescending (x + highest xs) x (sort_desc xs) (omega arith) (
      IsDescending-mono (highest xs) (x + highest xs) (sort_desc xs) (omega arith)
        (sort_desc-IsDescending xs))

count_ge_above : (b t : ℕ) (ys : List ℕ) → IsDescending b ys → b < t → count_ge t ys ≡ 0
count_ge_above b t [] d h = refl
count_ge_above b t (y ∷ ys) d h = ground (arith, count_ge_above y t ys d.1)

-- In a descending list the element at `k` is reached by more than `k` numbers, and a greater bound
-- by `k` at most.
pub descending_rank :
    (b m k : ℕ) (ys : List ℕ)
    → IsDescending b ys
    → get_elem? ys k ≡ some m
    → (m ≤ b) × (k < count_ge m ys) × ((t : ℕ) → m < t → count_ge t ys ≤ k)
descending_rank b m k [] d e = cc
descending_rank b m zero (y ∷ ys) d e =
    let z : y ≡ m = cc in
    (omega (arith, z), ground (arith, z), λ t h. ground (arith, z, count_ge_above y t ys d.1))
descending_rank b m (suc k) (y ∷ ys) d e =
    let (low, many, few) = descending_rank y m k ys d.1 e in
    (omega arith, ground arith, λ t h. ground (arith, few t h))
