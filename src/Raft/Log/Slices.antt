-- ===== src/Raft/Log/Slices.antt =====
-- raft/log.go: adjoining slices, and what an entry of a slice is.
use etcd.Prelude.{
  length-drop, ℕ, zero, suc, ◌+◌, ◌-◌, ◌≤◌, ◌<◌, ◌≡◌, refl, List, [], ◌∷◌, ◌++◌, arith, length,
  get_elem?, take, drop, get_elem?-take, get_elem?-drop, ap,
}
use etcd.Raft.Log.{RaftLog, slice, at, last_index}
use etcd.Raft.Log.Bounds.{slice-eq, at-eq}

take-nil {ℓ} : {A : Type ℓ} (n : ℕ) → take {A = A} n [] ≡ []
take-nil zero = refl
take-nil (suc n) = refl

drop-nil {ℓ} : {A : Type ℓ} (n : ℕ) → drop {A = A} n [] ≡ []
drop-nil zero = refl
drop-nil (suc n) = refl

take-append-take {ℓ} :
    {A : Type ℓ} (n m : ℕ) (xs : List A) → take n xs ++ take m (drop n xs) ≡ take (n + m) xs
take-append-take zero m xs = ap (λ (k : ℕ). take k xs) (omega arith)
take-append-take (suc n) m [] = let z : suc n + m ≡ suc (n + m) = omega arith in rw z (take-nil m)
take-append-take (suc n) m (x ∷ xs) =
    let z : suc n + m ≡ suc (n + m) = omega arith in rw z (ap (◌∷◌ x) (take-append-take n m xs))

drop-drop {ℓ} : {A : Type ℓ} (n m : ℕ) (xs : List A) → drop m (drop n xs) ≡ drop (n + m) xs
drop-drop zero m xs = ap (λ (k : ℕ). drop k xs) (omega arith)
drop-drop (suc n) m [] = let z : suc n + m ≡ suc (n + m) = omega arith in rw z (drop-nil m)
drop-drop (suc n) m (x ∷ xs) =
    let z : suc n + m ≡ suc (n + m) = omega arith in rw z (drop-drop n m xs)

-- Two slices that meet make one.
pub slice-append :
    (l : RaftLog) (a b c : ℕ)
    → l.offset ≤ a
    → a ≤ b
    → b ≤ c
    → c ≤ length l.ents + l.offset
    → slice l a b ++ slice l b c ≡ slice l a c
slice-append l a b c h p q r =
    let ac : c - a ≡ (b - a) + (c - b) = omega arith in
    let bo : b - l.offset ≡ (a - l.offset) + (b - a) = omega arith in
    rw
      (
        slice-eq l a b h p (omega arith),
        slice-eq l b c (omega arith) q r,
        slice-eq l a c h (omega arith) r,
        ac,
        bo,
        ← drop-drop (a - l.offset) (b - a) l.ents,
      )
      (take-append-take (b - a) (c - b) (drop (a - l.offset) l.ents))

-- The entries of a slice are those of the log.
pub get_elem?-slice :
    (l : RaftLog) (lo hi k : ℕ)
    → l.offset ≤ lo
    → hi ≤ length l.ents + l.offset
    → lo + k < hi
    → get_elem? (slice l lo hi) k ≡ at l (lo + k)
get_elem?-slice l lo hi k h p q =
    rw
      (
        slice-eq l lo hi h (omega arith) p,
        at-eq l (lo + k) (omega arith),
        get_elem?-take (hi - lo) (drop (lo - l.offset) l.ents) k (omega arith),
      )
      (get_elem?-drop (lo - l.offset) l.ents k (lo + k - l.offset) (omega arith))

take_all {ℓ} : {A : Type ℓ} (n : ℕ) (xs : List A) → length xs ≤ n → take n xs ≡ xs
take_all zero [] h = refl
take_all zero (x ∷ xs) h = absurd (omega arith)
take_all (suc n) [] h = refl
take_all (suc n) (x ∷ xs) h = ap (◌∷◌ x) (take_all n xs (omega arith))

-- A slice to the end is what a drop leaves.
pub slice_to_end :
    (l : RaftLog) (i : ℕ)
    → l.offset ≤ i
    → i < length l.ents + l.offset
    → slice l i (last_index l + 1) ≡ drop (i - l.offset) l.ents
slice_to_end l i h k =
    let end : last_index l + 1 ≡ length l.ents + l.offset = unfold last_index in omega arith in
    rw (end, slice-eq l i (length l.ents + l.offset) h (omega arith) (omega arith))
      (take_all (length l.ents + l.offset - i) (drop (i - l.offset) l.ents)
        (omega (arith, length-drop (i - l.offset) l.ents)))
