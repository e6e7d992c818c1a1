-- ===== src/Prelude/Panics.antt =====
-- Go code that may panic: a panic ends the process, so no state comes back with it.
use mathlib.Core.Path.{◌≡◌, refl, ap}
use mathlib.Core.Logic.{◌⊎◌, inl, inr}

pub data Panic : Type 0 where
  index_out_of_range nil_pointer divide_by_zero closed_channel : Panic
  conflict_with_committed first_entry compact_out_of_bounds need_snapshot : Panic
  no_leader leader_to_candidate follower_to_leader double_config proposal_length : Panic
  none_id : Panic

pub data Result {ℓ} (A : Type ℓ) : Type ℓ where
  ok : A → Result A
  panic : Panic → Result A

infixl 5 ◌>>=◌
abbrev pub ◌>>=◌ {ℓ κ} : {X : Type ℓ} {Y : Type κ} → Result X → (X → Result Y) → Result Y
panic p >>= rest = panic p
ok x >>= rest = rest x

pub Result-cases {ℓ} :
    {X : Type ℓ} (m : Result X) → ((x : X) × (m ≡ ok x)) ⊎ ((p : Panic) × (m ≡ panic p))
Result-cases (panic p) = inr (p, refl)
Result-cases (ok x) = inl (x, refl)

-- Where a sequence of two steps succeeds, so did the first, and the second on what it gave.
pub >>=-eq-ok {ℓ κ} :
    {X : Type ℓ} {Y : Type κ} (first : Result X) (rest : X → Result Y) {y : Y}
    → (first >>= rest) ≡ ok y
    → (x : X) × (first ≡ ok x) × (rest x ≡ ok y)
>>=-eq-ok (panic p) rest e = cc
>>=-eq-ok (ok x) rest e = (x, refl, e)

or_else {ℓ} : {X : Type ℓ} → X → Result X → X
or_else x (ok y) = y
or_else x (panic p) = x

pub ok-injective {ℓ} : {X : Type ℓ} {x y : X} → ok x ≡ ok y → x ≡ y
unfolding or_else
ok-injective {x = x} e = ap (or_else x) e

pub ok-pair {ℓ κ} :
    {X : Type ℓ} {Y : Type κ} {x x' : X} {y y' : Y}
    → ◌≡◌ {A = Result (X × Y)} (ok (x, y)) (ok (x', y'))
    → (x ≡ x') × (y ≡ y')
ok-pair e = let pair = ok-injective e in (ap (λ p. p.0) pair, ap (λ p. p.1) pair)
