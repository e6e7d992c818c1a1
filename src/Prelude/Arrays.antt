-- ===== src/Prelude/Arrays.antt =====
-- A Go slice of fixed length, written at an index, and indexes that wrap around.
use Prim.Native.Nat.{ℕ, zero, suc, ◌+◌, ◌-◌, ◌%◌, ◌≤◌, ◌<◌}
use mathlib.Core.Path.{◌≡◌, refl}
use mathlib.Core.List.{List, [], ◌∷◌}
use mathlib.Core.Option.{some}
use mathlib.Core.Logic.{◌≢◌, inl, inr}
use native.Mathlib.Omega.{arith}
use native.Mathlib.Nat.{mod-eq_of_lt, mod-eq-sub-mod}
use etcd.Prelude.Tests.{if◌then◌else◌, ltb, Bool-cases, ltb→lt, ltb→ge}
use etcd.Prelude.Lists.{length, get_elem?}

module _ {ℓ} {A : Type ℓ} where
  abbrev pub set : List A → ℕ → A → List A
  set [] i a = []
  set (x ∷ xs) zero a = a ∷ xs
  set (x ∷ xs) (suc i) a = x ∷ set xs i a

  pub length-set : (xs : List A) (i : ℕ) (a : A) → length (set xs i a) ≡ length xs
  length-set [] i a = refl
  length-set (x ∷ xs) zero a = refl
  length-set (x ∷ xs) (suc i) a = omega (arith, length-set xs i a)

  pub get_elem?-set_same :
      (xs : List A) (i : ℕ) (a : A) → i < length xs → get_elem? (set xs i a) i ≡ some a
  get_elem?-set_same [] i a h = absurd (omega arith)
  get_elem?-set_same (x ∷ xs) zero a h = refl
  get_elem?-set_same (x ∷ xs) (suc i) a h = get_elem?-set_same xs i a (omega arith)

  pub get_elem?-set_other :
      (xs : List A) (i j : ℕ) (a : A) → i ≢ j → get_elem? (set xs i a) j ≡ get_elem? xs j
  get_elem?-set_other [] i j a h = refl
  get_elem?-set_other (x ∷ xs) zero zero a h = absurd (h refl)
  get_elem?-set_other (x ∷ xs) zero (suc j) a h = refl
  get_elem?-set_other (x ∷ xs) (suc i) zero a h = refl
  get_elem?-set_other (x ∷ xs) (suc i) (suc j) a h =
      get_elem?-set_other xs i j a (λ e. h (omega (arith, e)))

-- An index below twice the length wraps around at most once.
pub mod_wrap : (a c : ℕ) → a < c + c → a % c ≡ (if ltb a c then a else a - c)
mod_wrap a c h = elim (Bool-cases (ltb a c)) [
  | inl low ↦ rw (low, mod-eq_of_lt (ltb→lt a c low)) refl
  | inr high ↦
      let above : c ≤ a = ltb→ge a c high in
      let below : a - c < c = omega arith in
      rw (high, mod-eq-sub-mod above, mod-eq_of_lt below) refl
]
