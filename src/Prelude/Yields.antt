-- ===== src/Prelude/Yields.antt =====
-- What holds of the value that code gives where it does not panic: a rule for each construct.
use mathlib.Core.Path.{◌≡◌, refl, subst}
use mathlib.Core.Bool.{Bool, true, false}
use mathlib.Core.Option.{Option, none, some}
use etcd.Prelude.Tests.{if◌then◌else◌}
use etcd.Prelude.Panics.{Result, ok, panic, Panic, ◌>>=◌, ok-injective}

pub record Yields {ℓ} {A : Type ℓ} (P : A → Type 0) (m : Result A) : Type ℓ where
  pub value : (a : A) → m ≡ ok a → P a

module _ {ℓ} {A : Type ℓ} {P : A → Type 0} where
  pub Yields-ok : {a : A} → P a → Yields P (ok a)
  Yields-ok p = record { value = λ b h. subst P (ok-injective h) p }

  pub Yields-panic : (p : Panic) → Yields P (panic p)
  Yields-panic p = record { value = λ b h. cc }

  pub Yields-if :
      (b : Bool) {m n : Result A} → Yields P m → Yields P n → Yields P (if b then m else n)
  Yields-if true p q = p
  Yields-if false p q = q

  pub Yields-option {κ} :
      {B : Type κ} (o : Option B) {m : Result A} {f : B → Result A}
      → Yields P m
      → ((b : B) → Yields P (f b))
      → Yields P (elim o [ none ↦ m | some b ↦ f b ])
  Yields-option none p q = p
  Yields-option (some b) p q = q b

module _ {ℓ κ} {A : Type ℓ} {B : Type κ} {P : A → Type 0} {Q : B → Type 0} where
  pub Yields-bind :
      (m : Result A) (f : A → Result B)
      → Yields P m
      → ((a : A) → P a → Yields Q (f a))
      → Yields Q (m >>= f)
  Yields-bind (ok a) f p q = q a (p.value a refl)
  Yields-bind (panic e) f p q = record { value = λ b h. cc }

module _ {ℓ κ} {A : Type ℓ} {B : Type κ} {Q : B → Type 0} where
  -- A step of which nothing need be known.
  pub Yields-then :
      (m : Result A) (f : A → Result B) → ((a : A) → Yields Q (f a)) → Yields Q (m >>= f)
  Yields-then (ok a) f q = q a
  Yields-then (panic e) f q = record { value = λ b h. cc }

pub Yields-map {ℓ} :
    {A : Type ℓ} {P Q : A → Type 0} {m : Result A} → Yields P m → ((a : A) → P a → Q a) → Yields Q m
Yields-map p q = record { value = λ a h. q a (p.value a h) }

pub Yields-and {ℓ} :
    {A : Type ℓ} {P Q : A → Type 0} {m : Result A}
    → Yields P m
    → Yields Q m
    → Yields (λ a. P a × Q a) m
Yields-and p q = record { value = λ a h. (p.value a h, q.value a h) }
