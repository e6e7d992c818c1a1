-- ===== src/Prelude/Map.antt =====
-- A Go map with int64 keys: an association list, whose order is the order of `range`.
use Prim.Native.Nat.{ℕ}
use mathlib.Core.Path.{◌≡◌, refl}
use mathlib.Core.List.{List, [], ◌∷◌}
use mathlib.Core.Option.{Option, none, some}
use native.Mathlib.Omega.{arith}
use etcd.Prelude.Tests.{◌==◌, if◌then◌else◌}

module _ {ℓ} {V : Type ℓ} where
  unfoldable pub lookup : ℕ → List (ℕ × V) → Option V
  lookup id [] = none
  lookup id ((key, value) ∷ rest) = if key == id then some value else lookup id rest

  unfoldable pub insert : ℕ → V → List (ℕ × V) → List (ℕ × V)
  insert id new ((key, value) ∷ rest) =
      if key == id then (id, new) ∷ rest else (key, value) ∷ insert id new rest
  insert id new [] = (id, new) ∷ []

  unfoldable pub delete : ℕ → List (ℕ × V) → List (ℕ × V)
  delete id [] = []
  delete id ((key, value) ∷ rest) =
      let others = delete id rest in if key == id then others else (key, value) ∷ others

  pub lookup-insert :
      (id key : ℕ) (new : V) (entries : List (ℕ × V))
      → lookup key (insert id new entries) ≡ (if id == key then some new else lookup key entries)
  unfolding lookup insert
  lookup-insert id key new ((i, w) ∷ rest) = ground (arith, lookup-insert id key new rest)
  lookup-insert id key new [] = refl

  pub lookup-delete :
      (id key : ℕ) (entries : List (ℕ × V))
      → lookup key (delete id entries) ≡ (if id == key then none else lookup key entries)
  unfolding lookup delete
  lookup-delete id key ((i, w) ∷ rest) = ground (arith, lookup-delete id key rest)
  lookup-delete id key [] = ground arith
