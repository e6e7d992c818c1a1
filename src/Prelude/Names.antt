-- ===== src/Prelude/Names.antt =====
-- A Go map with keys of another type than a number: an association list, whose order is the order of `range`. And lists of
-- names, with the path functions that take a path apart.
use Prim.Native.Nat.{ℕ, zero, suc, ◌/◌, ◌%◌, ◌+◌}
use mathlib.Core.Bool.{Bool, true, false, ◌&&◌, ◌||◌}
use mathlib.Core.List.{List, [], ◌∷◌, ◌++◌}
use mathlib.Core.Option.{Option, none, some}
use etcd.Prelude.Tests.{◌==◌, ltb, if◌then◌else◌}
use etcd.Prelude.Paths.{Text, same_text, has_prefix, clean}

module _ {ℓ κ} {K : Type κ} {V : Type ℓ} (same : K → K → Bool) where
  unfoldable pub lookup : K → List (K × V) → Option V
  lookup name [] = none
  lookup name ((key, value) ∷ rest) = if same key name then some value else lookup name rest

  unfoldable pub delete : K → List (K × V) → List (K × V)
  delete name [] = []
  delete name ((key, value) ∷ rest) =
      let others = delete name rest in if same key name then others else (key, value) ∷ others

  unfoldable pub insert : K → V → List (K × V) → List (K × V)
  insert name new [] = (name, new) ∷ []
  insert name new ((key, value) ∷ rest) =
      if same key name then (name, new) ∷ rest else (key, value) ∷ insert name new rest

-- The names that lead from the root of a tree to a node.
abbrev pub Names : Type 0
Names = List Text

abbrev pub same_names : Names → Names → Bool
same_names [] [] = true
same_names [] (d ∷ ds) = false
same_names (c ∷ cs) [] = false
same_names (c ∷ cs) (d ∷ ds) = same_text c d && same_names cs ds

-- `path.Join(a, b)`.
unfoldable pub join : Text → Text → Text
unfolding clean
join [] [] = []
join [] (c ∷ b) = clean (c ∷ b)
join (c ∷ a) b = clean ((c ∷ a) ++ b'/' ∷ b)

abbrev pub split_before : ℕ → Text × Text → Text × Text
split_before c parts = elim parts.0 [
  | [] ↦ if c == b'/' then (c ∷ [], parts.1) else ([], c ∷ parts.1)
  | d ∷ rest ↦ (c ∷ d ∷ rest, parts.1)
]

-- `path.Split(s)`: what ends in the last slash, and what is after it.
abbrev pub split_path : Text → Text × Text
split_path [] = ([], [])
split_path (c ∷ s) = split_before c (split_path s)

-- `strings.Contains(s, part)`.
abbrev pub contains : Text → Text → Bool
contains [] part = has_prefix [] part
contains (c ∷ s) part = has_prefix (c ∷ s) part || contains s part

-- The order of strings, by bytes.
abbrev pub text_less : Text → Text → Bool
text_less s [] = false
text_less [] (d ∷ t) = true
text_less (c ∷ s) (d ∷ t) = ltb c d || (c == d && text_less s t)

-- The digits of a number before what is written already; a number has fewer digits than its value.
abbrev digits : ℕ → ℕ → Text → Text
digits zero n done = done
digits (suc fuel) n done =
    let more = digits fuel (n / 10) ((b'0' + n % 10) ∷ done) in
    if ltb n 10 then (b'0' + n) ∷ done else more

-- `strconv.FormatUint(n, 10)`.
unfoldable pub decimal : ℕ → Text
decimal n = digits (suc n) n []
