-- ===== src/Prelude/Clean.antt =====
-- Paths that `path.Clean` returns: their segments, and that they are left as they are.
use Prim.Native.Nat.{ℕ}
use mathlib.Core.Path.{sym, ◌∙◌, ◌≡◌, refl, ap}
use mathlib.Core.Logic.{inl, inr}
use mathlib.Core.Bool.{Bool, true, false, ◌&&◌, ◌||◌, not}
use mathlib.Core.List.{List, [], ◌∷◌, ◌++◌, append-nil}
use native.Mathlib.Omega.{arith}
use etcd.Prelude.Tests.{◌==◌, Bool-cases}
use etcd.Prelude.Paths.{clean, Text, same_text, split, clean_segments, join_reversed}

abbrev pub has_slash : Text → Bool
has_slash [] = false
has_slash (c ∷ s) = c == b'/' || has_slash s

-- A segment that `Clean` keeps in a rooted path: without slash, not empty, and neither . nor ..
abbrev pub is_normal : Text → Bool
is_normal s =
    not (has_slash s)
    && not (same_text s [])
    && not (same_text s (b'.' ∷ []))
    && not (same_text s (b'.' ∷ b'.' ∷ []))

abbrev pub all_plain : List Text → Bool
all_plain [] = true
all_plain (s ∷ ss) = not (has_slash s) && all_plain ss

abbrev pub all_normal : List Text → Bool
all_normal [] = true
all_normal (s ∷ ss) = is_normal s && all_normal ss

abbrev pub path_text : List Text → Text
path_text [] = []
path_text (s ∷ ss) = b'/' ∷ s ++ path_text ss

abbrev pub reverse_onto : List Text → List Text → List Text
reverse_onto [] done = done
reverse_onto (s ∷ ss) done = reverse_onto ss (s ∷ done)

plain_grown :
    (c : ℕ) (segments : List Text)
    → (c == b'/') ≡ false
    → all_plain segments ≡ true
    → all_plain (elim segments [ [] ↦ (c ∷ []) ∷ [] | first ∷ others ↦ (c ∷ first) ∷ others ])
      ≡ true
plain_grown c [] h g = rw h refl
plain_grown c (first ∷ others) h g = rw h g

all_plain-split : (s : Text) → all_plain (split s) ≡ true
all_plain-split [] = refl
all_plain-split (c ∷ s) = elim (Bool-cases (c == b'/')) [
  | inl slash ↦ rw slash (all_plain-split s)
  | inr other ↦ rw other (plain_grown c (split s) other (all_plain-split s))
]

normal_plain : (ss : List Text) → all_normal ss ≡ true → all_plain ss ≡ true
normal_plain [] h = refl
normal_plain (s ∷ ss) h = ground (arith, normal_plain ss)

all_normal-clean_segments :
    (kept ss : List Text)
    → all_normal kept ≡ true
    → all_plain ss ≡ true
    → all_normal (clean_segments true kept ss) ≡ true
all_normal-clean_segments kept [] h g = h
all_normal-clean_segments [] (s ∷ ss) h g =
    ground (arith, all_normal-clean_segments [] ss h, all_normal-clean_segments (s ∷ []) ss)
all_normal-clean_segments (k ∷ kept) (s ∷ ss) h g = ground (
  arith,
  all_normal-clean_segments kept ss,
  all_normal-clean_segments (k ∷ kept) ss,
  all_normal-clean_segments (s ∷ k ∷ kept) ss,
)

split-segment :
    (s rest : Text) (ss : List Text)
    → has_slash s ≡ false
    → split rest ≡ [] ∷ ss
    → split (s ++ rest) ≡ s ∷ ss
split-segment [] rest ss h e = e
split-segment (c ∷ s) rest ss h e = elim (Bool-cases (c == b'/')) [
  | inl slash ↦ absurd (ground (arith, h, slash))
  | inr other ↦ rw (other, split-segment s rest ss (ground (arith, h, other)) e) refl
]

pub split-path_text : (ss : List Text) → all_plain ss ≡ true → split (path_text ss) ≡ [] ∷ ss
split-path_text [] h = refl
split-path_text (s ∷ ss) h =
    ap (◌∷◌ []) (
      split-segment s (path_text ss) ss (ground (arith, h))
        (split-path_text ss (ground (arith, h))))

join_reversed-eq :
    (s : Text) (ss done : List Text)
    → b'/' ∷ join_reversed (path_text done) (s ∷ ss) ≡ path_text (reverse_onto (s ∷ ss) done)
join_reversed-eq s [] done = refl
join_reversed-eq s (t ∷ ss) done = join_reversed-eq t ss (s ∷ done)

clean_segments_same :
    (kept ss : List Text)
    → all_normal ss ≡ true
    → clean_segments true kept ss ≡ reverse_onto ss kept
clean_segments_same kept [] h = refl
clean_segments_same kept (s ∷ ss) h = ground (arith, clean_segments_same (s ∷ kept) ss)

reverse_onto-reverse_onto :
    (a b c : List Text) → reverse_onto (reverse_onto a b) c ≡ reverse_onto b (a ++ c)
reverse_onto-reverse_onto [] b c = refl
reverse_onto-reverse_onto (s ∷ a) b c = reverse_onto-reverse_onto a (s ∷ b) c

pub reverse_twice : (ss : List Text) → reverse_onto (reverse_onto ss []) [] ≡ ss
reverse_twice ss = reverse_onto-reverse_onto ss [] [] ∙ append-nil ss

all_normal-reverse_onto :
    (ss done : List Text)
    → all_normal ss ≡ true
    → all_normal done ≡ true
    → all_normal (reverse_onto ss done) ≡ true
all_normal-reverse_onto [] done h g = g
all_normal-reverse_onto (s ∷ ss) done h g =
    all_normal-reverse_onto ss (s ∷ done) (ground (arith, h)) (ground (arith, h, g))

-- The rooted path with these segments.
abbrev pub rooted_text : List Text → Text
rooted_text [] = b'/' ∷ []
rooted_text (s ∷ ss) = path_text (s ∷ ss)

rooted_text-reverse_onto :
    (ss done : List Text) (t : Text)
    → rooted_text (reverse_onto ss (t ∷ done)) ≡ path_text (reverse_onto ss (t ∷ done))
rooted_text-reverse_onto [] done t = refl
rooted_text-reverse_onto (s ∷ ss) done t = rooted_text-reverse_onto ss (t ∷ done) s

rooted_join : (ks : List Text) → b'/' ∷ join_reversed [] ks ≡ rooted_text (reverse_onto ks [])
rooted_join [] = refl
rooted_join (s ∷ ss) = join_reversed-eq s ss [] ∙ sym (rooted_text-reverse_onto ss [] s)

-- The segments of the path that `Clean` makes of a rooted one.
abbrev pub segments : Text → List Text
segments s = reverse_onto (clean_segments true [] (split s)) []

pub segments_normal : (s : Text) → all_normal (segments s) ≡ true
segments_normal s =
    all_normal-reverse_onto (clean_segments true [] (split s)) []
      (all_normal-clean_segments [] (split s) refl (all_plain-split s)) refl

pub clean-rooted : (s : Text) → clean (b'/' ∷ s) ≡ rooted_text (segments s)
unfolding clean
clean-rooted s = rooted_join (clean_segments true [] (split s))

pub split-rooted_text :
    (s : Text) (ss : List Text)
    → all_normal (s ∷ ss) ≡ true
    → split (rooted_text (s ∷ ss)) ≡ [] ∷ s ∷ ss
split-rooted_text s ss h = split-path_text (s ∷ ss) (normal_plain (s ∷ ss) h)

pub segments-rooted_text : (ss : List Text) → all_normal ss ≡ true → segments (rooted_text ss) ≡ ss
segments-rooted_text [] h = refl
segments-rooted_text (s ∷ ss) h =
    ap (λ t. reverse_onto (clean_segments true [] t) []) (split-rooted_text s ss h)
    ∙ ap (λ t. reverse_onto t []) (clean_segments_same [] (s ∷ ss) h)
    ∙ reverse_twice (s ∷ ss)

pub clean-rooted_text :
    (ss : List Text) → all_normal ss ≡ true → clean (rooted_text ss) ≡ rooted_text ss
clean-rooted_text [] h = clean-rooted []
clean-rooted_text (s ∷ ss) h =
    clean-rooted (s ++ path_text ss) ∙ ap rooted_text (segments-rooted_text (s ∷ ss) h)
