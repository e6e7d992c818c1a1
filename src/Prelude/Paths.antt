-- ===== src/Prelude/Paths.antt =====
-- Go strings as lists of bytes, and what the code calls of the packages strings and path.
use Prim.Native.Nat.{ℕ}
use mathlib.Core.Bool.{Bool, true, false, ◌&&◌, ◌||◌}
use mathlib.Core.List.{List, [], ◌∷◌, ◌++◌}
use etcd.Prelude.Tests.{◌==◌, if◌then◌else◌}

abbrev pub Text : Type 0
Text = List ℕ

abbrev pub same_text : Text → Text → Bool
same_text [] [] = true
same_text [] (d ∷ t) = false
same_text (c ∷ s) [] = false
same_text (c ∷ s) (d ∷ t) = c == d && same_text s t

-- `strings.HasPrefix(s, prefix)`.
abbrev pub has_prefix : Text → Text → Bool
has_prefix s [] = true
has_prefix [] (d ∷ prefix) = false
has_prefix (c ∷ s) (d ∷ prefix) = c == d && has_prefix s prefix

-- `strings.Split(s, "/")`.
abbrev pub split : Text → List Text
split [] = [] ∷ []
split (c ∷ s) =
    let rest = split s in
    if c == b'/'
    then [] ∷ rest
    else elim rest [ [] ↦ (c ∷ []) ∷ [] | first ∷ others ↦ (c ∷ first) ∷ others ]

-- The segments of a path in reverse, as `path.Clean` keeps them.
abbrev pub clean_segments : Bool → List Text → List Text → List Text
clean_segments rooted kept [] = kept
clean_segments rooted kept (s ∷ segments) =
    if same_text s [] || same_text s (b'.' ∷ [])
    then clean_segments rooted kept segments
    else if same_text s (b'.' ∷ b'.' ∷ [])
    then clean_segments rooted
        (elim kept [
          | [] ↦ if rooted then [] else s ∷ []
          | k ∷ below ↦ if same_text k (b'.' ∷ b'.' ∷ []) then s ∷ k ∷ below else below
        ])
        segments
    else clean_segments rooted (s ∷ kept) segments

abbrev pub join_reversed : Text → List Text → Text
join_reversed done [] = done
join_reversed done (s ∷ []) = s ++ done
join_reversed done (s ∷ segments) = join_reversed (b'/' ∷ s ++ done) segments

abbrev pub is_rooted : Text → Bool
is_rooted [] = false
is_rooted (c ∷ s) = c == b'/'

-- `path.Clean(s)`.
unfoldable pub clean : Text → Text
clean s =
    let cleaned = join_reversed [] (clean_segments (is_rooted s) [] (split s)) in
    if is_rooted s then b'/' ∷ cleaned else elim cleaned [ [] ↦ b'.' ∷ [] | c ∷ rest ↦ c ∷ rest ]

abbrev pub ends_in_slash : Text → Bool
ends_in_slash [] = false
ends_in_slash (c ∷ []) = c == b'/'
ends_in_slash (c ∷ d ∷ s) = ends_in_slash (d ∷ s)
