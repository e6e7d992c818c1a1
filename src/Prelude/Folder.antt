-- ===== src/Prelude/Folder.antt =====
-- A rooted path taken apart by `path.Split`: the folder and the last segment.
use mathlib.Core.Path.{◌≡◌, refl, ap, ◌∙◌, sym}
use mathlib.Core.Bool.{true, false}
use mathlib.Core.List.{List, [], ◌∷◌, ◌++◌, append-nil}
use native.Mathlib.Omega.{arith}
use Prim.Native.Nat.{ℕ}
use etcd.Prelude.Tests.{◌==◌}
use etcd.Prelude.Paths.{Text, split}
use etcd.Prelude.Names.{split_path, split_before}
use etcd.Prelude.Clean.{has_slash, all_plain, all_normal, path_text, split-path_text}

split_path_plain : (c : Text) → has_slash c ≡ false → split_path c ≡ ([], c)
split_path_plain [] h = refl
split_path_plain (x ∷ c) h =
    let other : (x == b'/') ≡ false = ground (arith, h) in
    ap (split_before x) (split_path_plain c (ground (arith, h))) ∙ rw other refl

split_path_after :
    (s t file folder : Text) (x : ℕ)
    → split_path t ≡ (x ∷ folder, file)
    → split_path (s ++ t) ≡ (s ++ x ∷ folder, file)
split_path_after [] t file folder x h = h
split_path_after (c ∷ []) t file folder x h = ap (split_before c) h
split_path_after (c ∷ d ∷ s) t file folder x h =
    ap (split_before c) (split_path_after (d ∷ s) t file folder x h)

folder_text : List Text → Text
folder_text [] = []
folder_text (s ∷ ss) = s ++ path_text (ss ++ [] ∷ [])

folder_slash : (ss : List Text) → path_text (ss ++ [] ∷ []) ≡ b'/' ∷ folder_text ss
unfolding folder_text
folder_slash [] = refl
folder_slash (s ∷ ss) = refl

-- The folder of a path, its last slash kept, has an empty last segment.
pub split_path-path_text :
    (ss : List Text) (c : Text)
    → has_slash c ≡ false
    → split_path (path_text (ss ++ c ∷ [])) ≡ (path_text (ss ++ [] ∷ []), c)
split_path-path_text [] c h =
    ap (λ t. split_path (b'/' ∷ t)) (append-nil c) ∙ ap (split_before b'/') (split_path_plain c h)
split_path-path_text (s ∷ ss) c h =
    let slash = folder_slash ss in
    let inner = split_path-path_text ss c h ∙ ap (λ t. (t, c)) slash in
    split_path_after (b'/' ∷ s) (path_text (ss ++ c ∷ [])) c (folder_text ss) b'/' inner
    ∙ ap (λ t. (b'/' ∷ s ++ t, c)) (sym slash)

pub last_segment :
    (s : Text) (ss : List Text) → (init : List Text) × (c : Text) × (s ∷ ss ≡ init ++ c ∷ [])
last_segment s [] = ([], s, refl)
last_segment s (t ∷ ss) = let (init, c, e) = last_segment t ss in (s ∷ init, c, ap (◌∷◌ s) e)

all_plain-folder : (ss : List Text) → all_normal ss ≡ true → all_plain (ss ++ [] ∷ []) ≡ true
all_plain-folder [] h = refl
all_plain-folder (s ∷ ss) h = ground (arith, h, all_plain-folder ss)

pub split-folder :
    (ss : List Text) → all_normal ss ≡ true → split (path_text (ss ++ [] ∷ [])) ≡ [] ∷ ss ++ [] ∷ []
split-folder ss h = split-path_text (ss ++ [] ∷ []) (all_plain-folder ss h)

pub all_normal-init :
    (ss : List Text) (c : Text)
    → all_normal (ss ++ c ∷ []) ≡ true
    → (all_normal ss ≡ true) × (has_slash c ≡ false)
all_normal-init [] c h = (refl, ground (arith, h))
all_normal-init (s ∷ ss) c h =
    let (inner, last) = all_normal-init ss c (ground (arith, h)) in (ground (arith, h, inner), last)
