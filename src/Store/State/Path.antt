-- ===== src/Store/State/Path.antt =====
-- store/store.go: the path that an operation makes of the one it is given, and its segments.
use etcd.Prelude.{◌≡◌, refl, ap, ◌∙◌, sym, true, List, [], ◌∷◌, arith, drop}
use etcd.Prelude.Paths.{Text, same_text, clean}
use etcd.Prelude.Names.{join}
use etcd.Prelude.Clean.{
  clean-rooted_text, all_normal, rooted_text, segments, segments_normal, clean-rooted,
  split-rooted_text, segments-rooted_text,
}
use etcd.Store.State.{full_path}
use etcd.Store.State.Places.{same_text→≡}
use etcd.Store.State.Walk.{until_empty, names_of}

join_root : (s : Text) → join (b'/' ∷ []) s ≡ clean (b'/' ∷ b'/' ∷ s)
unfolding join
join_root s = refl

full_path-eq : (s : Text) → full_path s ≡ clean (join (b'/' ∷ []) s)
unfolding full_path
full_path-eq s = refl

pub full_path-segments : (s : Text) → full_path s ≡ rooted_text (segments s)
full_path-segments s =
    full_path-eq s
    ∙ ap clean (join_root s ∙ clean-rooted (b'/' ∷ s))
    ∙ clean-rooted_text (segments s) (segments_normal s)

pub until_empty_normal : (ss : List Text) → all_normal ss ≡ true → until_empty ss ≡ ss
until_empty_normal [] h = refl
until_empty_normal ([] ∷ ss) h = cc
until_empty_normal ((c ∷ s) ∷ ss) h = ground (arith, h, until_empty_normal ss)

names_of-rooted_text : (ss : List Text) → all_normal ss ≡ true → names_of (rooted_text ss) ≡ ss
names_of-rooted_text [] h = refl
names_of-rooted_text (s ∷ ss) h =
    ap (λ t. until_empty (drop 1 t)) (split-rooted_text s ss h) ∙ until_empty_normal (s ∷ ss) h

-- The names that the path of an operation leads through are its segments.
pub names_of-full_path : (s : Text) → names_of (full_path s) ≡ segments s
names_of-full_path s =
    ap names_of (full_path-segments s) ∙ names_of-rooted_text (segments s) (segments_normal s)

segments-full_path : (s : Text) → segments (full_path s) ≡ segments s
segments-full_path s =
    ap segments (full_path-segments s) ∙ segments-rooted_text (segments s) (segments_normal s)

pub segments_root : (s : Text) → same_text (full_path s) (b'/' ∷ []) ≡ true → segments s ≡ []
segments_root s h =
    sym (segments-full_path s) ∙ ap segments (same_text→≡ (full_path s) (b'/' ∷ []) h)

-- The path of an operation stays as it is when it is made again.
pub full_path-full_path : (s : Text) → full_path (full_path s) ≡ full_path s
full_path-full_path s =
    full_path-segments (full_path s)
    ∙ ap (λ t. rooted_text (segments t)) (full_path-segments s)
    ∙ ap rooted_text (segments-rooted_text (segments s) (segments_normal s))
    ∙ sym (full_path-segments s)
