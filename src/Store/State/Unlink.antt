-- ===== src/Store/State/Unlink.antt =====
-- store/node.go: the files of the tree after a file is deleted from the map of its parent.
use etcd.Prelude.{
  arith, true, ◌≡◌, refl, ap, ◌∙◌, sym, inl, inr, none, some, [], ◌∷◌, if◌then◌else◌, Bool-cases,
}
use etcd.Prelude.Paths.{Text, same_text}
use etcd.Prelude.Names.{Names, same_names}
use etcd.Store.Node.{Node, kv, dir, Fields, Children, child_at, put_child, drop_child}
use etcd.Store.State.{node_at, unlink}
use etcd.Store.State.Places.{
  value_at, value_at_step, value_at_first, same_text→≡, file_value, node_below, node_at_first,
  child_at-drop_child,
}
use etcd.Store.State.Files.{value_at-entry}

unlink_step :
    (c d : Text) (cs : Names) (f : Fields) (entries : Children) (n : Node)
    → child_at c entries ≡ some n
    → unlink (c ∷ d ∷ cs) (dir f entries) ≡ dir f (put_child c (unlink (d ∷ cs) n) entries)
unfolding unlink
unlink_step c d cs f entries n h = rw (unlink, h) refl

value_through :
    (c d : Text) (ds : Names) (f : Fields) (entries : Children) (n : Node)
    → child_at c entries ≡ some n
    → same_text c d ≡ true
    → value_at (d ∷ ds) (dir f entries) ≡ value_at ds n
value_through c d ds f entries n there hit =
    ap (λ t. value_at (t ∷ ds) (dir f entries)) (sym (same_text→≡ c d hit))
    ∙ value_at_first c ds f entries n there

-- A file has no files below it.
nothing_else :
    (q : Names) (f : Fields) → none ≡ (if same_names [] q then none else value_at q (kv f))
nothing_else [] f = refl
nothing_else (x ∷ xs) f = unfold value_at node_at in refl

without_child :
    (c : Text) (q : Names) (g f : Fields) (entries : Children)
    → child_at c entries ≡ some (kv f)
    → value_at q (dir g (drop_child c entries))
      ≡ (if same_names (c ∷ []) q then none else value_at q (dir g entries))
without_child c [] g f entries there = unfold value_at node_at in refl
without_child c (d ∷ ds) g f entries there =
    value_at_step d ds g (drop_child c entries)
    ∙ ap (λ o. file_value (node_below ds o)) (child_at-drop_child d c entries)
    ∙ elim (Bool-cases (same_text c d)) [
      | inl hit ↦ rw (hit, value_through c d ds g entries (kv f) there hit) (nothing_else ds f)
      | inr miss ↦ rw miss (sym (value_at_step d ds g entries))
    ]

-- The tree without a file: nothing has its names, and all other files are as before.
pub value_at-unlink :
    (c : Text) (cs q : Names) (f : Fields) (root : Node)
    → node_at (c ∷ cs) root ≡ some (kv f)
    → value_at q (unlink (c ∷ cs) root) ≡ (if same_names (c ∷ cs) q then none else value_at q root)
value_at-unlink c cs q f (kv g) h = unfold node_at in cc
value_at-unlink c [] q f (dir g entries) h =
    let (n, there, below) = node_at_first c [] g entries (kv f) h in
    let is_file : n ≡ kv f = unfold node_at in ground (arith, below) in
    unfold unlink in without_child c q g f entries (there ∙ ap some is_file)
value_at-unlink c (d ∷ cs) q f (dir g entries) h =
    let (n, there, below) = node_at_first c (d ∷ cs) g entries (kv f) h in
    ap (value_at q) (unlink_step c d cs g entries n there)
    ∙ value_at-entry c q g (unlink (d ∷ cs) n) entries
    ∙ inside q n there (λ xs. value_at-unlink d cs xs f n below)
  where
    inside :
        (q : Names) (n : Node)
        → child_at c entries ≡ some n
        → ((xs : Names)
            → value_at xs (unlink (d ∷ cs) n)
              ≡ (if same_names (d ∷ cs) xs then none else value_at xs n))
        → (elim q [
          | [] ↦ none
          | x ∷ xs ↦
              if same_text c x
              then value_at xs (unlink (d ∷ cs) n)
              else value_at (x ∷ xs) (dir g entries)
        ])
          ≡ (if same_names (c ∷ d ∷ cs) q then none else value_at q (dir g entries))
    inside [] n there rest = unfold value_at node_at in refl
    inside (x ∷ xs) n there rest = elim (Bool-cases (same_text c x)) [
      | inl hit ↦ rw (hit, value_through c x xs g entries n there hit) (rest xs)
      | inr miss ↦ rw miss refl
    ]
