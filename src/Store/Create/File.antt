-- ===== src/Store/Create/File.antt =====
-- store/store.go: the files of the tree with a new file in a directory.
use etcd.Prelude.{
  ◌++◌, ◌≡◌, refl, ap, ◌∙◌, sym, inl, inr, false, Option, none, some, [], ◌∷◌, if◌then◌else◌,
  Bool-cases,
}
use etcd.Prelude.Paths.{Text, same_text}
use etcd.Prelude.Names.{Names, same_names}
use etcd.Store.Node.{Node, kv, dir, Fields, Children, child_at, put_child}
use etcd.Store.State.{node_at, put_at}
use etcd.Store.State.Places.{
  value_at, value_at-put_at, same_text_refl, value_at_step, below_of, replaced, same_text→≡,
  file_value, node_below,
}
use etcd.Store.State.Files.{value_below, value_at-entry}

-- A name after the names of a directory, against names that lead through the directory.
same_names-append :
    (ds q : Names) (c : Text)
    → same_names (ds ++ c ∷ []) q
      ≡ (elim (below_of ds q) [ none ↦ false | some rest ↦ same_names (c ∷ []) rest ])
same_names-append [] q c = refl
same_names-append (d ∷ ds) [] c = refl
same_names-append (d ∷ ds) (x ∷ q) c = elim (Bool-cases (same_text d x)) [
  | inl hit ↦ rw hit (same_names-append ds q c)
  | inr miss ↦ rw miss refl
]

file_alone :
    (q : Names) (k : Fields) → value_at q (kv k) ≡ (elim q [ [] ↦ some k.value | x ∷ xs ↦ none ])
file_alone [] k = unfold value_at node_at in refl
file_alone (x ∷ xs) k = unfold value_at node_at in refl

-- What a new file under a free name of a directory adds to the files below the directory.
entry_file :
    (rest : Names) (c : Text) (g k : Fields) (below : Children)
    → child_at c below ≡ none
    → value_at rest (dir g (put_child c (kv k) below))
      ≡ (if same_names (c ∷ []) rest then some k.value else value_at rest (dir g below))
entry_file [] c g k below free = unfold value_at node_at in refl
entry_file (x ∷ xs) c g k below free =
    value_at-entry c (x ∷ xs) g (kv k) below ∙ elim (Bool-cases (same_text c x)) [
      | inl hit ↦
          let nothing : value_at (x ∷ xs) (dir g below) ≡ none =
            value_at_step x xs g below
            ∙ ap (λ o. file_value (node_below xs o))
                (ap (λ t. child_at t below) (sym (same_text→≡ c x hit)) ∙ free) in
          rw hit (file_alone xs k ∙ alone xs nothing)
      | inr miss ↦ rw miss refl
    ]
  where
    alone :
        (ys : Names)
        → value_at (x ∷ xs) (dir g below) ≡ none
        → (elim ys [ [] ↦ some k.value | y ∷ rest ↦ none ])
          ≡ (if same_names [] ys then some k.value else value_at (x ∷ xs) (dir g below))
    alone [] e = refl
    alone (y ∷ ys) e = sym e

-- A new file under a free name: its value is at its names, and every other file is as it was.
pub value_at-file :
    (ds q : Names) (c : Text) (g k : Fields) (below : Children) (root : Node)
    → node_at ds root ≡ some (dir g below)
    → child_at c below ≡ none
    → value_at q (put_at ds (dir g (put_child c (kv k) below)) root)
      ≡ (if same_names (ds ++ c ∷ []) q then some k.value else value_at q root)
value_at-file ds q c g k below root h free =
    value_at-put_at ds q (dir g (put_child c (kv k) below)) (dir g below) root h
    ∙ seen (below_of ds q) refl
  where
    seen :
        (o : Option Names)
        → below_of ds q ≡ o
        → replaced (below_of ds q) (dir g (put_child c (kv k) below)) (value_at q root)
          ≡ (if same_names (ds ++ c ∷ []) q then some k.value else value_at q root)
    seen none e = rw (same_names-append ds q c, e) refl
    seen (some rest) e =
        rw (same_names-append ds q c, e, value_below ds q rest root (dir g below) h e)
          (entry_file rest c g k below free)

below_of-append : (ds : Names) (c : Text) → below_of ds (ds ++ c ∷ []) ≡ some (c ∷ [])
below_of-append [] c = refl
below_of-append (d ∷ ds) c = rw (same_text_refl d) (below_of-append ds c)

-- Under a free name there is no file.
pub no_file_free :
    (ds : Names) (c : Text) (g : Fields) (below : Children) (root : Node)
    → node_at ds root ≡ some (dir g below)
    → child_at c below ≡ none
    → value_at (ds ++ c ∷ []) root ≡ none
no_file_free ds c g below root h free =
    value_below ds (ds ++ c ∷ []) (c ∷ []) root (dir g below) h (below_of-append ds c)
    ∙ value_at_step c [] g below
    ∙ ap (λ o. file_value (node_below [] o)) free
