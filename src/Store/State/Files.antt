-- ===== src/Store/State/Files.antt =====
-- store/store.go: the files of the tree, as a map from names to values, when a node is written.
use etcd.Prelude.{
  ◌++◌, ◌≡◌, refl, ap, ◌∙◌, sym, inl, inr, true, false, Option, none, some, [], ◌∷◌, arith,
  if◌then◌else◌, Bool-cases,
}
use etcd.Prelude.Paths.{Text, same_text}
use etcd.Prelude.Names.{Names, same_names}
use etcd.Store.Node.{child_at, put_child, Node, kv, dir, Fields, Children}
use etcd.Store.State.{node_at, put_at}
use etcd.Store.State.Places.{
  node_at_step, value_at-eq, child_at-put_child, node_below, file_value, value_at_step, value_at,
  value_at-put_at, value_at_first, below_of, replaced, node_at_first, same_text→≡,
}

below_step :
    (c d : Text) (cs ds : Names)
    → same_text c d ≡ true
    → below_of (c ∷ cs) (d ∷ ds) ≡ below_of cs ds
below_step c d cs ds h = rw h refl

pub value_below :
    (at q rest : Names) (root n : Node)
    → node_at at root ≡ some n
    → below_of at q ≡ some rest
    → value_at q root ≡ value_at rest n
value_below [] q rest root n h e = unfold node_at in ground (arith, h, e)
value_below (c ∷ cs) [] rest root n h e = cc
value_below (c ∷ cs) (d ∷ ds) rest (kv f) n h e = unfold node_at in cc
value_below (c ∷ cs) (d ∷ ds) rest (dir f entries) n h e =
    let (m, there, below) = node_at_first c cs f entries n h in
    elim (Bool-cases (same_text c d)) [
      | inl hit ↦
          ap (λ t. value_at (t ∷ ds) (dir f entries)) (sym (same_text→≡ c d hit))
          ∙ value_at_first c ds f entries m there
          ∙ value_below cs ds rest m n below (rw (sym (below_step c d cs ds hit)) e)
      | inr miss ↦ absurd (ground (arith, e, miss))
    ]

same_names-below_of :
    (at q : Names)
    → same_names at q
      ≡ elim (below_of at q) [ none ↦ false | some [] ↦ true | some (x ∷ xs) ↦ false ]
same_names-below_of [] [] = refl
same_names-below_of [] (d ∷ ds) = refl
same_names-below_of (c ∷ cs) [] = refl
same_names-below_of (c ∷ cs) (d ∷ ds) = elim (Bool-cases (same_text c d)) [
  | inl hit ↦ rw hit (same_names-below_of cs ds)
  | inr miss ↦ rw miss refl
]

-- Another file at the place of a file: its value is there, and all other files are as before.
pub value_at-write :
    (at q : Names) (f g : Fields) (root : Node)
    → node_at at root ≡ some (kv f)
    → value_at q (put_at at (kv g) root)
      ≡ (if same_names at q then some g.value else value_at q root)
value_at-write at q f g root h =
    value_at-put_at at q (kv g) (kv f) root h ∙ written (below_of at q) refl
  where
    written :
        (o : Option Names)
        → below_of at q ≡ o
        → replaced (below_of at q) (kv g) (value_at q root)
          ≡ (if same_names at q then some g.value else value_at q root)
    written none e = rw (same_names-below_of at q, e) refl
    written (some []) e = rw (same_names-below_of at q, e) (unfold value_at node_at in refl)
    written (some (x ∷ xs)) e =
        rw (same_names-below_of at q, e, value_below at q (x ∷ xs) root (kv f) h e)
          (unfold value_at node_at in refl)

-- Another node with the same files leaves every file of the tree as it was.
pub value_at-same :
    (at q : Names) (new old root : Node)
    → node_at at root ≡ some old
    → ((rest : Names) → value_at rest new ≡ value_at rest old)
    → value_at q (put_at at new root) ≡ value_at q root
value_at-same at q new old root h same =
    value_at-put_at at q new old root h ∙ kept (below_of at q) refl
  where
    kept :
        (o : Option Names)
        → below_of at q ≡ o
        → replaced (below_of at q) new (value_at q root) ≡ value_at q root
    kept none e = rw e refl
    kept (some rest) e = rw (e, value_below at q rest root old h e) (same rest)

-- A new entry, the files of the others being as they were.
pub value_at-entry :
    (c : Text) (rest : Names) (f : Fields) (new : Node) (entries : Children)
    → value_at rest (dir f (put_child c new entries)) ≡ (elim rest [
      | [] ↦ none
      | d ∷ ds ↦ if same_text c d then value_at ds new else value_at (d ∷ ds) (dir f entries)
    ])
value_at-entry c [] f new entries = unfold value_at node_at in refl
value_at-entry c (d ∷ ds) f new entries =
    value_at_step d ds f (put_child c new entries)
    ∙ ap (λ o. file_value (node_below ds o)) (child_at-put_child d c new entries)
    ∙ elim (Bool-cases (same_text c d)) [
      | inl hit ↦ rw hit (sym (value_at-eq ds new))
      | inr miss ↦ rw miss (sym (value_at_step d ds f entries))
    ]

pub node_at-append :
    (at : Names) (c : Text) (root n : Node) (f : Fields) (entries : Children)
    → node_at at root ≡ some (dir f entries)
    → child_at c entries ≡ some n
    → node_at (at ++ c ∷ []) root ≡ some n
node_at-append [] c root n f entries h there =
    let is_root : root ≡ dir f entries = unfold node_at in ground (arith, h) in
    let none_left : node_at [] n ≡ some n = unfold node_at in refl in
    ap (node_at (c ∷ [])) is_root
    ∙ node_at_step c [] f entries
    ∙ ap (node_below []) there
    ∙ none_left
node_at-append (d ∷ at) c (kv g) n f entries h there = unfold node_at in cc
node_at-append (d ∷ at) c (dir g below) n f entries h there =
    let (m, first, rest) = node_at_first d at g below (dir f entries) h in
    node_at_step d (at ++ c ∷ []) g below
    ∙ ap (node_below (at ++ c ∷ [])) first
    ∙ node_at-append at c m n f entries rest there
