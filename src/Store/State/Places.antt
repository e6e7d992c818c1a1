-- ===== src/Store/State/Places.antt =====
-- store/store.go: what the names of a node lead to, before and after the tree has changed there.
use etcd.Prelude.{
  ◌≡◌, refl, ap, ◌∙◌, sym, inl, inr, true, Option, none, some, [], ◌∷◌, arith, if◌then◌else◌,
  Bool-cases, Option-cases,
}
use etcd.Prelude.Paths.{Text, same_text}
use etcd.Prelude.Names.{Names}
use etcd.Store.Node.{
  Node, kv, dir, Children, childless, child, child_at, put_child, drop_child, Fields,
}
use etcd.Store.State.{node_at, put_at}

pub same_text_refl : (s : Text) → same_text s s ≡ true
same_text_refl [] = refl
same_text_refl (c ∷ s) = ground (arith, same_text_refl s)

pub same_text→≡ : (s t : Text) → same_text s t ≡ true → s ≡ t
same_text→≡ [] [] h = refl
same_text→≡ [] (d ∷ t) h = cc
same_text→≡ (c ∷ s) [] h = cc
same_text→≡ (c ∷ s) (d ∷ t) h = ground (arith, same_text→≡ s t)

same_text_meet : (s t u : Text) → same_text s u ≡ true → same_text t u ≡ true → same_text s t ≡ true
same_text_meet s t u h g = rw (same_text→≡ s u h, same_text→≡ t u g) (same_text_refl u)

pub child_at-put_child :
    (name key : Text) (new : Node) (cs : Children)
    → child_at name (put_child key new cs)
      ≡ (if same_text key name then some new else child_at name cs)
child_at-put_child name key new childless = refl
child_at-put_child name key new (child k n cs) =
    ground (arith, same_text→≡ k key, same_text_meet k key name, child_at-put_child name key new cs)

pub child_at-drop_child :
    (name key : Text) (cs : Children)
    → child_at name (drop_child key cs) ≡ (if same_text key name then none else child_at name cs)
child_at-drop_child name key childless = ground arith
child_at-drop_child name key (child k n cs) =
    ground (arith, same_text→≡ k key, same_text_meet k key name, child_at-drop_child name key cs)

-- The node that names lead to from an entry of the children.
abbrev pub node_below : Names → Option Node → Option Node
node_below cs none = none
node_below cs (some n) = node_at cs n

pub node_at_step :
    (c : Text) (cs : Names) (f : Fields) (children : Children)
    → node_at (c ∷ cs) (dir f children) ≡ node_below cs (child_at c children)
unfolding node_at
node_at_step c cs f children = elim (Option-cases (child_at c children)) [
  | inl missing ↦ rw (node_at, missing) refl
  | inr (n, there) ↦ rw (node_at, there) refl
]

-- Where names lead somewhere, their first name has an entry.
pub node_at_first :
    (c : Text) (cs : Names) (f : Fields) (children : Children) (old : Node)
    → node_at (c ∷ cs) (dir f children) ≡ some old
    → (n : Node) × (child_at c children ≡ some n) × (node_at cs n ≡ some old)
node_at_first c cs f children old h = elim (Option-cases (child_at c children)) [
  | inl missing ↦ absurd (cc (h, node_at_step c cs f children, missing))
  | inr (n, there) ↦ (n, there, cc (h, node_at_step c cs f children, there))
]

put_at_step :
    (c : Text) (cs : Names) (new : Node) (f : Fields) (children : Children) (n : Node)
    → child_at c children ≡ some n
    → put_at (c ∷ cs) new (dir f children) ≡ dir f (put_child c (put_at cs new n) children)
unfolding put_at
put_at_step c cs new f children n h = rw (put_at, h) refl

-- The value of the file that names lead to.
abbrev pub file_value : Option Node → Option Text
file_value none = none
file_value (some (kv f)) = some f.value
file_value (some (dir f cs)) = none

unfoldable pub value_at : Names → Node → Option Text
unfolding node_at
value_at at root = file_value (node_at at root)

pub node_at-put_at :
    (at : Names) (new old root : Node)
    → node_at at root ≡ some old
    → node_at at (put_at at new root) ≡ some new
node_at-put_at [] new old root h = unfold node_at put_at in refl
node_at-put_at (c ∷ cs) new old (kv f) h = unfold node_at in cc
node_at-put_at (c ∷ cs) new old (dir f children) h =
    let (n, there, below) = node_at_first c cs f children old h in
    rw
      (
        put_at_step c cs new f children n there,
        node_at_step c cs f (put_child c (put_at cs new n) children),
        child_at-put_child c c (put_at cs new n) children,
        same_text_refl c,
      )
      (node_at-put_at cs new old n below)

pub value_at-eq : (at : Names) (root : Node) → value_at at root ≡ file_value (node_at at root)
unfolding value_at
value_at-eq at root = refl

pub value_at_step :
    (c : Text) (cs : Names) (f : Fields) (children : Children)
    → value_at (c ∷ cs) (dir f children) ≡ file_value (node_below cs (child_at c children))
unfolding value_at
value_at_step c cs f children = ap file_value (node_at_step c cs f children)

pub value_at_first :
    (c : Text) (cs : Names) (f : Fields) (children : Children) (n : Node)
    → child_at c children ≡ some n
    → value_at (c ∷ cs) (dir f children) ≡ value_at cs n
value_at_first c cs f children n h =
    value_at_step c cs f children
    ∙ ap (λ o. file_value (node_below cs o)) h
    ∙ sym (value_at-eq cs n)

-- What is left of the names `q` after the names `at`, where `q` leads through them.
abbrev pub below_of : Names → Names → Option Names
below_of [] q = some q
below_of (c ∷ cs) [] = none
below_of (c ∷ cs) (d ∷ ds) = if same_text c d then below_of cs ds else none

abbrev pub replaced : Option Names → Node → Option Text → Option Text
replaced none new before = before
replaced (some rest) new before = value_at rest new

-- The files of a tree with another node at a place: those of this node below the place, and
-- elsewhere those that were there.
pub value_at-put_at :
    (at q : Names) (new old root : Node)
    → node_at at root ≡ some old
    → value_at q (put_at at new root) ≡ replaced (below_of at q) new (value_at q root)
value_at-put_at [] q new old root h = unfold put_at in refl
value_at-put_at (c ∷ cs) q new old (kv f) h = unfold node_at in cc
value_at-put_at (c ∷ cs) [] new old (dir f children) h =
    let (n, there, below) = node_at_first c cs f children old h in
    rw (put_at_step c cs new f children n there) (unfold value_at in refl)
value_at-put_at (c ∷ cs) (d ∷ ds) new old (dir f children) h =
    let (n, there, below) = node_at_first c cs f children old h in
    let put : Node = put_at cs new n in
    let step : value_at (d ∷ ds) (put_at (c ∷ cs) new (dir f children))
        ≡ file_value (node_below ds (if same_text c d then some put else child_at d children)) =
      rw
        (
          put_at_step c cs new f children n there,
          value_at_step d ds f (put_child c put children),
          child_at-put_child d c put children,
        )
        refl in
    step ∙ elim (Bool-cases (same_text c d)) [
      | inl hit ↦
          let before : value_at (d ∷ ds) (dir f children) ≡ value_at ds n =
            ap (λ t. value_at (t ∷ ds) (dir f children)) (sym (same_text→≡ c d hit))
            ∙ value_at_first c ds f children n there in
          let inner : file_value (node_at ds put) ≡ replaced (below_of cs ds) new (value_at ds n) =
            sym (value_at-eq ds put) ∙ value_at-put_at cs ds new old n below in
          rw (hit, before) inner
      | inr miss ↦ rw miss (sym (value_at_step d ds f children))
    ]
