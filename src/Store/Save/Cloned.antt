-- ===== src/Store/Save/Cloned.antt =====
-- store/node.go: what Clone keeps of a tree.
use etcd.Prelude.{
  sym, ◌≡◌, refl, ap, ◌∙◌, inl, inr, Option, none, some, [], ◌∷◌, Bool-cases, Option-cases,
}
use etcd.Prelude.Paths.{Text, same_text}
use etcd.Prelude.Names.{Names}
use etcd.Store.Node
use etcd.Store.Node.{
  Node, kv, dir, Children, childless, child, child_at, Fields, fields, clone_children,
}
use etcd.Store.State.{node_at}
use etcd.Store.State.Places.{value_at-eq, file_value, value_at, node_at_step, node_below}

abbrev cloned : Option Node → Option Node
cloned none = none
cloned (some n) = some (Node.clone n)

child_at-clone_children :
    (c : Text) (cs : Children) → child_at c (clone_children cs) ≡ cloned (child_at c cs)
unfolding clone_children
child_at-clone_children c childless = refl
child_at-clone_children c (child key n cs) = elim (Bool-cases (same_text key c)) [
  | inl hit ↦ rw hit refl
  | inr miss ↦ rw miss (child_at-clone_children c cs)
]

clone_dir :
    (f : Fields) (cs : Children)
    → (g : Fields) × (Node.clone (dir f cs) ≡ dir g (clone_children cs))
unfolding Node.clone
clone_dir f cs = (fields (Node.clone (dir f cs)), refl)

node_at-clone : (at : Names) (root : Node) → node_at at (Node.clone root) ≡ cloned (node_at at root)
node_at-clone [] root = unfold node_at in refl
node_at-clone (c ∷ cs) (kv f) = unfold node_at Node.clone in refl
node_at-clone (c ∷ cs) (dir f entries) =
    let (g, shape) = clone_dir f entries in
    ap (node_at (c ∷ cs)) shape
    ∙ node_at_step c cs g (clone_children entries)
    ∙ ap (node_below cs) (child_at-clone_children c entries)
    ∙ elim (Option-cases (child_at c entries)) [
      | inl missing ↦ rw (node_at_step c cs f entries, missing) refl
      | inr (n, there) ↦ rw (node_at_step c cs f entries, there) (node_at-clone cs n)
    ]

-- Every file has the value that it had.
pub value_at-clone : (at : Names) (root : Node) → value_at at (Node.clone root) ≡ value_at at root
value_at-clone at root =
    value_at-eq at (Node.clone root)
    ∙ ap file_value (node_at-clone at root)
    ∙ shown (node_at at root)
    ∙ sym (value_at-eq at root)
  where
    shown : (o : Option Node) → file_value (cloned o) ≡ file_value o
    shown none = refl
    shown (some (kv f)) = unfold Node.clone in refl
    shown (some (dir f cs)) = let (g, shape) = clone_dir f cs in ap (λ n. file_value (some n)) shape

-- What a copy of a node has of its indexes and its time: it counts as modified when it was created.
pub record IsCopy (n m : Node) : Type 0 where
  pub created : (fields m).created_index ≡ (fields n).created_index
  pub modified : (fields m).modified_index ≡ (fields n).created_index
  pub expires : (fields m).expire_time ≡ (fields n).expire_time

clone-IsCopy : (n : Node) → IsCopy n (Node.clone n)
unfolding Node.clone
clone-IsCopy (kv f) = record { created = refl; modified = refl; expires = refl }
clone-IsCopy (dir f cs) = record { created = refl; modified = refl; expires = refl }

pub copy_at :
    (at : Names) (root n : Node)
    → node_at at root ≡ some n
    → (m : Node) × (node_at at (Node.clone root) ≡ some m) × IsCopy n m
copy_at at root n h = (Node.clone n, node_at-clone at root ∙ ap cloned h, clone-IsCopy n)
