-- ===== src/Store/State/Walk.antt =====
-- store/store.go: where the walk of `internalGet` ends.
use mathlib.Core.List.{append-nil, append_assoc}
use etcd.Prelude.{
  ◌≡◌, refl, ◌∙◌, inl, inr, ◌⊎◌, true, false, none, some, List, [], ◌∷◌, ◌++◌, ◌==◌, if◌then◌else◌,
  Bool-cases, Option-cases, length, drop, Result, ok,
}
use etcd.Prelude.Paths.{Text, split}
use etcd.Prelude.Names.{join, Names}
use etcd.EtcdError.{Error, Outcome, failed, returned, new_error, ecode_not_dir, ecode_key_not_found}
use etcd.Store.Node.{Children, Node, kv, dir, Fields, child_at}
use etcd.Store.State.{
  Store, Place, node_at, walk, walk_loop, get_component, internal_get, full_path,
}
use etcd.Store.State.Places.{node_at_step}

-- The components that a walk takes: those before the first empty one.
abbrev pub until_empty : List Text → Names
until_empty [] = []
until_empty (c ∷ cs) = if length c == 0 then [] else c ∷ until_empty cs

-- The names that lead to the node of a path.
abbrev pub names_of : Text → Names
names_of path = until_empty (drop 1 (split path))

module _ (f : Store → Place → Text → Result (Store × Outcome Place)) (c : Text)
    (cs : List Text) where
  pub loop_stop :
      (s : Store) (p : Place)
      → (length c == 0) ≡ true
      → walk_loop f (c ∷ cs) s p ≡ ok (s, returned p)
  unfolding walk_loop
  loop_stop s p z = rw z refl

  pub loop_step :
      (s t : Store) (p q : Place)
      → (length c == 0) ≡ false
      → f s p c ≡ ok (t, returned q)
      → walk_loop f (c ∷ cs) s p ≡ walk_loop f cs t q
  unfolding walk_loop
  loop_step s t p q nz h = rw (nz, h) refl

  pub loop_fail :
      (s t : Store) (p : Place) (err : Error)
      → (length c == 0) ≡ false
      → f s p c ≡ ok (t, failed err)
      → walk_loop f (c ∷ cs) s p ≡ ok (t, failed err)
  unfolding walk_loop
  loop_fail s t p err nz h = rw (nz, h) refl

get_step :
    (s : Store) (at : Names) (f : Fields) (below : Children) (name : Text) (n : Node)
    → child_at name below ≡ some n
    → get_component s (record { at = at; node = dir f below }) name
      ≡ ok (s, returned (record { at = at ++ name ∷ []; node = n }))
unfolding get_component
get_step s at f below name n h = rw (get_component, h) refl

get_miss :
    (s : Store) (at : Names) (f : Fields) (below : Children) (name : Text)
    → child_at name below ≡ none
    → (err : Error) × (get_component s (record { at = at; node = dir f below }) name
        ≡ ok (s, failed err))
unfolding get_component
get_miss s at f below name h =
    (new_error ecode_key_not_found (join f.path name) s.current_index, rw (get_component, h) refl)

get_file :
    (s : Store) (at : Names) (f : Fields) (name : Text)
    → (err : Error) × (get_component s (record { at = at; node = kv f }) name ≡ ok (s, failed err))
unfolding get_component
get_file s at f name = (new_error ecode_not_dir f.path s.current_index, refl)

-- Where the walk ends, from a node to which the names `at` lead.
IsWalk : List Text → Store → Names → Node → Type 0
IsWalk cs s at node =
    ((n : Node) × (node_at (until_empty cs) node ≡ some n)
      × (walk_loop get_component cs s (record { at = at; node = node })
          ≡ ok (s, returned (record { at = at ++ until_empty cs; node = n }))))
    ⊎ ((err : Error) × (node_at (until_empty cs) node ≡ none)
        × (walk_loop get_component cs s (record { at = at; node = node }) ≡ ok (s, failed err)))

walks_stop :
    (c : Text) (cs : List Text) (s : Store) (at : Names) (node : Node)
    → (length c == 0) ≡ true
    → IsWalk (c ∷ cs) s at node
unfolding IsWalk
walks_stop c cs s at node z =
    let stop = loop_stop get_component c cs s (record { at = at; node = node }) z in
    rw z (inl (node, unfold node_at in refl, rw (append-nil at) stop))

walks_fail :
    (c : Text) (cs : List Text) (s : Store) (at : Names) (node : Node) (err : Error)
    → (length c == 0) ≡ false
    → node_at (c ∷ until_empty cs) node ≡ none
    → get_component s (record { at = at; node = node }) c ≡ ok (s, failed err)
    → IsWalk (c ∷ cs) s at node
unfolding IsWalk
walks_fail c cs s at node err nz missing h =
    let fail = loop_fail get_component c cs s s (record { at = at; node = node }) err nz h in
    rw nz (inr (err, missing, fail))

walks_next :
    (c : Text) (cs : List Text) (s : Store) (at : Names) (f : Fields) (below : Children) (n : Node)
    → (length c == 0) ≡ false
    → child_at c below ≡ some n
    → IsWalk cs s (at ++ c ∷ []) n
    → IsWalk (c ∷ cs) s at (dir f below)
unfolding IsWalk
walks_next c cs s at f below n nz there next =
    let lead : node_at (c ∷ until_empty cs) (dir f below) ≡ node_at (until_empty cs) n =
      node_at_step c (until_empty cs) f below ∙ rw there refl in
    let step =
      loop_step get_component c cs s s (record { at = at; node = dir f below })
        (record { at = at ++ c ∷ []; node = n }) nz (get_step s at f below c n there) in
    rw nz (elim next [
      | inl (m, found, walk) ↦
          inl (m, lead ∙ found, step ∙ walk ∙ rw (append_assoc at (c ∷ []) (until_empty cs)) refl)
      | inr (err, missing, walk) ↦ inr (err, lead ∙ missing, step ∙ walk)
    ])

walks : (cs : List Text) (s : Store) (at : Names) (node : Node) → IsWalk cs s at node
walks [] s at node = unfold IsWalk walk_loop node_at in inl (node, refl, rw (append-nil at) refl)
walks (c ∷ cs) s at (kv f) = elim (Bool-cases (length c == 0)) [
  | inl z ↦ walks_stop c cs s at (kv f) z
  | inr nz ↦
      let (err, h) = get_file s at f c in
      walks_fail c cs s at (kv f) err nz (unfold node_at in refl) h
]
walks (c ∷ cs) s at (dir f below) = elim (Bool-cases (length c == 0)) [
  | inl z ↦ walks_stop c cs s at (dir f below) z
  | inr nz ↦ elim (Option-cases (child_at c below)) [
    | inl missing ↦
        let (err, h) = get_miss s at f below c missing in
        walks_fail c cs s at (dir f below) err nz
          (node_at_step c (until_empty cs) f below ∙ rw missing refl) h
    | inr (n, there) ↦ walks_next c cs s at f below n nz there (walks cs s (at ++ c ∷ []) n)
  ]
]

-- What `internalGet` finds: the node to which the names of the path lead, or an error.
unfoldable pub IsFound : Store → Text → Type 0
IsFound s path =
    let at = names_of (full_path path) in
    ((n : Node) × (node_at at s.root ≡ some n)
      × (internal_get s path ≡ ok (returned (record { at = at; node = n }))))
    ⊎ ((err : Error) × (node_at at s.root ≡ none) × (internal_get s path ≡ ok (failed err)))

pub internal_get_cases : (s : Store) (path : Text) → IsFound s path
unfolding IsFound IsWalk internal_get walk
internal_get_cases s path = elim (walks (drop 1 (split (full_path path))) s [] s.root) [
  | inl (n, found, walk) ↦ inl (n, found, rw walk refl)
  | inr (err, missing, walk) ↦ inr (err, missing, rw walk refl)
]
