-- ===== src/Store/Create/Placed.antt =====
-- store/store.go: the parts of internalCreate that put a new file under a free name.
use etcd.Prelude.{
  subst, ℕ, ◌+◌, ◌++◌, ◌≡◌, refl, ap, ◌∙◌, sym, inl, inr, false, none, some, [], ◌∷◌, Bool-cases,
  Result, ok, ◌>>=◌, >>=-eq-ok, ok-pair, ok-injective,
}
use etcd.Prelude.Paths.{Text}
use etcd.Prelude.Names.{Names, split_path}
use etcd.EtcdError.{ecode_node_exist, new_error, Outcome, failed, returned}
use etcd.Store.Event.{Event}
use etcd.Store.Node.{
  Node, kv, dir, Fields, fields, Children, child_at, put_child, new_kv, is_permanent, add, own_name,
  get_child,
}
use etcd.Store.State.{Store, Place, put_at, node_at}
use etcd.Store.TtlHeap
use etcd.Store.TtlHeap.{TtlKeyHeap}
use etcd.Store.Create.{
  new_event, clear_place, get_child, create_in, Action, attach, enter, place_node, create_event,
}

enter_effect :
    (at : Names) (n : Node) (s s' : Store)
    → enter at n s ≡ ok s'
    → (s'.root ≡ s.root) × (s'.current_index ≡ s.current_index)
unfolding enter
enter_effect at n s s' e = elim (Bool-cases (is_permanent n)) [
  | inl permanent ↦
      let same : s ≡ s' = ok-injective (rw permanent at e) in
      (sym (ap (λ m. m.root) same), sym (ap (λ m. m.current_index) same))
  | inr temporary ↦
      let item : TtlHeap.Item = record { at = at; expire_time = (fields n).expire_time } in
      let (h, pushed, rest) =
        >>=-eq-ok (TtlHeap.push item s.ttl_key_heap) (λ h. ok (record s { ttl_key_heap = h }))
          (rw temporary at e) in
      let same = ok-injective rest in
      (sym (ap (λ m. m.root) same), sym (ap (λ m. m.current_index) same))
]

add_free :
    (c : Text) (g : Fields) (below : Children) (n : Node) (current : ℕ)
    → own_name n ≡ c
    → child_at c below ≡ none
    → add current n (dir g below) ≡ returned (dir g (put_child c n below))
unfolding add
add_free c g below n current named =
    subst
      (λ x.
        child_at x below ≡ none
        → add current n (dir g below) ≡ returned (dir g (put_child x n below)))
      named (λ free. rw (add, free) refl)

attach_effect :
    (ds : Names) (c : Text) (g : Fields) (below : Children) (n : Node) (s : Store)
    → node_at ds s.root ≡ some (dir g below)
    → child_at c below ≡ none
    → own_name n ≡ c
    → attach (record { at = ds; node = dir g below }) n s
      ≡ ok (record s { root = put_at ds (dir g (put_child c n below)) s.root })
unfolding attach
attach_effect ds c g below n s h free named =
    rw (h, add_free c g below n s.current_index named free) refl

-- A new file, under a free name of the directory that the walk has reached.
pub record Placed (ds : Names) (c : Text) (g : Fields) (below : Children) (value : Text)
    (s s' : Store) (out : Outcome Event) : Type 0 where
  pub event : Event
  pub is_returned : out ≡ returned event
  pub index : s'.current_index ≡ s.current_index + 1
  pub file : Fields
  pub value_is : file.value ≡ value
  pub tree : s'.root ≡ put_at ds (dir g (put_child c (kv file) below)) s.root

module _ (now t : ℕ) (path value : Text) (ds : Names) (c : Text) (g : Fields) (below : Children)
    (s s' : Store) (out : Outcome Event) (found : node_at ds s.root ≡ some (dir g below))
    (free : child_at c below ≡ none) (named : (split_path path).1 ≡ c) where
  pub place_node_effect :
      (e : Event)
      → place_node now (record { at = ds; node = dir g below }) c path false value t e s
        ≡ ok (s', out)
      → Placed ds c g below value s s' out
  unfolding place_node new_kv
  place_node_effect e h =
      let next = s.current_index + 1 in
      let n : Node = new_kv path value next [] t in
      let file = fields n in
      let d : Place = record { at = ds; node = dir g below } in
      let own : own_name n ≡ c = named in
      let finish : Store → Result (Store × Outcome Event) = λ entered.
        ok (record entered { current_index = next }, returned (create_event now n false value e)) in
      let (attached, first, rest) =
        >>=-eq-ok (attach d n s) (λ a. enter (ds ++ c ∷ []) n a >>= finish) h in
      let (entered, second, rest') = >>=-eq-ok (enter (ds ++ c ∷ []) n attached) finish rest in
      let (store, outcome) = ok-pair rest' in
      let (root, index) = enter_effect (ds ++ c ∷ []) n attached entered second in
      let put = ok-injective (sym first ∙ attach_effect ds c g below n s found free own) in
      record {
        event = create_event now n false value e;
        is_returned = sym outcome;
        index = sym (ap (λ m. m.current_index) store);
        file = file;
        value_is = refl;
        tree = sym (ap (λ m. m.root) store) ∙ root ∙ ap (λ m. m.root) put;
      }

-- `internalCreate` in a directory where the name is free, and where it is not.
module _ (now t : ℕ) (path value : Text) (ds : Names) (c : Text) (g : Fields) (below : Children)
    (action : Action) (s : Store) where
  pub create_in-free :
      child_at c below ≡ none
      → create_in now (record { at = ds; node = dir g below }) c path false value false t action s
        ≡ place_node now
            (record { at = ds; node = dir g below })
            c
            path
            false
            value
            t
            (new_event action path (s.current_index + 1) (s.current_index + 1))
            s
  unfolding create_in get_child clear_place
  create_in-free free = rw (get_child, free) refl

  pub create_in-taken :
      (n : Node)
      → child_at c below ≡ some n
      → create_in now (record { at = ds; node = dir g below }) c path false value false t action s
        ≡ ok (s, failed (new_error ecode_node_exist path s.current_index))
  unfolding create_in get_child clear_place
  create_in-taken n there = rw (get_child, there) refl
