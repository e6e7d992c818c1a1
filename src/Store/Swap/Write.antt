-- ===== src/Store/Swap/Write.antt =====
-- store/store.go and store/node.go: what Write and UpdateTTL leave of a node and of the store.
use etcd.Prelude.{
  ℕ, ◌≡◌, refl, ap, ◌∙◌, sym, inl, inr, arith, Bool-cases, Result, ok, >>=-eq-ok, ok-pair, ◌>>=◌,
  ◌==◌,
}
use etcd.Prelude.Paths.{Text}
use etcd.Prelude.Names.{Names}
use etcd.Store.Node.{Children, is_permanent, Node, kv, dir, Fields, fields, with_fields, write}
use etcd.Store.TtlHeap
use etcd.Store.TtlHeap.{TtlKeyHeap}
use etcd.Store.State.{Store, Place, put_at}
use etcd.Store.State.Remove.{update_ttl}
use etcd.Store.Swap.{rewrite}

abbrev timed : ℕ → Node → Node
timed t n = with_fields n (record (fields n) { expire_time = t })

timed_same : (t : ℕ) (n : Node) → (fields n).expire_time ≡ t → n ≡ timed t n
timed_same t (kv f) h = ap kv (ground (arith, h))
timed_same t (dir f entries) h = ap (λ g. dir g entries) (ground (arith, h))

abbrev with_heap : Node → TtlKeyHeap → Result (Node × TtlKeyHeap)
with_heap n h = ok (n, h)

-- What a heap operation gives does not reach the node.
then_node :
    (m : Result TtlKeyHeap) (n n' : Node) (h' : TtlKeyHeap)
    → (m >>= with_heap n) ≡ ok (n', h')
    → n' ≡ n
then_node m n n' h' e = let (h, first, rest) = >>=-eq-ok m (with_heap n) e in sym (ok-pair rest).0

-- The node after `UpdateTTL` is the node before with the new time.
update_ttl-node :
    (t : ℕ) (place : Place) (h h' : TtlKeyHeap) (n : Node)
    → update_ttl t place h ≡ ok (n, h')
    → n ≡ timed t place.node
update_ttl-node t place h h' n e = elim (Bool-cases (is_permanent place.node)) [
  | inl permanent ↦ elim (Bool-cases (t == 0)) [
    | inl zero_time ↦
        let step : update_ttl t place h ≡ with_heap place.node h =
          unfold update_ttl in rw (permanent, zero_time) refl in
        sym (ok-pair (sym step ∙ e)).0
        ∙ timed_same t place.node (ground (arith, permanent, zero_time))
    | inr time ↦
        let step : update_ttl t place h ≡ (
            TtlHeap.push (record { at = place.at; expire_time = t }) h
            >>= with_heap (timed t place.node)) =
          unfold update_ttl in rw (permanent, time) refl in
        then_node (TtlHeap.push (record { at = place.at; expire_time = t }) h) (timed t place.node)
          n h' (sym step ∙ e)
  ]
  | inr temporary ↦ elim (Bool-cases (t == 0)) [
    | inl zero_time ↦
        let step : update_ttl t place h
            ≡ (TtlHeap.remove place.at h >>= with_heap (timed t place.node)) =
          unfold update_ttl in rw (temporary, zero_time) refl in
        then_node (TtlHeap.remove place.at h) (timed t place.node) n h' (sym step ∙ e)
    | inr time ↦
        let step : update_ttl t place h ≡ (
            TtlHeap.update (record { at = place.at; expire_time = t }) h
            >>= with_heap (timed t place.node)) =
          unfold update_ttl in rw (temporary, time) refl in
        then_node (TtlHeap.update (record { at = place.at; expire_time = t }) h)
          (timed t place.node) n h' (sym step ∙ e)
  ]
]

-- What `Write` and `UpdateTTL` leave of a file, and that they change the tree there, the heap, and
-- nothing else.
pub rewrite_file :
    (at : Names) (f : Fields) (value : Text) (index t : ℕ) (s s' : Store) (new : Node)
    → rewrite (record { at = at; node = kv f }) value index t s ≡ ok (s', new)
    → (h : TtlKeyHeap) × (new
        ≡ kv (record f { value = value; modified_index = index; expire_time = t }))
      × (s' ≡ record s { root = put_at at new s.root; ttl_key_heap = h })
unfolding rewrite write
rewrite_file at f value index t s s' new e =
    let written : Node = kv (record f { value = value; modified_index = index }) in
    let ((timed_node, h), first, rest) =
      >>=-eq-ok (update_ttl t (record { at = at; node = written }) s.ttl_key_heap)
        (λ x. ok (record s { root = put_at at x.0 s.root; ttl_key_heap = x.1 }, x.0)) e in
    let same =
      update_ttl-node t (record { at = at; node = written }) s.ttl_key_heap h timed_node first in
    let (tree, node) = ok-pair rest in
    (
      h,
      sym node ∙ same,
      sym tree ∙ ap (λ n. record s { root = put_at at n s.root; ttl_key_heap = h }) node,
    )

-- The same of a directory, whose `Write` fails: it gets the time only.
pub rewrite_dir :
    (at : Names) (f : Fields) (cs : Children) (value : Text) (index t : ℕ) (s s' : Store)
    (new : Node)
    → rewrite (record { at = at; node = dir f cs }) value index t s ≡ ok (s', new)
    → (h : TtlKeyHeap) × (new ≡ dir (record f { expire_time = t }) cs)
      × (s' ≡ record s { root = put_at at new s.root; ttl_key_heap = h })
unfolding rewrite write
rewrite_dir at f cs value index t s s' new e =
    let ((timed_node, h), first, rest) =
      >>=-eq-ok (update_ttl t (record { at = at; node = dir f cs }) s.ttl_key_heap)
        (λ x. ok (record s { root = put_at at x.0 s.root; ttl_key_heap = x.1 }, x.0)) e in
    let same =
      update_ttl-node t (record { at = at; node = dir f cs }) s.ttl_key_heap h timed_node first in
    let (tree, node) = ok-pair rest in
    (
      h,
      sym node ∙ same,
      sym tree ∙ ap (λ n. record s { root = put_at at n s.root; ttl_key_heap = h }) node,
    )
