-- ===== src/Store/Save/Laws.antt =====
-- store/store.go: what a store that is saved and recovered into a new one has.
use etcd.Prelude.{
  Bool, none, true, if◌then◌else◌, ap, sym, ◌∙◌, ◌≡◌, refl, Option, some, [], ◌∷◌, ◌++◌, ok, not,
  ◌==◌, Bool-cases, inl, inr,
}
use etcd.Prelude.Paths.{Text}
use etcd.Prelude.Names.{Names}
use etcd.Store.Node
use etcd.Store.Node.{fields, Node, kv, dir, Children, childless, child, Fields}
use etcd.Store.TtlHeap.{TtlKeyHeap, new_ttl_key_heap}
use etcd.Store.TtlHeap.Total.{Gives, push_ok}
use etcd.Store.State.{Store, node_at, new_store}
use etcd.Store.State.Places.{value_at, value_at-eq, file_value}
use etcd.Store.Save.{enter_heap, recover_and_clean, recover_children, cloned_store, save, recovery}
use etcd.Store.Save.Exported.{shape, ReadsAs, read_history, is_utf8_store, cloned_store-is_utf8}
use etcd.Store.Save.Cloned.{value_at-clone, IsCopy, copy_at}

enter_ok : (at : Names) (f : Fields) (h : TtlKeyHeap) → Gives (enter_heap at f h)
enter_ok at f h = elim (Bool-cases (not (f.expire_time == 0))) [
  | inl time ↦ rw time (push_ok (record { at = at; expire_time = f.expire_time }) h)
  | inr permanent ↦ rw permanent (h, refl)
]

mutual
  unfolding recover_and_clean

  recover_ok : (at : Names) (n : Node) (h : TtlKeyHeap) → Gives (recover_and_clean at n h)
  recover_ok at (kv f) h = enter_ok at f h
  recover_ok at (dir f cs) h =
      let (below, e) = recover_children_ok at cs h in rw e (enter_ok at f below)

  recover_children_ok :
      (at : Names) (cs : Children) (h : TtlKeyHeap) → Gives (recover_children at cs h)
  recover_children_ok at childless h = (h, refl)
  recover_children_ok at (child key n cs) h =
      let (next, e) = recover_ok (at ++ key ∷ []) n h in rw e (recover_children_ok at cs next)

shape_value : Option (Bool × Fields) → Option Text
shape_value none = none
shape_value (some (is_folder, f)) = if is_folder then none else some f.value

file_value-shape : (o : Option Node) → file_value o ≡ shape_value (shape o)
unfolding shape_value
file_value-shape none = refl
file_value-shape (some (kv f)) = refl
file_value-shape (some (dir f cs)) = refl

-- Where the same names lead to nodes of the same shape, they lead to the same values.
same_values :
    (q : Names) (root other : Node)
    → shape (node_at q root) ≡ shape (node_at q other)
    → value_at q root ≡ value_at q other
same_values q root other e =
    value_at-eq q root
    ∙ file_value-shape (node_at q root)
    ∙ ap shape_value e
    ∙ sym (file_value-shape (node_at q other))
    ∙ sym (value_at-eq q other)

fields_or : Fields → Option (Bool × Fields) → Fields
fields_or f none = f
fields_or f (some x) = x.1

-- A node of the shape of a copy is a copy.
same_copy :
    (n m : Node) (o : Option Node)
    → shape o ≡ shape (some m)
    → IsCopy n m
    → (k : Node) × (o ≡ some k) × IsCopy n k
unfolding fields_or
same_copy n m none e c = cc
same_copy n m (some k) e c =
    let same : fields k ≡ fields m = ap (fields_or (fields m)) e in
    (
      k,
      refl,
      record {
        created = ap (λ f. f.created_index) same ∙ c.created;
        modified = ap (λ f. f.modified_index) same ∙ c.modified;
        expires = ap (λ f. f.expire_time) same ∙ c.expires;
      },
    )

-- What a recovered store has of the one that was saved. The counters of watchers and of expired nodes
-- are exchanged, every node counts as modified when it was created, and the events of the history
-- have lost the index of the store.
pub record Recovered (s s' : Store) : Type 0 where
  pub files : (q : Names) → value_at q s'.root ≡ value_at q s.root
  pub nodes :
      (q : Names) (n : Node)
      → node_at q s.root ≡ some n
      → (m : Node) × (node_at q s'.root ≡ some m) × IsCopy n m
  pub index : s'.current_index ≡ s.current_index
  pub history : s'.watcher_hub.event_history ≡ read_history s.watcher_hub.event_history
  pub watchers : s'.stats.watchers ≡ s.stats.expired
  pub expired : s'.stats.expired ≡ s.stats.watchers

module _ {T : Type 0} (marshal : Store → Option T) (unmarshal : T → Store → Option Store) where
  recovers :
      (text : T) (t read : Store) (h : TtlKeyHeap)
      → unmarshal text t ≡ some read
      → recover_and_clean [] read.root new_ttl_key_heap ≡ ok h
      → recovery marshal unmarshal text t ≡ some (ok (record read { ttl_key_heap = h }))
  unfolding recovery
  recovers text t read h reads recovered = rw (recovery, reads, recovered) refl

read_copies :
    (s read : Store) (h : TtlKeyHeap)
    → ReadsAs (cloned_store s) read
    → Recovered s (record read { ttl_key_heap = h })
unfolding cloned_store
read_copies s read h r = record {
  files = λ q. same_values q read.root (Node.clone s.root) (r.nodes q) ∙ value_at-clone q s.root;
  nodes = λ q n there.
      let (m, copy_there, copy) = copy_at q s.root n there in
      same_copy n m (node_at q read.root) (r.nodes q ∙ ap shape copy_there) copy;
  index = r.index;
  history = r.history;
  watchers = ap (λ t. t.watchers) r.stats;
  expired = ap (λ t. t.expired) r.stats;
}

module _ {T : Type 0} (marshal : Store → Option T) (unmarshal : T → Store → Option Store)
    (reads_back : (c : Store) (text : T)
      → is_utf8_store c ≡ true
      → marshal c ≡ some text
      → (read : Store) × (unmarshal text new_store ≡ some read) × ReadsAs c read) where
  -- For a store all of whose strings are valid UTF-8, where json.Unmarshal into a new store gives the
  -- exported fields that json.Marshal has written of such a store, less the tagged EtcdIndex of each
  -- event: a new store recovers from what Save has written, without an error or a panic, and has every
  -- file with its value, the index, and the history but for these EtcdIndex; but each node's modified
  -- index is its created index, and the counters of watchers and of expired nodes are exchanged.
  pub recovery-save :
      (s : Store) (text : T)
      → is_utf8_store s ≡ true
      → save marshal unmarshal s ≡ some text
      → (s' : Store) × (recovery marshal unmarshal text new_store ≡ some (ok s')) × Recovered s s'
  recovery-save s text valid saved =
      let (read, reads, r) =
        reads_back (cloned_store s) text (cloned_store-is_utf8 s valid) (unfold save in saved) in
      let (h, recovered) = recover_ok [] read.root new_ttl_key_heap in
      (
        record read { ttl_key_heap = h },
        recovers marshal unmarshal text new_store read h reads recovered,
        read_copies s read h r,
      )
