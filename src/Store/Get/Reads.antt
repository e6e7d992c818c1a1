-- ===== src/Store/Get/Reads.antt =====
-- store/store.go: what Get returns of a file, and Get after the operations that write.
use etcd.Prelude.{
  ℕ, ◌≡◌, refl, ap, ◌∙◌, sym, inl, inr, Bool, true, false, Option, none, some, [], ◌∷◌, arith, ok,
}
use etcd.Prelude.Paths.{Text}
use etcd.Prelude.Names.{Names, same_names}
use etcd.Prelude.Clean.{segments}
use etcd.EtcdError.{returned}
use etcd.Store.Event.{get_action, new_event, Event}
use etcd.Store.Node.{expiration_and_ttl, Node, kv, dir, Fields, Children}
use etcd.Store.Node.Show.{load_internal_node}
use etcd.Store.Stats.{get_success}
use etcd.Store.State.{Store, node_at, full_path, count}
use etcd.Store.State.Places.{value_at, value_at-eq, file_value, same_text_refl}
use etcd.Store.State.Found.{found_cases}
use etcd.Store.Get.{get}
use etcd.Store.Create.{create}
use etcd.Store.Create.Exact.{create_exact}
use etcd.Store.Swap.{compare_and_swap}
use etcd.Store.Swap.Laws.{compare_and_swap_exact}

-- What `Get` returns where there is a file with this value.
pub record Reads (now : ℕ) (path value : Text) (recursive sorted : Bool) (s : Store) : Type 0 where
  pub event : Event
  pub answer : get now path recursive sorted s ≡ ok (count get_success s, returned event)
  pub value_is : event.node.value ≡ some value
  pub index : event.etcd_index ≡ s.current_index

file_inside :
    (o : Option Node) (v : Text)
    → file_value o ≡ some v
    → (f : Fields) × (o ≡ some (kv f)) × (f.value ≡ v)
file_inside none v h = cc
file_inside (some (dir f entries)) v h = cc
file_inside (some (kv f)) v h = (f, refl, ground (arith, h))

same_names_refl : (at : Names) → same_names at at ≡ true
same_names_refl [] = refl
same_names_refl (c ∷ cs) = rw (same_text_refl c) (same_names_refl cs)

-- Where the names of a path lead to a file, Get returns its value, with the index of the store.
pub get_exact :
    (now : ℕ) (path value : Text) (recursive sorted : Bool) (s : Store)
    → value_at (segments path) s.root ≡ some value
    → Reads now path value recursive sorted s
get_exact now path value recursive sorted s h =
    let at = segments path in
    let (f, there, v) = file_inside (node_at at s.root) value (sym (value_at-eq at s.root) ∙ h) in
    elim (found_cases s path) [
      | inl (n, found, got) ↦
          let same : n ≡ kv f = ground (arith, sym found ∙ there) in
          let base = new_event get_action (full_path path) f.modified_index f.created_index in
          let times = expiration_and_ttl now (kv f) in
          let e : Event = record base {
            etcd_index = s.current_index;
            node = record base.node {
              shown = record base.node.shown {
                value = some f.value;
                expiration = times.0;
                ttl = times.1;
              };
            };
          } in
          record {
            event = e;
            answer =
                unfold get load_internal_node in
                rw (got ∙ ap (λ m. ok (returned (record { at = at; node = m }))) same) refl;
            value_is = ap some v;
            index = refl;
          }
      | inr (err, missing, got) ↦ absurd (cc (sym missing ∙ there))
    ]

-- A file that Create has made is there for Get: after a Create of a file that has returned an event,
-- every Get of its path succeeds and returns the value.
pub get-create :
    (now later t : ℕ) (path value : Text) (recursive sorted : Bool) (s s' : Store) (e : Event)
    (f : Fields) (entries : Children)
    → s.root ≡ dir f entries
    → create now path false value false t s ≡ ok (s', returned e)
    → Reads later path value recursive sorted s'
get-create now later t path value recursive sorted s s' e f entries root made =
    elim (create_exact now t path value false s s' (returned e) f entries root made) [
      | inl c ↦
          let here : value_at (segments path) s'.root ≡ some value =
            c.files (segments path) ∙ rw (same_names_refl (segments path)) refl in
          get_exact later path value recursive sorted s' here
      | inr c ↦ absurd (cc c.is_failed)
    ]

-- After a CompareAndSwap that has returned an event, every Get of its path succeeds and returns the
-- new value, and no other file has another value than before.
pub get-compare_and_swap :
    (now later t prev_index : ℕ) (path prev_value value : Text) (recursive sorted : Bool)
    (s s' : Store) (e : Event)
    → compare_and_swap now path prev_value prev_index value t s ≡ ok (s', returned e)
    → Reads later path value recursive sorted s'
      × ((q : Names)
          → same_names (segments path) q ≡ false
          → value_at q s'.root ≡ value_at q s.root)
get-compare_and_swap now later t prev_index path prev_value value recursive sorted s s' e swapped =
    elim (compare_and_swap_exact now prev_index t path prev_value value s s' (returned e) swapped) [
      | inl c ↦
          let here : value_at (segments path) s'.root ≡ some value =
            c.files (segments path) ∙ rw (same_names_refl (segments path)) refl in
          (
            get_exact later path value recursive sorted s' here,
            λ q other. c.files q ∙ rw other refl,
          )
      | inr c ↦ absurd (cc c.is_failed)
    ]
