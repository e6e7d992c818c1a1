-- ===== src/Store/Delete/Laws.antt =====
-- store/store.go: what CompareAndDelete does to the files of the tree, on every branch.
use etcd.Prelude.{
  ok-injective, Bool, ℕ, ◌+◌, ◌≡◌, refl, ap, ◌∙◌, sym, inl, inr, true, false, Option, none, some,
  Bool-cases, Result, ok, ◌>>=◌, >>=-eq-ok, ok-pair, ◌==◌,
}
use etcd.Prelude.Paths.{Text}
use etcd.Prelude.Names.{Names}
use etcd.EtcdError.{Error, Outcome, returned}
use etcd.Store.Event.{no_nodes, Event, new_event, compare_and_delete_action}
use etcd.Store.Node.{kv, Fields, permanent}
use etcd.Store.Node.Show.{repr, show}
use etcd.Store.Stats.{compare_and_delete_success}
use etcd.Store.TtlHeap
use etcd.Store.TtlHeap.{TtlKeyHeap}
use etcd.Store.State.{Store, unlink}
use etcd.Store.State.Remove.{remove, release, call, leave_heap, Callback, is_linked}
use etcd.Store.Swap.Laws.{announce_effect}
use etcd.Store.Delete.{announce, delete_value, tell_deleted}

-- What neither the callback nor the heap changes.
record Untouched (s s' : Store) : Type 0 where
  root : s'.root ≡ s.root
  index : s'.current_index ≡ s.current_index

-- A store that differs in other fields only.
Untouched-ok :
    (s t s' : Store)
    → t.root ≡ s.root
    → t.current_index ≡ s.current_index
    → ◌≡◌ {A = Result Store} (ok t) (ok s')
    → Untouched s s'
Untouched-ok s t s' root index e = record {
  root = sym (ap (λ m. m.root) (ok-injective e)) ∙ root;
  index = sym (ap (λ m. m.current_index) (ok-injective e)) ∙ index;
}

call-Untouched :
    (callback : Callback) (path : Text) (s s' : Store)
    → call callback path s ≡ ok s'
    → Untouched s s'
unfolding call
call-Untouched none path s s' e = Untouched-ok s s s' refl refl e
call-Untouched (some callback) path s s' e =
    let (wh, told, rest) =
      >>=-eq-ok (callback path s.watcher_hub) (λ wh. ok (record s { watcher_hub = wh })) e in
    Untouched-ok s (record s { watcher_hub = wh }) s' refl refl rest

leave_heap-Untouched :
    (at : Names) (f : Fields) (s s' : Store) → leave_heap at f s ≡ ok s' → Untouched s s'
leave_heap-Untouched at f s s' e = elim (Bool-cases (f.expire_time == permanent)) [
  | inl lasting ↦
      let step : leave_heap at f s ≡ ok s = unfold leave_heap in rw lasting refl in
      Untouched-ok s s s' refl refl (sym step ∙ e)
  | inr due ↦
      let step : leave_heap at f s
          ≡ (TtlHeap.remove at s.ttl_key_heap >>= λ h. ok (record s { ttl_key_heap = h })) =
        unfold leave_heap in rw due refl in
      let (h, gone, rest) =
        >>=-eq-ok (TtlHeap.remove at s.ttl_key_heap) (λ h. ok (record s { ttl_key_heap = h }))
          (sym step ∙ e) in
      Untouched-ok s (record s { ttl_key_heap = h }) s' refl refl rest
]

release-Untouched :
    (callback : Callback) (at : Names) (linked : Bool) (f : Fields) (s s' : Store)
    → release callback at linked (kv f) s ≡ ok s'
    → Untouched s s'
unfolding release
release-Untouched callback at linked f s s' e =
    let (called, first, rest) =
      >>=-eq-ok (call callback f.path s) (λ called. leave_heap at f called) e in
    let a = call-Untouched callback f.path s called first in
    let b = leave_heap-Untouched at f called s' rest in
    record { root = b.root ∙ a.root; index = b.index ∙ a.index }

-- `Remove` of a file that its parent has under its name.
remove_file :
    (callback : Callback) (at : Names) (f : Fields) (s s' : Store) (error : Option Error)
    → is_linked at (kv f) ≡ true
    → remove (record { at = at; node = kv f }) false false callback s ≡ ok (s', error)
    → (s'.root ≡ unlink at s.root) × (s'.current_index ≡ s.current_index)
remove_file callback at f s s' error linked e =
    let tree : Store → Store = λ released. record released { root = unlink at s.root } in
    let step : remove (record { at = at; node = kv f }) false false callback s
        ≡ (release callback at true (kv f) s >>= λ released. ok (tree released, none)) =
      unfold remove in rw linked refl in
    let (released, first, rest) =
      >>=-eq-ok (release callback at true (kv f) s) (λ released. ok (tree released, none))
        (sym step ∙ e) in
    let same = release-Untouched callback at true f s released first in
    let out = (ok-pair rest).0 in
    (sym (ap (λ m. m.root) out), sym (ap (λ m. m.current_index) out) ∙ same.index)

-- What is true of the store and of the event after a file has been deleted.
pub record Gone (at : Names) (s s' : Store) (out : Outcome Event) : Type 0 where
  pub event : Event
  pub is_returned : out ≡ returned event
  pub index : s'.current_index ≡ s.current_index + 1
  pub tree : s'.root ≡ unlink at s.root

pub delete_value_effect :
    (now : ℕ) (path : Text) (s s' : Store) (at : Names) (f : Fields) (out : Outcome Event)
    → is_linked at (kv f) ≡ true
    → delete_value now path s (record { at = at; node = kv f }) ≡ ok (s', out)
    → Gone at s s' out
unfolding delete_value repr
delete_value_effect now path s s' at f out linked e =
    let next = s.current_index + 1 in
    let started : Store = record s { current_index = next } in
    let event : Event = record (new_event compare_and_delete_action path next f.created_index) {
      etcd_index = next;
      prev_node = some (record { shown = show now (kv f); nodes = no_nodes });
    } in
    let ((removed, ignored), first, rest) =
      >>=-eq-ok (remove (record { at = at; node = kv f }) false false (tell_deleted event) started)
        (λ x. announce compare_and_delete_success event x.0) e in
    let (unlinked, same) =
      remove_file (tell_deleted event) at f started removed ignored linked first in
    let (out_is, root, index) =
      announce_effect compare_and_delete_success event removed s' out rest in
    record { event = event; is_returned = out_is; index = index ∙ same; tree = root ∙ unlinked }
