-- ===== src/Store/Swap/Laws.antt =====
-- store/store.go: what CompareAndSwap does to the files of the tree, on every branch.
use etcd.Prelude.{
  ℕ, ◌+◌, ◌≡◌, refl, ap, ◌∙◌, sym, inl, inr, ◌⊎◌, false, some, [], arith, Bool-cases, Result, ok,
  >>=-eq-ok, ok-pair, if◌then◌else◌,
}
use etcd.Prelude.Paths.{Text}
use etcd.Prelude.Names.{Names, same_names}
use etcd.Prelude.Clean.{segments}
use etcd.EtcdError.{ecode_not_file, ecode_test_failed, new_error, Error, Outcome, failed, returned}
use etcd.Store.Event.{no_nodes, Event, new_event, compare_and_swap_action}
use etcd.Store.Node.{Children, Node, kv, dir, Fields, compare}
use etcd.Store.Node.Show.{repr, show}
use etcd.Store.Node.Compare.{Matches, compare-Matches, Matches-compare}
use etcd.Store.Stats.{Field, compare_and_swap_fail, compare_and_swap_success}
use etcd.Store.State.{Store, put_at, node_at, full_path, with_place, count, announce}
use etcd.Store.State.Places.{value_at}
use etcd.Store.State.Files.{value_at-write}
use etcd.Store.State.Found.{with_place_cases, below_root_cases}
use etcd.Store.Swap.{
  get_compare_fail_cause, swap_value, swap_tests, compare_and_swap, rewrite, write_event,
}
use etcd.Store.Swap.Write.{rewrite_file}
use etcd.Store.Watchers.{notify}

-- `announce` changes the hub and the counters, and returns its event.
pub announce_effect :
    (field : Field) (e : Event) (s s' : Store) (out : Outcome Event)
    → announce field e s ≡ ok (s', out)
    → (out ≡ returned e) × (s'.root ≡ s.root) × (s'.current_index ≡ s.current_index)
unfolding announce count
announce_effect field e s s' out h =
    let (wh, told, rest) =
      >>=-eq-ok (notify e s.watcher_hub)
        (λ wh. ok (count field (record s { watcher_hub = wh }), returned e)) h in
    let (store, event) = ok-pair rest in
    (sym event, sym (ap (λ t. t.root) store), sym (ap (λ t. t.current_index) store))

-- What is true of the store and of the event after a file has been written in place.
record Written (at : Names) (value : Text) (s s' : Store) (out : Outcome Event) : Type 0 where
  event : Event
  is_returned : out ≡ returned event
  index : s'.current_index ≡ s.current_index + 1
  file : Fields
  value_is : file.value ≡ value
  tree : s'.root ≡ put_at at (kv file) s.root

swap_value_effect :
    (now : ℕ) (path value : Text) (t : ℕ) (s s' : Store) (at : Names) (f : Fields)
    (out : Outcome Event)
    → swap_value now path value t s (record { at = at; node = kv f }) ≡ ok (s', out)
    → Written at value s s' out
unfolding swap_value repr
swap_value_effect now path value t s s' at f out e =
    let next = s.current_index + 1 in
    let started : Store = record s { current_index = next } in
    let event : Node → Event = λ new.
      write_event now (new_event compare_and_swap_action path next f.created_index) next
        (record { shown = show now (kv f); nodes = no_nodes }) new false value in
    let ((swapped, new), wrote, rest) =
      >>=-eq-ok (rewrite (record { at = at; node = kv f }) value next t started)
        (λ x. announce compare_and_swap_success (event x.1) x.0) e in
    let (h, new_is, tree) = rewrite_file at f value next t started swapped new wrote in
    let (out_is, root, index) =
      announce_effect compare_and_swap_success (event new) swapped s' out rest in
    record {
      event = event new;
      is_returned = out_is;
      index = index ∙ ap (λ m. m.current_index) tree;
      file = record f { value = value; modified_index = next; expire_time = t };
      value_is = refl;
      tree = root ∙ ap (λ m. m.root) tree ∙ ap (λ m. put_at at m s.root) new_is;
    }

-- What holds of a call of CompareAndSwap that has returned an event: there was a file that passed
-- the tests, and it has the new value, where every other file is as it was.
pub record Swapped (at : Names) (prev_value : Text) (prev_index : ℕ) (value : Text) (s s' : Store)
    (out : Outcome Event) : Type 0 where
  pub file : Fields
  pub was_there : node_at at s.root ≡ some (kv file)
  pub matched : Matches prev_value prev_index file
  pub event : Event
  pub is_returned : out ≡ returned event
  pub index : s'.current_index ≡ s.current_index + 1
  pub files :
      (q : Names) → value_at q s'.root ≡ (if same_names at q then some value else value_at q s.root)

-- What holds of a call that has returned an error: the tree and the index are as they were, and the
-- path is the root or there is no file that passes the tests.
pub record NotSwapped (at : Names) (prev_value : Text) (prev_index : ℕ) (s s' : Store)
    (out : Outcome Event) : Type 0 where
  pub error : Error
  pub is_failed : out ≡ failed error
  pub index : s'.current_index ≡ s.current_index
  pub tree : s'.root ≡ s.root
  pub why :
      (at ≡ [])
      ⊎ ((f : Fields) → node_at at s.root ≡ some (kv f) → ¬ Matches prev_value prev_index f)

-- The store after a failure is that before but for the counters.
module _ (at : Names) (prev_value : Text) (prev_index : ℕ) (s s' : Store)
    (out : Outcome Event) where
  not_swapped :
      (err : Error) (t : Store)
      → ◌≡◌ {A = Result (Store × Outcome Event)} (ok (t, failed err)) (ok (s', out))
      → t.root ≡ s.root
      → t.current_index ≡ s.current_index
      → (at ≡ [])
        ⊎ ((f : Fields)
            → node_at at s.root ≡ some (kv f)
            → (compare prev_value prev_index (kv f)).0 ≡ false)
      → NotSwapped at prev_value prev_index s s' out
  not_swapped err t e root index why =
      let (store, outcome) = ok-pair e in
      record {
        error = err;
        is_failed = sym outcome;
        index = sym (ap (λ m. m.current_index) store) ∙ index;
        tree = sym (ap (λ m. m.root) store) ∙ root;
        why = elim why [
          | inl root ↦ inl root
          | inr differs ↦
              inr λ f there m. cc (differs f there, Matches-compare prev_value prev_index f m)
        ];
      }

module _ (now prev_index t : ℕ) (path prev_value value : Text) (s s' : Store)
    (out : Outcome Event) where
  fails_on_dir :
      (at : Names) (f : Fields) (entries : Children)
      → (err : Error) × (swap_tests now path prev_value prev_index value t s
            (record { at = at; node = dir f entries })
          ≡ ok (count compare_and_swap_fail s, failed err))
  unfolding swap_tests
  fails_on_dir at f entries = (new_error ecode_not_file path s.current_index, refl)

  fails_on_difference :
      (at : Names) (f : Fields)
      → (compare prev_value prev_index (kv f)).0 ≡ false
      → (err : Error) × (swap_tests now path prev_value prev_index value t s
            (record { at = at; node = kv f })
          ≡ ok (count compare_and_swap_fail s, failed err))
  unfolding swap_tests
  fails_on_difference at f differs =
      let which = (compare prev_value prev_index (kv f)).1 in
      (
        new_error ecode_test_failed (get_compare_fail_cause (kv f) which prev_value prev_index)
            s.current_index,
        rw differs refl,
      )

  tested :
      (at : Names) (n : Node)
      → node_at at s.root ≡ some n
      → swap_tests now path prev_value prev_index value t s (record { at = at; node = n })
        ≡ ok (s', out)
      → Swapped at prev_value prev_index value s s' out
        ⊎ NotSwapped at prev_value prev_index s s' out
  tested at (dir f entries) found e =
      let (err, step) = fails_on_dir at f entries in
      inr (
        not_swapped at prev_value prev_index s s' out err (count compare_and_swap_fail s)
          (sym step ∙ e) (unfold count in refl) (unfold count in refl)
          (inr λ g other. absurd (cc (sym found ∙ other))))
  tested at (kv f) found e = elim (Bool-cases (compare prev_value prev_index (kv f)).0) [
    | inl matches ↦
        let step : swap_tests now path prev_value prev_index value t s
              (record { at = at; node = kv f })
            ≡ swap_value now path value t s (record { at = at; node = kv f }) =
          unfold swap_tests in rw matches refl in
        let w = swap_value_effect now path value t s s' at f out (sym step ∙ e) in
        inl (record {
          file = f;
          was_there = found;
          matched = compare-Matches prev_value prev_index f matches;
          event = w.event;
          is_returned = w.is_returned;
          index = w.index;
          files = λ q.
              ap (value_at q) w.tree
              ∙ value_at-write at q f w.file s.root found
              ∙ rw w.value_is refl;
        })
    | inr differs ↦
        let (err, step) = fails_on_difference at f differs in
        inr (
          not_swapped at prev_value prev_index s s' out err (count compare_and_swap_fail s)
            (sym step ∙ e) (unfold count in refl) (unfold count in refl)
            (inr λ g other. ground (arith, sym found ∙ other, differs)))
  ]

-- CompareAndSwap. Where it returns an event, the path leads to a file that passes the tests: where a
-- value is given it is the file's, and where an index is given it is the file's modified index. That
-- file has the new value then, every other file is as it was, and the index is one more. Where it
-- returns an error, the tree and the index are as they were, and the path is the root or leads to no
-- file that passes the tests.
pub compare_and_swap_exact :
    (now prev_index t : ℕ) (path prev_value value : Text) (s s' : Store) (out : Outcome Event)
    → compare_and_swap now path prev_value prev_index value t s ≡ ok (s', out)
    → Swapped (segments path) prev_value prev_index value s s' out
      ⊎ NotSwapped (segments path) prev_value prev_index s s' out
unfolding compare_and_swap
compare_and_swap_exact now prev_index t path prev_value value s s' out e =
    let tests = swap_tests now (full_path path) prev_value prev_index value t s in
    let at = segments path in
    elim (below_root_cases s path (with_place compare_and_swap_fail (full_path path) s tests)) [
      | inl (below, pass) ↦ elim (with_place_cases s path compare_and_swap_fail tests) [
        | inl (n, found, got) ↦
            tested now prev_index t (full_path path) prev_value value s s' out at n found
              (sym got ∙ sym pass ∙ e)
        | inr (err, missing, got) ↦ inr (
            not_swapped at prev_value prev_index s s' out err (count compare_and_swap_fail s)
              (sym got ∙ sym pass ∙ e) (unfold count in refl) (unfold count in refl)
              (inr λ g other. absurd (cc (sym missing ∙ other))))
      ]
      | inr (root, err, fail) ↦
          inr (
            not_swapped at prev_value prev_index s s' out err s (sym fail ∙ e) refl refl (inl root))
    ]
