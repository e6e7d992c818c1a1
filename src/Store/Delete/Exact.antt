-- ===== src/Store/Delete/Exact.antt =====
-- store/store.go: CompareAndDelete, from the call to its answer.
use etcd.Prelude.{
  ℕ, ◌+◌, ◌≡◌, refl, ap, ◌∙◌, sym, inl, inr, ◌⊎◌, true, false, none, some, [], ◌∷◌, arith,
  Bool-cases, Result, ok, ok-pair, if◌then◌else◌,
}
use etcd.Prelude.Paths.{Text}
use etcd.Prelude.Names.{Names, same_names}
use etcd.Prelude.Clean.{segments}
use etcd.EtcdError.{ecode_not_file, ecode_test_failed, new_error, Error, Outcome, failed, returned}
use etcd.Store.Event.{Event}
use etcd.Store.Node.{Children, Node, kv, dir, Fields, compare}
use etcd.Store.Node.Compare.{Matches, compare-Matches, Matches-compare}
use etcd.Store.Stats.{Field, compare_and_delete_fail, compare_and_swap_fail}
use etcd.Store.State.{Store, node_at, unlink, count, full_path}
use etcd.Store.State.Places.{value_at}
use etcd.Store.State.Found.{with_place_cases}
use etcd.Store.State.Unlink.{value_at-unlink}
use etcd.Store.State.Remove.{is_linked}
use etcd.Store.Swap.{get_compare_fail_cause}
use etcd.Store.Delete.{delete_value, delete_tests, compare_and_delete}
use etcd.Store.Delete.Laws.{delete_value_effect}

-- What holds of a call that has returned an event: there was a file that passed the tests, and it is
-- gone, where every other file is as it was.
pub record Deleted (at : Names) (prev_value : Text) (prev_index : ℕ) (s s' : Store)
    (out : Outcome Event) : Type 0 where
  pub file : Fields
  pub was_there : node_at at s.root ≡ some (kv file)
  pub matched : Matches prev_value prev_index file
  pub event : Event
  pub is_returned : out ≡ returned event
  pub index : s'.current_index ≡ s.current_index + 1
  pub files :
      (q : Names) → value_at q s'.root ≡ (if same_names at q then none else value_at q s.root)

-- What holds of a call that has returned an error: the tree and the index are as they were, and the
-- path leads to no file that passes the tests.
pub record NotDeleted (at : Names) (prev_value : Text) (prev_index : ℕ) (s s' : Store)
    (out : Outcome Event) : Type 0 where
  pub error : Error
  pub is_failed : out ≡ failed error
  pub index : s'.current_index ≡ s.current_index
  pub tree : s'.root ≡ s.root
  pub why : (f : Fields) → node_at at s.root ≡ some (kv f) → ¬ Matches prev_value prev_index f

-- The store after a failure is that before but for the counters.
not_deleted :
    (field : Field) (at : Names) (prev_value : Text) (prev_index : ℕ) (s s' : Store)
    (out : Outcome Event) (err : Error)
    → ◌≡◌ {A = Result (Store × Outcome Event)} (ok (count field s, failed err)) (ok (s', out))
    → ((f : Fields)
        → node_at at s.root ≡ some (kv f)
        → (compare prev_value prev_index (kv f)).0 ≡ false)
    → NotDeleted at prev_value prev_index s s' out
unfolding count
not_deleted field at prev_value prev_index s s' out err e why =
    let (store, outcome) = ok-pair e in
    record {
      error = err;
      is_failed = sym outcome;
      index = sym (ap (λ m. m.current_index) store);
      tree = sym (ap (λ m. m.root) store);
      why = λ f there m. cc (why f there, Matches-compare prev_value prev_index f m);
    }

-- A file is only at names that lead below the root, where the parent has it.
unlinked :
    (at q : Names) (f : Fields) (root : Node)
    → is_linked at (kv f) ≡ true
    → node_at at root ≡ some (kv f)
    → value_at q (unlink at root) ≡ (if same_names at q then none else value_at q root)
unlinked [] q f root linked found = cc
unlinked (c ∷ cs) q f root linked found = value_at-unlink c cs q f root found

module _ (now prev_index : ℕ) (path prev_value : Text) (s s' : Store) (out : Outcome Event) where
  deletes_nothing_on_dir :
      (at : Names) (f : Fields) (entries : Children)
      → delete_tests now path prev_value prev_index s (record { at = at; node = dir f entries })
        ≡ ok (count compare_and_swap_fail s, failed (new_error ecode_not_file path s.current_index))
  unfolding delete_tests
  deletes_nothing_on_dir at f entries = refl

  deletes_nothing_on_difference :
      (at : Names) (f : Fields)
      → (compare prev_value prev_index (kv f)).0 ≡ false
      → (err : Error) × (delete_tests now path prev_value prev_index s
            (record { at = at; node = kv f })
          ≡ ok (count compare_and_delete_fail s, failed err))
  unfolding delete_tests
  deletes_nothing_on_difference at f differs =
      let which = (compare prev_value prev_index (kv f)).1 in
      (
        new_error ecode_test_failed (get_compare_fail_cause (kv f) which prev_value prev_index)
            s.current_index,
        rw differs refl,
      )

  tested :
      (at : Names) (n : Node)
      → ((f : Fields) → node_at at s.root ≡ some (kv f) → is_linked at (kv f) ≡ true)
      → node_at at s.root ≡ some n
      → delete_tests now path prev_value prev_index s (record { at = at; node = n }) ≡ ok (s', out)
      → Deleted at prev_value prev_index s s' out ⊎ NotDeleted at prev_value prev_index s s' out
  tested at (dir f entries) linked found e = inr (
      not_deleted compare_and_swap_fail at prev_value prev_index s s' out
        (new_error ecode_not_file path s.current_index)
        (sym (deletes_nothing_on_dir at f entries) ∙ e)
        (λ g other. absurd (cc (sym found ∙ other))))
  tested at (kv f) linked found e = elim (Bool-cases (compare prev_value prev_index (kv f)).0) [
    | inl matches ↦
        let step : delete_tests now path prev_value prev_index s (record { at = at; node = kv f })
            ≡ delete_value now path s (record { at = at; node = kv f }) =
          unfold delete_tests in rw matches refl in
        let g = delete_value_effect now path s s' at f out (linked f found) (sym step ∙ e) in
        inl (record {
          file = f;
          was_there = found;
          matched = compare-Matches prev_value prev_index f matches;
          event = g.event;
          is_returned = g.is_returned;
          index = g.index;
          files = λ q. ap (value_at q) g.tree ∙ unlinked at q f s.root (linked f found) found;
        })
    | inr differs ↦
        let (err, step) = deletes_nothing_on_difference at f differs in
        inr (
          not_deleted compare_and_delete_fail at prev_value prev_index s s' out err (sym step ∙ e)
            (λ g other. ground (arith, sym found ∙ other, differs)))
  ]

-- CompareAndDelete, where the parent of the file at the path, if there is such a file, has it under
-- the last name of the file's own path. It returns an event exactly when the path leads to a file
-- that passes the tests: where a value is given it is the file's, and where an index is given it is the
-- file's modified index. Then the file is gone, every other file is as it was,
-- and the index is one more. When it returns an error, the tree and the index are as they were, and
-- the path leads to no file that passes the tests.
pub compare_and_delete_exact :
    (now prev_index : ℕ) (path prev_value : Text) (s s' : Store) (out : Outcome Event)
    → ((f : Fields)
        → node_at (segments path) s.root ≡ some (kv f)
        → is_linked (segments path) (kv f) ≡ true)
    → compare_and_delete now path prev_value prev_index s ≡ ok (s', out)
    → Deleted (segments path) prev_value prev_index s s' out
      ⊎ NotDeleted (segments path) prev_value prev_index s s' out
unfolding compare_and_delete
compare_and_delete_exact now prev_index path prev_value s s' out linked e =
    let tests = delete_tests now (full_path path) prev_value prev_index s in
    elim (with_place_cases s path compare_and_delete_fail tests) [
      | inl (n, found, got) ↦
          tested now prev_index (full_path path) prev_value s s' out (segments path) n linked found
            (sym got ∙ e)
      | inr (err, missing, got) ↦ inr (
          not_deleted compare_and_delete_fail (segments path) prev_value prev_index s s' out err
            (sym got ∙ e) (λ g other. absurd (cc (sym missing ∙ other))))
    ]
