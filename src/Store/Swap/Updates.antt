-- ===== src/Store/Swap/Updates.antt =====
-- store/store.go: what Update does to the files of the tree, on every branch.
use etcd.Prelude.{
  Bool-cases, inr, inl, ℕ, ◌+◌, ◌≡◌, refl, ap, ◌∙◌, sym, ◌⊎◌, Bool, true, false, some, [], ◌∷◌,
  arith, Result, ok, >>=-eq-ok, ok-pair, if◌then◌else◌, ◌&&◌, not, ◌==◌, length, ◌>>=◌,
}
use etcd.Prelude.Paths.{Text}
use etcd.Prelude.Clean.{segments}
use etcd.Store.Node.Show.{repr, show}
use etcd.Prelude.Names.{Names, same_names}
use etcd.EtcdError.{new_error, ecode_not_file, Error, Outcome, failed, returned}
use etcd.Store.Event.{no_nodes, Event, NodeExtern, new_event, update_action}
use etcd.Store.Node.{Children, Node, kv, dir, Fields, fields, is_dir}
use etcd.Store.Stats.{update_fail, update_success}
use etcd.Store.State.{with_place, full_path, count, Place, Store, node_at, put_at, announce}
use etcd.Store.State.Places.{value_at, value_at_step}
use etcd.Store.State.Files.{value_at-write, value_at-same}
use etcd.Store.State.Found.{with_place_cases, below_root_cases}
use etcd.Store.Swap.{update, update_place, rewrite, write_event}
use etcd.Store.Swap.Write.{rewrite_file, rewrite_dir}
use etcd.Store.Swap.Laws.{announce_effect}

-- A directory takes no value.
abbrev pub refuses : Text → Node → Bool
refuses value n = is_dir n && not (length value == 0)

-- What holds of a call that has returned an event: there was a node that takes the value; a file has
-- it then, a directory keeps its files, and every other file is as it was.
pub record Updated (at : Names) (value : Text) (s s' : Store) (out : Outcome Event) : Type 0 where
  pub node : Node
  pub was_there : node_at at s.root ≡ some node
  pub takes : refuses value node ≡ false
  pub event : Event
  pub is_returned : out ≡ returned event
  pub index : s'.current_index ≡ s.current_index + 1
  pub files :
      (q : Names)
      → value_at q s'.root
        ≡ (if same_names at q && not (is_dir node) then some value else value_at q s.root)

-- What holds of a call that has returned an error: the tree and the index are as they were, and the
-- path is the root or leads to no node that takes the value.
pub record NotUpdated (at : Names) (value : Text) (s s' : Store) (out : Outcome Event)
    : Type 0 where
  pub error : Error
  pub is_failed : out ≡ failed error
  pub index : s'.current_index ≡ s.current_index
  pub tree : s'.root ≡ s.root
  pub why : (at ≡ []) ⊎ ((n : Node) → node_at at s.root ≡ some n → refuses value n ≡ true)

-- A directory with other fields has the same files.
value_at-fields :
    (f g : Fields) (cs : Children) (q : Names) → value_at q (dir f cs) ≡ value_at q (dir g cs)
value_at-fields f g cs [] = unfold value_at node_at in refl
value_at-fields f g cs (d ∷ ds) = value_at_step d ds f cs ∙ sym (value_at_step d ds g cs)

-- A write of the node at a place, with the files that it leaves.
rewrite_effect :
    (at q : Names) (n new : Node) (value : Text) (index t : ℕ) (s s' : Store)
    → node_at at s.root ≡ some n
    → rewrite (record { at = at; node = n }) value index t s ≡ ok (s', new)
    → (s'.current_index ≡ s.current_index)
      × (value_at q s'.root
          ≡ (if same_names at q && not (is_dir n) then some value else value_at q s.root))
rewrite_effect at q (kv f) new value index t s s' found e =
    let (h, new_is, tree) = rewrite_file at f value index t s s' new e in
    let g : Fields = record f { value = value; modified_index = index; expire_time = t } in
    (
      ap (λ m. m.current_index) tree,
      ap (λ m. value_at q m.root) tree
          ∙ ap (λ m. value_at q (put_at at m s.root)) new_is
          ∙ value_at-write at q f g s.root found
          ∙ ground arith,
    )
rewrite_effect at q (dir f cs) new value index t s s' found e =
    let (h, new_is, tree) = rewrite_dir at f cs value index t s s' new e in
    let g : Fields = record f { expire_time = t } in
    (
      ap (λ m. m.current_index) tree,
      ap (λ m. value_at q m.root) tree
          ∙ ap (λ m. value_at q (put_at at m s.root)) new_is
          ∙ value_at-same at q (dir g cs) (dir f cs) s.root found (value_at-fields g f cs)
          ∙ ground arith,
    )

-- `Update` once the node is known to take the value.
abbrev finish : ℕ → Text → Text → ℕ → Store → Place → NodeExtern → Result (Store × Outcome Event)
finish now path value t s place prev =
    let n = place.node in
    let next = s.current_index + 1 in
    let e = new_event update_action path next (fields n).created_index in
    (do
      (changed, new) ← rewrite place value next t s
      (told, event) ←
          announce update_success (write_event now e next prev new (is_dir n) value) changed
      ok (record told { current_index = next }, event))

module _ (now t : ℕ) (path value : Text) (s s' : Store) (out : Outcome Event) where
  finished :
      (at : Names) (n : Node) (prev : NodeExtern)
      → node_at at s.root ≡ some n
      → refuses value n ≡ false
      → finish now path value t s (record { at = at; node = n }) prev ≡ ok (s', out)
      → Updated at value s s' out
  finished at n prev found takes e =
      let next = s.current_index + 1 in
      let event : Node → Event = λ new.
        write_event now (new_event update_action path next (fields n).created_index) next prev new
          (is_dir n) value in
      let end : Store × Outcome Event → Result (Store × Outcome Event) =
        λ x. ok (record x.0 { current_index = next }, x.1) in
      let ((changed, new), wrote, rest) =
        >>=-eq-ok (rewrite (record { at = at; node = n }) value next t s)
          (λ x. announce update_success (event x.1) x.0 >>= end) e in
      let ((told, answer), announced, last) =
        >>=-eq-ok (announce update_success (event new) changed) end rest in
      let (out_is, root, index) =
        announce_effect update_success (event new) changed told answer announced in
      let (store, outcome) = ok-pair last in
      record {
        node = n;
        was_there = found;
        takes = takes;
        event = event new;
        is_returned = sym outcome ∙ out_is;
        index = sym (ap (λ m. m.current_index) store);
        files = λ q.
            ap (λ m. value_at q m.root) (sym store)
            ∙ ap (value_at q) root
            ∙ (rewrite_effect at q n new value next t s changed found wrote).1;
      }

  not_updated :
      (at : Names) (err : Error) (u : Store)
      → ◌≡◌ {A = Result (Store × Outcome Event)} (ok (u, failed err)) (ok (s', out))
      → u.root ≡ s.root
      → u.current_index ≡ s.current_index
      → (at ≡ []) ⊎ ((n : Node) → node_at at s.root ≡ some n → refuses value n ≡ true)
      → NotUpdated at value s s' out
  not_updated at err u e root index why =
      let (store, outcome) = ok-pair e in
      record {
        error = err;
        is_failed = sym outcome;
        index = sym (ap (λ m. m.current_index) store) ∙ index;
        tree = sym (ap (λ m. m.root) store) ∙ root;
        why = why;
      }

  -- The part of `Update` after the node is found, for either kind of node.
  place_cases :
      (at : Names) (n : Node)
      → ((refuses value n ≡ false)
          × (prev : NodeExtern) × (update_place now path value t s (record { at = at; node = n })
              ≡ finish now path value t s (record { at = at; node = n }) prev))
        ⊎ ((refuses value n ≡ true)
            × (err : Error) × (update_place now path value t s (record { at = at; node = n })
                ≡ ok (count update_fail s, failed err)))
  place_cases at (kv f) =
      inl (
        refl,
        record { shown = show now (kv f); nodes = no_nodes },
        unfold update_place repr in refl,
      )
  place_cases at (dir f cs) = elim (Bool-cases (refuses value (dir f cs))) [
    | inl refused ↦ inr (
      refused,
      new_error ecode_not_file path s.current_index,
      unfold update_place repr in rw refused refl,
    )
    | inr takes ↦ inl (
      takes,
      record { shown = show now (dir f cs); nodes = no_nodes },
      unfold update_place repr in rw takes refl,
    )
  ]

  placed :
      (at : Names) (n : Node)
      → node_at at s.root ≡ some n
      → update_place now path value t s (record { at = at; node = n }) ≡ ok (s', out)
      → Updated at value s s' out ⊎ NotUpdated at value s s' out
  placed at n found e = elim (place_cases at n) [
    | inl (takes, prev, step) ↦ inl (finished at n prev found takes (sym step ∙ e))
    | inr (refused, err, step) ↦ inr (
        not_updated at err (count update_fail s) (sym step ∙ e) (unfold count in refl)
          (unfold count in refl) (inr λ m other. ground (arith, sym found ∙ other, refused)))
  ]

-- Update. Where it returns an event, the path leads to a file, or to a directory with no value being
-- given; then a file has the value, a directory has the files that it had, every other file is as it
-- was, and the index is one more. Where it returns an error, the tree and the index are as they were,
-- and the path is the root or leads to no such node.
pub update_exact :
    (now t : ℕ) (path value : Text) (s s' : Store) (out : Outcome Event)
    → update now path value t s ≡ ok (s', out)
    → Updated (segments path) value s s' out ⊎ NotUpdated (segments path) value s s' out
unfolding update
update_exact now t path value s s' out e =
    let at = segments path in
    let rest = update_place now (full_path path) value t s in
    elim (below_root_cases s path (with_place update_fail (full_path path) s rest)) [
      | inl (below, pass) ↦ elim (with_place_cases s path update_fail rest) [
        | inl (n, found, got) ↦
            placed now t (full_path path) value s s' out at n found (sym got ∙ sym pass ∙ e)
        | inr (err, missing, got) ↦ inr (
            not_updated now t path value s s' out at err (count update_fail s)
              (sym got ∙ sym pass ∙ e) (unfold count in refl) (unfold count in refl)
              (inr λ m other. absurd (cc (sym missing ∙ other))))
      ]
      | inr (root, err, fail) ↦
          inr (not_updated now t path value s s' out at err s (sym fail ∙ e) refl refl (inl root))
    ]
