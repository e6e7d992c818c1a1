-- ===== src/Store/Watchers/Twice.antt =====
-- store/watcher_hub.go: a watcher of one event that is notified and then removed by its client.
use etcd.Prelude.{
  ◌||◌, ◌==◌, ltb, ltb→lt, ltb→ge, get_elem?-ge, Bool-cases, inl, inr, none, ℕ, ◌≤◌, ◌≡◌, refl, ◌∙◌,
  sym, Bool, true, false, some, List, [], ◌∷◌, le→leb, get_elem?, ok, ◌>>=◌, length,
}
use etcd.Prelude.Arrays.{set, get_elem?-set_same}
use etcd.Prelude.Int.{decrement}
use etcd.Prelude.Paths.{Text, same_text}
use etcd.Store.Event.{Event, index}
use etcd.Store.State.Places.{same_text_refl}
use etcd.Store.Watchers.{
  delete, Watcher, WatcherHub, at_number, without, notify_loop, remove_element, remove_watcher,
  run_remove, forget_empty,
}

-- A watcher of one event as `watch` has put it into the list `l` of its key.
abbrev pub waiting : Text → ℕ → Bool → ℕ → Watcher
waiting key l recursive since_index = record {
  event_chan = none;
  closed = false;
  stream = false;
  recursive = recursive;
  since_index = since_index;
  removed = false;
  entry = some (key, l);
}

or_true : (b : Bool) → (b || true) ≡ true
or_true true = refl
or_true false = refl

set_there :
    {A : Type 0} (xs : List A) (i : ℕ) (x y : A)
    → get_elem? xs i ≡ some x
    → get_elem? (set xs i y) i ≡ some y
set_there xs i x y h = elim (Bool-cases (ltb i (length xs))) [
  | inl inside ↦ get_elem?-set_same xs i y (ltb→lt i (length xs) inside)
  | inr outside ↦ absurd (cc (sym h ∙ get_elem?-ge xs i (ltb→ge i (length xs) outside)))
]

at_number_ok :
    {A : Type 0} (xs : List A) (i : ℕ) (x : A) → get_elem? xs i ≡ some x → at_number xs i ≡ ok x
at_number_ok xs i x h = rw (at_number, h) refl

forget_ok :
    (key : Text) (l : ℕ) (ids : List ℕ) (wh : WatcherHub)
    → get_elem? wh.lists l ≡ some ids
    → (u : WatcherHub) × (forget_empty key l wh ≡ ok u) × (u.count ≡ wh.count)
unfolding forget_empty
forget_ok key l ids wh h = elim (Bool-cases (length ids == 0)) [
  | inl none_left ↦ (
    record wh { watchers = delete same_text key wh.watchers },
    rw (at_number_ok wh.lists l ids h, none_left) refl,
    refl,
  )
  | inr some_left ↦ (wh, rw (at_number_ok wh.lists l ids h, some_left) refl, refl)
]

remove_element_ok :
    (l i : ℕ) (ids : List ℕ) (wh : WatcherHub)
    → get_elem? wh.lists l ≡ some ids
    → remove_element l i wh ≡ ok (record wh { lists = set wh.lists l (without i ids) })
unfolding remove_element
remove_element_ok l i ids wh h = rw (at_number_ok wh.lists l ids h) refl

-- A watcher that is not marked as removed is counted off once more.
run_remove_counts :
    (key : Text) (i l : ℕ) (ids : List ℕ) (w : Watcher) (wh : WatcherHub)
    → get_elem? wh.table i ≡ some (record w { removed = false; entry = some (key, l) })
    → get_elem? wh.lists l ≡ some ids
    → (u : WatcherHub) × (run_remove i wh ≡ ok u) × (u.count ≡ decrement wh.count)
run_remove_counts key i l ids w wh there listed =
    let marked : WatcherHub = record wh {
      table = set wh.table i (record w { removed = true; entry = some (key, l) });
    } in
    let out : WatcherHub = record marked {
      lists = set wh.lists l (without i ids);
      count = decrement wh.count;
    } in
    let (u, forgets, count) =
      forget_ok key l (without i ids) out (set_there wh.lists l ids (without i ids) listed) in
    let takes = remove_element_ok l i ids marked listed in
    (
      u,
      unfold run_remove in
          rw
            (
              at_number_ok wh.table i (record w { removed = false; entry = some (key, l) }) there,
              takes,
            )
            forgets,
      count,
    )

module _ (i l since : ℕ) (recursive deleted : Bool) (e : Event) (wh : WatcherHub) (ids : List ℕ)
    (there : get_elem? wh.table i ≡ some (waiting e.node.key l recursive since))
    (listed : get_elem? wh.lists l ≡ some ids) (old_enough : since ≤ index e) where
  abbrev key : Text
  key = e.node.key

  abbrev sent : WatcherHub
  sent = record wh {
    table = set wh.table i (record (waiting key l recursive since) { event_chan = some e });
  }

  abbrev told : WatcherHub
  told = record sent { lists = set wh.lists l (without i ids); count = decrement wh.count }

  at_ok : at_number wh.table i ≡ ok (waiting key l recursive since)
  at_ok = rw (at_number, there) refl

  notifies : notify_loop e key deleted l (i ∷ []) wh ≡ ok told
  unfolding notify_loop
  notifies =
      rw (at_ok, same_text_refl key, le→leb since (index e) old_enough, or_true recursive)
        (rw (at_number, listed) refl)

  -- A watcher of one event that is sent an event of its key, and is then removed by its client as every
  -- client does: the hub counts it off twice.
  pub counted_twice :
      (u : WatcherHub) × ((notify_loop e e.node.key deleted l (i ∷ []) wh >>= remove_watcher i)
        ≡ ok u)
      × (u.count ≡ decrement (decrement wh.count))
  counted_twice =
      let w = record (waiting e.node.key l recursive since) { event_chan = some e } in
      let in_table = set_there wh.table i (waiting e.node.key l recursive since) w there in
      let shut_watcher = record w { closed = true } in
      let shut : WatcherHub = record told { table = set told.table i shut_watcher } in
      let (u, runs, counts) =
        run_remove_counts e.node.key i l (without i ids) shut_watcher shut
          (set_there told.table i w shut_watcher in_table)
          (set_there wh.lists l ids (without i ids) listed) in
      let closes : remove_watcher i told ≡ run_remove i shut =
        unfold remove_watcher in rw (at_number_ok told.table i w in_table) refl in
      (u, rw notifies (closes ∙ runs), counts)
