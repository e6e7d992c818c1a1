-- ===== src/Store/Runs/Saved.antt =====
-- store/store.go: a store is saved and recovered, with records of the exported fields in the place of
-- the bytes.
use etcd.Prelude.{◌≡◌, refl, ap, sym, Option, none, some, List, [], ◌∷◌, ok, true, ℕ}
use etcd.Store.Event.{Event, Action, NodeExtern}
use etcd.Store.Node.{Node}
use etcd.Store.Stats.{Stats}
use etcd.Store.State.{Store, new_store}
use etcd.Store.History.{EventHistory}
use etcd.Store.Save.{save, recovery, cloned_store}
use etcd.Store.Save.Exported.{is_utf8_store, read_events, ReadsAs}
use etcd.Store.Save.Laws.{Recovered, recovery-save}
use etcd.Store.Runs.{swapped}

-- The fields of an event that are written.
record WrittenEvent : Type 0 where
  action : Action
  node : NodeExtern
  prev_node : Option NodeExtern

record Written : Type 0 where
  root : Node
  events : List (Option WrittenEvent)
  size : ℕ
  front : ℕ
  back : ℕ
  capacity : ℕ
  start_index : ℕ
  last_index : ℕ
  current_index : ℕ
  stats : Stats
  current_version : ℕ

abbrev write_events : List (Option Event) → List (Option WrittenEvent)
write_events [] = []
write_events (none ∷ es) = none ∷ write_events es
write_events (some e ∷ es) =
    some (record { action = e.action; node = e.node; prev_node = e.prev_node }) ∷ write_events es

abbrev parse_events : List (Option WrittenEvent) → List (Option Event)
parse_events [] = []
parse_events (none ∷ es) = none ∷ parse_events es
parse_events (some e ∷ es) =
    some (record { action = e.action; node = e.node; prev_node = e.prev_node; etcd_index = 0 })
    ∷ parse_events es

abbrev written : Store → Written
written c =
    let h = c.watcher_hub.event_history in
    record {
      root = c.root;
      events = write_events h.queue.events;
      size = h.queue.size;
      front = h.queue.front;
      back = h.queue.back;
      capacity = h.queue.capacity;
      start_index = h.start_index;
      last_index = h.last_index;
      current_index = c.current_index;
      stats = c.stats;
      current_version = c.current_version;
    }

abbrev parsed_history : Written → EventHistory
parsed_history w = record {
  queue = record {
    events = parse_events w.events;
    size = w.size;
    front = w.front;
    back = w.back;
    capacity = w.capacity;
  };
  start_index = w.start_index;
  last_index = w.last_index;
}

abbrev parsed : Written → Store → Store
parsed w s = record s {
  root = w.root;
  watcher_hub = record s.watcher_hub { event_history = parsed_history w };
  current_index = w.current_index;
  stats = w.stats;
  current_version = w.current_version;
}

abbrev write_fields : Store → Option Written
write_fields c = some (written c)

abbrev read_fields : Written → Store → Option Store
read_fields w s = some (parsed w s)

read_written : (es : List (Option Event)) → parse_events (write_events es) ≡ read_events es
read_written [] = refl
read_written (none ∷ es) = ap (λ t. none ∷ t) (read_written es)
read_written (some e ∷ es) = ap (λ t. some (record e { etcd_index = 0 }) ∷ t) (read_written es)

reads_written : (c : Store) → ReadsAs c (parsed (written c) new_store)
reads_written c = record {
  nodes = λ q. refl;
  history =
      ap
        (λ es. record c.watcher_hub.event_history {
          queue = record c.watcher_hub.event_history.queue { events = es };
        })
        (read_written c.watcher_hub.event_history.queue.events);
  index = refl;
  stats = refl;
  version = refl;
}

reads_fields :
    (c : Store) (text : Written)
    → is_utf8_store c ≡ true
    → write_fields c ≡ some text
    → (read : Store) × (read_fields text new_store ≡ some read) × ReadsAs c read
reads_fields c text valid e = (
  parsed (written c) new_store,
  sym (ap (λ o. elim o [ none ↦ none | some w ↦ some (parsed w new_store) ]) e),
  reads_written c,
)

abbrev saved : Written
saved = written (cloned_store swapped)

recovery-save_example :
    (s' : Store) × (recovery write_fields read_fields saved new_store ≡ some (ok s'))
    × Recovered swapped s'
unfolding swapped etcd.Store.State.full_path
recovery-save_example =
    recovery-save write_fields read_fields reads_fields swapped saved refl (unfold save in refl)
