-- ===== src/Store/Save/Exported.antt =====
-- store/*.go: what encoding/json writes of a store and reads back. It leaves unexported fields and those
-- tagged "-" out, `EtcdIndex` of an event among them, and it keeps the strings that are valid UTF-8.
use etcd.Prelude.{ℕ, ◌≡◌, refl, Bool, true, ◌&&◌, Option, none, some, List, [], ◌∷◌, arith}
use etcd.Prelude.Names.{Names}
use etcd.Prelude.Utf8.{is_utf8}
use etcd.Store.Event.{Event, NodeExtern, NodeExterns, no_nodes, extern, Shown}
use etcd.Store.Node
use etcd.Store.Node.{
  Node, kv, dir, Children, childless, child, Fields, fields, is_dir, clone_children,
}
use etcd.Store.History.{EventHistory, EventQueue}
use etcd.Store.Watchers
use etcd.Store.History
use etcd.Store.Save.{cloned_store}
use etcd.Store.State.{Store, node_at}

abbrev is_utf8_option : Option (List ℕ) → Bool
is_utf8_option none = true
is_utf8_option (some s) = is_utf8 s

abbrev is_utf8_fields : Fields → Bool
is_utf8_fields f = is_utf8 f.path && is_utf8 f.acl && is_utf8 f.value

abbrev mutual
  pub is_utf8_node : Node → Bool
  is_utf8_node (kv f) = is_utf8_fields f
  is_utf8_node (dir f cs) = is_utf8_fields f && is_utf8_children cs

  pub is_utf8_children : Children → Bool
  is_utf8_children childless = true
  is_utf8_children (child key n cs) = is_utf8 key && is_utf8_node n && is_utf8_children cs

abbrev is_utf8_shown : Shown → Bool
is_utf8_shown s = is_utf8 s.key && is_utf8_option s.value

abbrev is_utf8_externs : NodeExterns → Bool
is_utf8_externs no_nodes = true
is_utf8_externs (extern s ns rest) = is_utf8_shown s && is_utf8_externs ns && is_utf8_externs rest

abbrev is_utf8_extern : NodeExtern → Bool
is_utf8_extern n = is_utf8_shown n.shown && is_utf8_externs n.nodes

abbrev is_utf8_event : Event → Bool
is_utf8_event e =
    is_utf8_extern e.node && elim e.prev_node [ none ↦ true | some n ↦ is_utf8_extern n ]

abbrev is_utf8_events : List (Option Event) → Bool
is_utf8_events [] = true
is_utf8_events (none ∷ es) = is_utf8_events es
is_utf8_events (some e ∷ es) = is_utf8_event e && is_utf8_events es

-- Every string that a store holds is valid UTF-8.
abbrev pub is_utf8_store : Store → Bool
is_utf8_store s = is_utf8_node s.root && is_utf8_events s.watcher_hub.event_history.queue.events

-- The events as they are read: without the index of the store.
abbrev pub read_events : List (Option Event) → List (Option Event)
read_events [] = []
read_events (none ∷ es) = none ∷ read_events es
read_events (some e ∷ es) = some (record e { etcd_index = 0 }) ∷ read_events es

abbrev pub read_history : EventHistory → EventHistory
read_history h = record h { queue = record h.queue { events = read_events h.queue.events } }

-- A node without the nodes below it: whether it is a directory, and its fields.
abbrev pub shape : Option Node → Option (Bool × Fields)
shape none = none
shape (some n) = some (is_dir n, fields n)

-- What a store that has been read has of the one that was written. The order of the nodes below a node
-- is no part of it, nor are the watchers and the heap.
pub record ReadsAs (c read : Store) : Type 0 where
  pub nodes : (q : Names) → shape (node_at q read.root) ≡ shape (node_at q c.root)
  pub history : read.watcher_hub.event_history ≡ read_history c.watcher_hub.event_history
  pub index : read.current_index ≡ c.current_index
  pub stats : read.stats ≡ c.stats
  pub version : read.current_version ≡ c.current_version

both :
    (a b c d : Bool)
    → (a && b) ≡ true
    → (a ≡ true → c ≡ true)
    → (b ≡ true → d ≡ true)
    → (c && d) ≡ true
both a b c d h f g = ground (arith, h, f, g)

keep_two : (a b c : Bool) → (a && b && c) ≡ true → (a && b && true) ≡ true
keep_two a b c h = ground (arith, h)

mutual
  unfolding Node.clone

  clone-is_utf8 : (n : Node) → is_utf8_node n ≡ true → is_utf8_node (Node.clone n) ≡ true
  clone-is_utf8 (kv f) h = h
  clone-is_utf8 (dir f cs) h =
      both (is_utf8_fields f) (is_utf8_children cs) _ _ h
        (keep_two (is_utf8 f.path) (is_utf8 f.acl) (is_utf8 f.value)) (clone_children-is_utf8 cs)

  clone_children-is_utf8 :
      (cs : Children) → is_utf8_children cs ≡ true → is_utf8_children (clone_children cs) ≡ true
  clone_children-is_utf8 childless h = refl
  clone_children-is_utf8 (child key n cs) h =
      both (is_utf8 key && is_utf8_node n) (is_utf8_children cs) _ _ h
        (λ k. both (is_utf8 key) (is_utf8_node n) _ _ k (λ valid. valid) (clone-is_utf8 n))
        (clone_children-is_utf8 cs)

-- `Save` writes no other strings than the store has.
pub cloned_store-is_utf8 :
    (s : Store) → is_utf8_store s ≡ true → is_utf8_store (cloned_store s) ≡ true
unfolding cloned_store Watchers.clone History.clone
cloned_store-is_utf8 s h =
    both (is_utf8_node s.root) (is_utf8_events s.watcher_hub.event_history.queue.events) _ _ h
      (clone-is_utf8 s.root) (λ k. k)
