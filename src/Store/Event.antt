-- ===== src/Store/Event.antt =====
-- store/event.go: an event, and of store/node_extern.go the node that it shows. A time is a number of
-- nanoseconds since the zero time.
use etcd.Prelude.{ℕ, Bool, true, false, Option, none, some}
use etcd.Prelude.Int.{ℤ, pos}
use etcd.Prelude.Paths.{Text}

pub data Action : Type 0 where
  get_action create_action set_action update_action delete_action : Action
  compare_and_swap_action compare_and_delete_action expire_action : Action

-- What a node shows of itself.
pub record Shown : Type 0 where
  pub key : Text
  pub value : Option Text
  pub dir : Bool
  pub expiration : Option ℕ
  pub ttl : ℤ
  pub modified_index : ℕ
  pub created_index : ℕ

-- A list of nodes: the first one, what it shows and its own nodes, and the others.
pub data NodeExterns : Type 0 where
  no_nodes : NodeExterns
  extern : Shown → NodeExterns → NodeExterns → NodeExterns

pub record NodeExtern : Type 0 where
  pub shown : Shown
  pub open shown use *
  pub nodes : NodeExterns

pub record Event : Type 0 where
  pub action : Action
  pub node : NodeExtern
  pub prev_node : Option NodeExtern
  pub etcd_index : ℕ

unfoldable pub new_event : Action → Text → ℕ → ℕ → Event
new_event action key modified_index created_index = record {
  action = action;
  node = record {
    shown = record {
      key = key;
      value = none;
      dir = false;
      expiration = none;
      ttl = pos 0;
      modified_index = modified_index;
      created_index = created_index;
    };
    nodes = no_nodes;
  };
  prev_node = none;
  etcd_index = 0;
}

unfoldable pub is_created : Event → Bool
is_created e = elim e.action [
  | create_action ↦ true
  | set_action ↦ elim e.prev_node [ none ↦ true | some _ ↦ false ]
  | _ ↦ false
]

abbrev pub index : Event → ℕ
index e = e.node.modified_index
