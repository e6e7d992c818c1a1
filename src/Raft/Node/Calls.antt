-- ===== src/Raft/Node/Calls.antt =====
-- raft/node.go: the calls of a node, each as the event that it offers to the loop. Whether the
-- caller waits, gives up with its context or finds the node stopped is not modelled.
use etcd.Raft.Pb.{
  ConfChange, Message, msg_hup, msg_beat, msg_prop, entry_conf_change, empty_message, empty_entry,
}
use etcd.Raft.Pb.Encoding.{conf_change_marshal}
use etcd.Prelude.{Result, ok, ◌>>=◌, ℕ, Option, none, some, List, [], ◌∷◌}
use etcd.Raft.Node.{Event}

-- The channel into which the method `step` puts a message.
unfoldable pub put : Message → Event
put m = elim m.type [ msg_prop ↦ Event.proposes m | _ ↦ Event.receives m ]

-- The method `Step`, for messages from the network.
unfoldable pub step_call : Message → Option Event
unfolding put
step_call m = elim m.type [ msg_hup ↦ none | msg_beat ↦ none | _ ↦ some (put m) ]

unfoldable pub campaign_call : Event
unfolding put
campaign_call = put (empty_message msg_hup 0)

unfoldable pub propose_call : List ℕ → Event
unfolding put
propose_call d =
    put (record (empty_message msg_prop 0) { entries = record empty_entry { bytes = d } ∷ [] })

unfoldable pub propose_conf_change_call : ConfChange → Result (Option Event)
unfolding step_call conf_change_marshal
propose_conf_change_call cc = do
  d ← conf_change_marshal cc
  ok (
      step_call (record (empty_message msg_prop 0) {
        entries = record empty_entry { type = entry_conf_change; bytes = d } ∷ [];
      }))
