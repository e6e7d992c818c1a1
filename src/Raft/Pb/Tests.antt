-- ===== src/Raft/Pb/Tests.antt =====
-- raft/raftpb/raft.pb.go: some encodings, and the theorems on encodings at them.
use etcd.Raft.Pb.{
  ConfChange, ConfChangeType, Info, Entry, Snapshot, Message, HardState, entry_normal,
  empty_message, msg_app,
}
use etcd.Raft.Pb.Encoding.{
  conf_change_marshal, conf_change_marshal_to, conf_change_size, info_marshal, info_marshal_to,
  info_size, encode_varint, entry_size, entry_marshal_to, entry_marshal, snapshot_size,
  snapshot_marshal_to, snapshot_marshal, message_size, message_marshal_to, message_marshal,
  hard_state_size, hard_state_marshal_to, hard_state_marshal,
}
use etcd.Raft.Pb.Sizes.{conf_change_fits, read_varint, read_varint-encode_varint, marshal_fits}
use etcd.Prelude.{◌++◌, some, ◌≡◌, refl, [], ◌∷◌, ok, length}

three_hundred : encode_varint 300 ≡ 172 ∷ 2 ∷ []
unfolding encode_varint
three_hundred = refl

abbrev state : HardState
state = record { term = 300; vote = 1; commit = 0 }

writes : hard_state_marshal state ≡ ok (8 ∷ 172 ∷ 2 ∷ 16 ∷ 1 ∷ 24 ∷ 0 ∷ [])
unfolding hard_state_marshal hard_state_marshal_to encode_varint hard_state_size
    etcd.Raft.Pb.Encoding.sov
writes = refl

abbrev hello : Entry
hello = record { type = entry_normal; term = 2; index = 9; bytes = b'h' ∷ b'i' ∷ [] }

abbrev snapshot : Snapshot
snapshot = record { bytes = 1 ∷ []; nodes = 1 ∷ 2 ∷ []; index = 5; term = 2 }

abbrev message : Message
message = record (empty_message msg_app 2) { entries = hello ∷ []; snapshot = snapshot; term = 3 }

read_varint-encode_varint_example :
    read_varint (encode_varint 300 ++ 8 ∷ 1 ∷ []) ≡ some (300, 8 ∷ 1 ∷ [])
read_varint-encode_varint_example = read_varint-encode_varint 300 (8 ∷ 1 ∷ [])

marshal_fits_example :
    (entry_marshal hello ≡ ok (entry_marshal_to hello))
    × (length (entry_marshal_to hello) ≡ entry_size hello)
    × (snapshot_marshal snapshot ≡ ok (snapshot_marshal_to snapshot))
    × (length (snapshot_marshal_to snapshot) ≡ snapshot_size snapshot)
    × (message_marshal message ≡ ok (message_marshal_to message))
    × (length (message_marshal_to message) ≡ message_size message)
    × (hard_state_marshal state ≡ ok (hard_state_marshal_to state))
    × (length (hard_state_marshal_to state) ≡ hard_state_size state)
marshal_fits_example = marshal_fits hello snapshot message state

abbrev change : ConfChange
change = record {
  id = 1;
  type = ConfChangeType.conf_change_remove_node;
  node_id = 300;
  context = 7 ∷ [];
}

conf_change_fits_example :
    (conf_change_marshal change ≡ ok (conf_change_marshal_to change))
    × (length (conf_change_marshal_to change) ≡ conf_change_size change)
    × (info_marshal (record { id = 4 }) ≡ ok (info_marshal_to (record { id = 4 })))
    × (length (info_marshal_to (record { id = 4 })) ≡ info_size (record { id = 4 }))
conf_change_fits_example = conf_change_fits change (record { id = 4 })
