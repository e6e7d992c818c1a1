-- ===== src/Raft/Pb/Encoding.antt =====
-- raft/raftpb/raft.pb.go: `Size` and `Marshal` of the messages, without unrecognized fields. An
-- int64 is encoded as the uint64 of its bits, so that the term -1 is 2 ^ 64 - 1.
use etcd.Prelude.{
  ℕ, zero, suc, ◌+◌, ◌-◌, ◌/◌, ◌%◌, ◌^◌, Option, none, some, List, [], ◌∷◌, ◌++◌, ltb, leb, ◌==◌,
  if◌then◌else◌, length, Result, ok, panic, Panic,
}
use etcd.Raft.Pb.{
  Info, ConfChange, ConfChangeType, EntryType, Entry, Snapshot, MessageType, Message, HardState,
  entry_normal, entry_conf_change,
}

-- The loop of `encodeVarintRaft`, on fuel.
unfoldable pub varint_loop : ℕ → ℕ → List ℕ
varint_loop zero v = v % 256 ∷ []
varint_loop (suc n) v =
    let rest = varint_loop n (v / 128) in if ltb v 128 then v % 256 ∷ [] else (v % 128 + 128) ∷ rest

unfoldable pub encode_varint : ℕ → List ℕ
unfolding varint_loop
encode_varint v = varint_loop v v

-- The loop of `sovRaft`, on fuel.
unfoldable pub sov_loop : ℕ → ℕ → ℕ
sov_loop zero x = 1
sov_loop (suc n) x = let rest = sov_loop n (x / 128) in if x / 128 == 0 then 1 else suc rest

unfoldable pub sov : ℕ → ℕ
unfolding sov_loop
sov x = sov_loop x x

abbrev pub entry_type_number : EntryType → ℕ
entry_type_number entry_normal = 0
entry_type_number entry_conf_change = 1

abbrev pub message_type_number : MessageType → ℕ
message_type_number MessageType.msg_hup = 0
message_type_number MessageType.msg_beat = 1
message_type_number MessageType.msg_prop = 2
message_type_number MessageType.msg_app = 3
message_type_number MessageType.msg_app_resp = 4
message_type_number MessageType.msg_vote = 5
message_type_number MessageType.msg_vote_resp = 6
message_type_number MessageType.msg_snap = 7
message_type_number MessageType.msg_denied = 8

-- `uint64(t)`, of a term that may be -1.
abbrev pub bits : Option ℕ → ℕ
bits none = 2 ^ 64 - 1
bits (some t) = t

unfoldable pub entry_size : Entry → ℕ
entry_size m =
    1
    + sov (entry_type_number m.type)
    + (1 + sov m.term)
    + (1 + sov m.index)
    + (1 + length m.bytes + sov (length m.bytes))

unfoldable pub entry_marshal_to : Entry → List ℕ
entry_marshal_to m =
    (0x8 ∷ encode_varint (entry_type_number m.type))
    ++ (0x10 ∷ encode_varint m.term)
    ++ (0x18 ∷ encode_varint m.index)
    ++ (0x22 ∷ encode_varint (length m.bytes))
    ++ m.bytes

unfoldable pub nodes_size : List ℕ → ℕ
nodes_size [] = 0
nodes_size (e ∷ nodes) = 1 + sov e + nodes_size nodes

unfoldable pub nodes_marshal_to : List ℕ → List ℕ
nodes_marshal_to [] = []
nodes_marshal_to (num ∷ nodes) = (0x10 ∷ encode_varint num) ++ nodes_marshal_to nodes

unfoldable pub snapshot_size : Snapshot → ℕ
snapshot_size m =
    1
    + length m.bytes
    + sov (length m.bytes)
    + nodes_size m.nodes
    + (1 + sov m.index)
    + (1 + sov m.term)

unfoldable pub snapshot_marshal_to : Snapshot → List ℕ
snapshot_marshal_to m =
    (0xa ∷ encode_varint (length m.bytes))
    ++ m.bytes
    ++ nodes_marshal_to m.nodes
    ++ (0x18 ∷ encode_varint m.index)
    ++ (0x20 ∷ encode_varint m.term)

unfoldable pub entries_size : List Entry → ℕ
entries_size [] = 0
entries_size (e ∷ es) = 1 + entry_size e + sov (entry_size e) + entries_size es

unfoldable pub entries_marshal_to : List Entry → List ℕ
entries_marshal_to [] = []
entries_marshal_to (e ∷ es) =
    (0x3a ∷ encode_varint (entry_size e)) ++ entry_marshal_to e ++ entries_marshal_to es

unfoldable pub message_size : Message → ℕ
message_size m =
    1
    + sov (message_type_number m.type)
    + (1 + sov m.to)
    + (1 + sov m.from)
    + (1 + sov m.term)
    + (1 + sov (bits m.log_term))
    + (1 + sov m.index)
    + entries_size m.entries
    + (1 + sov m.commit)
    + (1 + snapshot_size m.snapshot + sov (snapshot_size m.snapshot))
    + 2

unfoldable pub message_marshal_to : Message → List ℕ
message_marshal_to m =
    (0x8 ∷ encode_varint (message_type_number m.type))
    ++ (0x10 ∷ encode_varint m.to)
    ++ (0x18 ∷ encode_varint m.from)
    ++ (0x20 ∷ encode_varint m.term)
    ++ (0x28 ∷ encode_varint (bits m.log_term))
    ++ (0x30 ∷ encode_varint m.index)
    ++ entries_marshal_to m.entries
    ++ (0x40 ∷ encode_varint m.commit)
    ++ (0x4a ∷ encode_varint (snapshot_size m.snapshot))
    ++ snapshot_marshal_to m.snapshot
    ++ 0x50 ∷ (if m.denied then 1 else 0) ∷ []

unfoldable pub hard_state_size : HardState → ℕ
hard_state_size m = 1 + sov m.term + (1 + sov m.vote) + (1 + sov m.commit)

unfoldable pub hard_state_marshal_to : HardState → List ℕ
hard_state_marshal_to m =
    (0x8 ∷ encode_varint m.term) ++ (0x10 ∷ encode_varint m.vote) ++ (0x18 ∷ encode_varint m.commit)

-- `Marshal`: the bytes are written into a buffer of `Size` bytes, which must not be too small.
abbrev pub fit : List ℕ → ℕ → Result (List ℕ)
fit bytes size = if leb (length bytes) size then ok bytes else panic Panic.index_out_of_range

unfoldable pub entry_marshal : Entry → Result (List ℕ)
entry_marshal m = fit (entry_marshal_to m) (entry_size m)

unfoldable pub snapshot_marshal : Snapshot → Result (List ℕ)
snapshot_marshal m = fit (snapshot_marshal_to m) (snapshot_size m)

unfoldable pub message_marshal : Message → Result (List ℕ)
message_marshal m = fit (message_marshal_to m) (message_size m)

unfoldable pub hard_state_marshal : HardState → Result (List ℕ)
hard_state_marshal m = fit (hard_state_marshal_to m) (hard_state_size m)

abbrev pub conf_change_type_number : ConfChangeType → ℕ
conf_change_type_number ConfChangeType.conf_change_add_node = 0
conf_change_type_number ConfChangeType.conf_change_remove_node = 1

unfoldable pub conf_change_size : ConfChange → ℕ
conf_change_size m =
    1
    + sov m.id
    + (1 + sov (conf_change_type_number m.type))
    + (1 + sov m.node_id)
    + (1 + length m.context + sov (length m.context))

unfoldable pub conf_change_marshal_to : ConfChange → List ℕ
conf_change_marshal_to m =
    (0x8 ∷ encode_varint m.id)
    ++ (0x10 ∷ encode_varint (conf_change_type_number m.type))
    ++ (0x18 ∷ encode_varint m.node_id)
    ++ (0x22 ∷ encode_varint (length m.context))
    ++ m.context

unfoldable pub conf_change_marshal : ConfChange → Result (List ℕ)
conf_change_marshal m = fit (conf_change_marshal_to m) (conf_change_size m)

unfoldable pub info_size : Info → ℕ
info_size m = 1 + sov m.id

unfoldable pub info_marshal_to : Info → List ℕ
info_marshal_to m = 0x8 ∷ encode_varint m.id

unfoldable pub info_marshal : Info → Result (List ℕ)
info_marshal m = fit (info_marshal_to m) (info_size m)
