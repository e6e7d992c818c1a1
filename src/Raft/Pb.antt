-- ===== src/Raft/Pb.antt =====
-- raft/raftpb/raft.proto and the structs that raft/raftpb/raft.pb.go declares for it.
-- An int64 is a natural number: every identifier, index and term that the code makes is at least
-- 0, but for the term -1 of a missing entry, which is `none`.
pub mod Encoding
pub mod Sizes
mod Tests
use etcd.Prelude.{ℕ, Bool, false, Option, some, List, []}

pub data EntryType : Type 0 where
  entry_normal entry_conf_change : EntryType

pub record Entry : Type 0 where
  pub type : EntryType
  pub term : ℕ
  pub index : ℕ
  pub bytes : List ℕ

pub record Snapshot : Type 0 where
  pub bytes : List ℕ
  pub nodes : List ℕ
  pub index : ℕ
  pub term : ℕ

-- The message types, `msgHup` to `msgDenied`, of raft/raft.go.
pub data MessageType : Type 0 where
  msg_hup msg_beat msg_prop msg_app msg_app_resp msg_vote msg_vote_resp msg_snap : MessageType
  msg_denied : MessageType

pub record Message : Type 0 where
  pub type : MessageType
  pub to : ℕ
  pub from : ℕ
  pub term : ℕ
  pub log_term : Option ℕ
  pub index : ℕ
  pub entries : List Entry
  pub commit : ℕ
  pub snapshot : Snapshot
  pub denied : Bool

pub record HardState : Type 0 where
  pub term : ℕ
  pub vote : ℕ
  pub commit : ℕ

pub data ConfChangeType : Type 0 where
  conf_change_add_node conf_change_remove_node : ConfChangeType

pub record ConfChange : Type 0 where
  pub id : ℕ
  pub type : ConfChangeType
  pub node_id : ℕ
  pub context : List ℕ

pub record Info : Type 0 where
  pub id : ℕ

-- The zero values of the structs.
abbrev pub empty_entry : Entry
empty_entry = record { type = entry_normal; term = 0; index = 0; bytes = [] }

abbrev pub empty_snapshot : Snapshot
empty_snapshot = record { bytes = []; nodes = []; index = 0; term = 0 }

abbrev pub empty_message : MessageType → ℕ → Message
empty_message type to = record {
  type = type;
  to = to;
  from = 0;
  term = 0;
  log_term = some 0;
  index = 0;
  entries = [];
  commit = 0;
  snapshot = empty_snapshot;
  denied = false;
}
