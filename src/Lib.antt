-- ===== src/Lib.antt =====
-- etcd: the consensus package raft, which keeps one replicated log on the members of a cluster; the
-- package store, the tree of keys and values that the log drives, with its watchers; and the list of
-- the requests that wait for an entry to be applied, and the errors.
--
-- The parts, and the file that models each:
-- * raft/raftpb/raft.pb.go, the messages: Raft/Pb.antt, its structs as records, and Raft/Pb/Encoding.antt,
--   their Size and Marshal; the theorems are in Raft/Pb/Sizes.antt.
-- * raft/log.go, the log of a member: Raft/Log.antt, one function per method of `raftLog` (maybe_append
--   for maybeAppend, find_conflict for findConflict, and so on). Below it: Bounds has the order of the
--   log's positions, Slices and Matching its reads and `append`, Acceptance and Branches
--   `maybeAppend`, Replication a leader's log and a follower's together, Compaction, Recency
--   (`isUpToDate`) and Delivery (`nextEnts`, `unstableEnts`).
-- * raft/raft.go, the state machine of one member. Raft/Machine.antt has the struct `raft` and the
--   operations that the handlers are made of (send, reset, becomeLeader, campaign, maybeCommit);
--   Raft/Step.antt has stepLeader, stepCandidate, stepFollower, restore and the membership changes;
--   Raft/Member.antt has Step, the ticks, compact, and how a member starts and restarts. A handler
--   calls the log's functions on its field raft_log and puts the result back.
--   The theorems: Machine/Quorum, Evolution (the invariant, with a module per layer of the code),
--   Frame, Voters and Votes, Follower, Ballot, Relapse.
-- * raft/node.go, the loop that drives a member: Raft/Node.antt, a round of the loop as a function of
--   the event that the `select` takes; Node/Calls.antt has the API methods as events. The theorems:
--   Node/Run on its runs, Node/Restart on restarts, Node/Updates on what a Ready reports, Node/Stale
--   on lost leaders.
-- * store/event.go, event_queue.go and event_history.go, the events that the store keeps for its
--   watchers: Store/Event.antt and Store/History.antt, with the theorems below it: Ring (the queue),
--   Growth (addEvent) and Search (scan).
-- * store/node.go and node_extern.go, the nodes: Store/Node.antt (a file `kv` or a directory `dir`, and
--   the methods that need only the node), Store/Node/Show.antt (Repr and loadInternalNode;
--   Node/Compare has what the tests of Compare ask) and
--   Store/State/Remove.antt (Remove and UpdateTTL, which change the heap).
-- * store/ttl_key_heap.go, the nodes that expire: Store/TtlHeap.antt, with container/heap; its modules
--   Length and Total have how long the heap is after an operation, and when none panics; Order, Sift, Top
--   and Kept are on its order.
-- * store/watcher.go and watcher_hub.go: Store/Watchers.antt and Store/Watch.antt (watch and Watch); the
--   theorem on removed watchers is in Store/Watchers/Twice.antt.
-- * store/store.go and stats.go: Store/State.antt has the struct and the walk to a node, Store/Stats.antt
--   the counters, Store/Get.antt Get and the numbers, Store/Create.antt Create and Set,
--   Store/Swap.antt CompareAndSwap and Update, Store/Delete.antt Delete, CompareAndDelete and
--   DeleteExpiredKeys, Store/Save.antt Save and Recovery. An operation takes the store and returns it
--   with an event or an error; internalCreate is internal_create, split where the code has its steps.
--   The theorems see the tree as a map from names to values, `value_at` of State/Places: State/Walk,
--   Path, Files, Unlink and Found are on what finds and changes a node, Create/Exact, Swap/Laws,
--   Swap/Updates, Delete/Exact, Get/Reads, Expiry and Save/Laws on the operations; Save/Cloned and
--   Save/Exported have what Clone and encoding/json keep.
-- * wait/wait.go, with which the server hands the result of an applied entry to its request: Wait.antt,
--   and its theorems in Wait/Delivery.antt.
-- * error/error.go, the errors of the store and the server: EtcdError.antt, and the theorem on the HTTP
--   status in EtcdError/Status.antt.
-- * Prelude/*.antt has the shared helpers: Boolean tests, lists, the results of code that may panic,
--   Go maps as association lists, the sorting of maybeCommit, arrays, integers, and Go strings as
--   lists of bytes with what the code calls of the packages strings and path (Paths, Names), with
--   the lemmas on path.Clean (Clean) and path.Split (Folder).
-- * Raft/Samples, Store/Runs, and the modules Tests of Raft, Raft/Pb, Raft/Log, Raft/Node, Store, Wait
--   and EtcdError hold small states and runs.
--
-- How the code is modelled:
-- * A method that changes its receiver returns the new state. A panic is a result without a state.
-- * An int64 (index, term, id) is a natural number. The code makes none below 0 but the term -1 of a
--   missing entry, which is `none`; where it subtracts, the invariant keeps the result at 0 or more.
--   The indexes of a log do not come near 2 ^ 63, so no wrap-around is modelled.
-- * A `range` over a map takes the order of the association list, which is the order of insertion.
-- * A loop over a slice or a map is structural recursion on its list. The loop of scan runs on fuel,
--   as many steps as the ring has slots, which scan_exact shows to be enough; the loops of a varint
--   run on its number as fuel, which is enough by read_varint-encode_varint. The endless loop of the
--   node is the relation Runs, over any events.
-- * The tree of the store is a value. A pointer to a node is the names on the way to it from the root, and
--   a node has no pointer to its parent, which is the node one name above. Operations that change a
--   node write it back at its place.
-- * The time is a natural number, the nanoseconds since the zero time, which is the permanent one; the
--   current time is a parameter `now`. The bytes of encoding/json are a parameter of Save and Recovery,
--   of which recovery-save takes what the package documents: the exported fields that have no tag "-" are
--   read back, for strings that are valid UTF-8 (Prelude/Utf8).
-- * The watchers and their lists are objects that the hub and the clients share, so they stand in tables by
--   number. An event is a value: writes into an event after it was sent are not seen by its holders.
-- * The loops of the heap run on its length as fuel, and the loop of DeleteExpiredKeys on the number of
--   nodes in the heap and one more, which delete_expired_keys_ends shows to be enough.
-- * A slice is a value: that `append` may write into an array that an earlier slice still shows is
--   not modelled.
--
-- Not modelled: the channels and contexts of the node's API methods, the String methods, the other
-- generated protobuf code, the locks of the store and the rendering of its statistics, and the
-- packages wal, snap, etcdserver, discovery, client, proxy and pkg, which use raft or are used beside
-- it. Vendored code under third_party is left aside.
pub mod EtcdError
pub mod Prelude
pub mod Raft
pub mod Store
pub mod Wait
