-- ===== src/Raft/Pb/Sizes.antt =====
-- raft/raftpb/raft.pb.go: what is written fits just in the buffer that `Size` gives, and a varint is
-- read back.
use etcd.Prelude.{
  Option, none, some, ◌++◌, ◌-◌, if◌then◌else◌, ap, true, false, ltb→lt, ltb→ge, ℕ, zero, suc, ◌+◌,
  ◌*◌, ◌/◌, ◌%◌, ◌≤◌, ◌≡◌, refl, List, [], ◌∷◌, arith, length, length-append, ltb, ◌==◌, ok,
  Bool-cases, inl, inr,
}
use etcd.Raft.Pb.{Info, ConfChange, Entry, Snapshot, Message, HardState}
use etcd.Raft.Pb.Encoding.{
  info_marshal, conf_change_marshal, conf_change_size, info_size, info_marshal_to,
  conf_change_marshal_to, varint_loop, encode_varint, sov_loop, sov, entry_size, entry_marshal_to,
  nodes_size, nodes_marshal_to, snapshot_size, snapshot_marshal_to, entries_size,
  entries_marshal_to, message_size, message_marshal_to, hard_state_size, hard_state_marshal_to, fit,
  entry_marshal, snapshot_marshal, message_marshal, hard_state_marshal,
}

-- The rule of protocol buffers for a varint at the front of some bytes, and the bytes after it: a byte
-- of 128 or more has seven bits of the number and is followed by the higher ones, any other ends it.
abbrev pub read_varint : List ℕ → Option (ℕ × List ℕ)
read_varint [] = none
read_varint (b ∷ bytes) =
    let higher = read_varint bytes in
    if ltb b 128
    then some (b, bytes)
    else elim higher [ none ↦ none | some (v, rest) ↦ some (b - 128 + 128 * v, rest) ]

read_varint-varint_loop :
    (n v : ℕ) (rest : List ℕ) → v ≤ n → read_varint (varint_loop n v ++ rest) ≡ some (v, rest)
unfolding varint_loop
read_varint-varint_loop zero v rest h = ground arith
read_varint-varint_loop (suc n) v rest h = elim (Bool-cases (ltb v 128)) [
  | inl small ↦ let low = ltb→lt v 128 small in rw small (ground arith)
  | inr large ↦
      let high = ltb→ge v 128 large in
      let higher = read_varint-varint_loop n (v / 128) rest (omega arith) in
      let more : ltb (v % 128 + 128) 128 ≡ false = ground arith in
      rw (large, more, higher) (ap (λ w. some (w, rest)) (omega arith))
]

==-complete : (a b : ℕ) → a ≡ b → (a == b) ≡ true
==-complete a b h = ground arith

==-false : (a : ℕ) → 1 ≤ a → (a == 0) ≡ false
==-false a h = ground arith

length-varint_loop : (n v : ℕ) → length (varint_loop n v) ≡ sov_loop n v
unfolding varint_loop sov_loop
length-varint_loop zero v = refl
length-varint_loop (suc n) v = elim (Bool-cases (ltb v 128)) [
  | inl small ↦
      let low = ltb→lt v 128 small in
      let done : (v / 128 == 0) ≡ true = ==-complete (v / 128) 0 (omega arith) in
      rw (small, done) refl
  | inr large ↦
      let high = ltb→ge v 128 large in
      let more : (v / 128 == 0) ≡ false = ==-false (v / 128) (omega arith) in
      rw (large, more, length-varint_loop n (v / 128)) refl
]

length-encode_varint : (v : ℕ) → length (encode_varint v) ≡ sov v
unfolding encode_varint sov
length-encode_varint v = length-varint_loop v v

-- What `encodeVarintRaft` writes for a number is read back as this number, whatever bytes follow, by
-- the rule of protocol buffers: every byte but the last has its high bit set.
pub read_varint-encode_varint :
    (v : ℕ) (rest : List ℕ) → read_varint (encode_varint v ++ rest) ≡ some (v, rest)
unfolding encode_varint
read_varint-encode_varint v rest = read_varint-varint_loop v v rest (omega arith)

length-entry_marshal_to : (m : Entry) → length (entry_marshal_to m) ≡ entry_size m
unfolding entry_marshal_to entry_size
length-entry_marshal_to m = simp (length-append, length-encode_varint) (omega arith)

length-nodes_marshal_to : (ns : List ℕ) → length (nodes_marshal_to ns) ≡ nodes_size ns
unfolding nodes_marshal_to nodes_size
length-nodes_marshal_to [] = refl
length-nodes_marshal_to (n ∷ ns) =
    simp (length-append, length-encode_varint, length-nodes_marshal_to ns) (omega arith)

length-snapshot_marshal_to : (m : Snapshot) → length (snapshot_marshal_to m) ≡ snapshot_size m
unfolding snapshot_marshal_to snapshot_size
length-snapshot_marshal_to m =
    simp (length-append, length-encode_varint, length-nodes_marshal_to) (omega arith)

length-entries_marshal_to : (es : List Entry) → length (entries_marshal_to es) ≡ entries_size es
unfolding entries_marshal_to entries_size
length-entries_marshal_to [] = refl
length-entries_marshal_to (e ∷ es) =
    simp
      (length-append, length-encode_varint, length-entry_marshal_to, length-entries_marshal_to es)
      (omega arith)

length-message_marshal_to : (m : Message) → length (message_marshal_to m) ≡ message_size m
unfolding message_marshal_to message_size
length-message_marshal_to m =
    simp
      (length-append, length-encode_varint, length-entries_marshal_to, length-snapshot_marshal_to)
      (omega arith)

length-hard_state_marshal_to :
    (m : HardState) → length (hard_state_marshal_to m) ≡ hard_state_size m
unfolding hard_state_marshal_to hard_state_size
length-hard_state_marshal_to m = simp (length-append, length-encode_varint) (omega arith)

fits : (bytes : List ℕ) (size : ℕ) → length bytes ≡ size → fit bytes size ≡ ok bytes
fits bytes size h = ground (arith, h)

length-conf_change_marshal_to :
    (m : ConfChange) → length (conf_change_marshal_to m) ≡ conf_change_size m
unfolding conf_change_marshal_to conf_change_size
length-conf_change_marshal_to m = simp (length-append, length-encode_varint) (omega arith)

length-info_marshal_to : (m : Info) → length (info_marshal_to m) ≡ info_size m
unfolding info_marshal_to info_size
length-info_marshal_to m = omega (arith, length-encode_varint m.id)

-- `Marshal` of an entry, a snapshot, a message or a hard state never writes out of its buffer, and
-- fills it: the bytes are as many as `Size` says.
pub marshal_fits :
    (e : Entry) (s : Snapshot) (m : Message) (h : HardState)
    → (entry_marshal e ≡ ok (entry_marshal_to e))
      × (length (entry_marshal_to e) ≡ entry_size e)
      × (snapshot_marshal s ≡ ok (snapshot_marshal_to s))
      × (length (snapshot_marshal_to s) ≡ snapshot_size s)
      × (message_marshal m ≡ ok (message_marshal_to m))
      × (length (message_marshal_to m) ≡ message_size m)
      × (hard_state_marshal h ≡ ok (hard_state_marshal_to h))
      × (length (hard_state_marshal_to h) ≡ hard_state_size h)
marshal_fits e s m h = (
  unfold entry_marshal in fits _ _ (length-entry_marshal_to e),
  length-entry_marshal_to e,
  unfold snapshot_marshal in fits _ _ (length-snapshot_marshal_to s),
  length-snapshot_marshal_to s,
  unfold message_marshal in fits _ _ (length-message_marshal_to m),
  length-message_marshal_to m,
  unfold hard_state_marshal in fits _ _ (length-hard_state_marshal_to h),
  length-hard_state_marshal_to h,
)

-- `Marshal` of a configuration change and of the information on a member never writes out of its
-- buffer, and fills it: the bytes are as many as `Size` says.
pub conf_change_fits :
    (c : ConfChange) (i : Info)
    → (conf_change_marshal c ≡ ok (conf_change_marshal_to c))
      × (length (conf_change_marshal_to c) ≡ conf_change_size c)
      × (info_marshal i ≡ ok (info_marshal_to i))
      × (length (info_marshal_to i) ≡ info_size i)
conf_change_fits c i = (
  unfold conf_change_marshal in fits _ _ (length-conf_change_marshal_to c),
  length-conf_change_marshal_to c,
  unfold info_marshal in fits _ _ (length-info_marshal_to i),
  length-info_marshal_to i,
)
