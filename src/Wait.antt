-- ===== src/Wait.antt =====
-- wait/wait.go: the list of those who wait for a value. Its methods hold the lock, so each is one
-- step. A channel is its place in a list of channels.
pub mod Delivery
mod Tests
use etcd.Prelude.{
  ℕ, ◌+◌, Bool, true, false, Option, none, some, List, [], ◌∷◌, ◌++◌, if◌then◌else◌, length,
  get_elem?, Result, ok, panic, Panic,
}
use etcd.Prelude.Map.{lookup, insert, delete}
use etcd.Prelude.Arrays.{set}

-- A channel with a buffer of one value.
pub record Chan {ℓ} (X : Type ℓ) : Type ℓ where
  pub buffer : Option X
  pub closed : Bool

pub record Waits {ℓ} (X : Type ℓ) : Type ℓ where
  pub m : List (ℕ × ℕ)
  pub chans : List (Chan X)

abbrev pub fresh_chan {ℓ} : {X : Type ℓ} → Chan X
fresh_chan = record { buffer = none; closed = false }

module _ {ℓ} {X : Type ℓ} where
  unfoldable pub new : Waits X
  new = record { m = []; chans = [] }

  unfoldable pub register : Waits X → ℕ → Waits X × ℕ
  register w id = elim (lookup id w.m) [
    | some ch ↦ (w, ch)
    | none ↦ (
      record { m = insert id (length w.chans) w.m; chans = w.chans ++ fresh_chan ∷ [] },
      length w.chans,
    )
  ]

  -- A value sent into a channel and the channel closed. A full buffer would block the sender for
  -- ever, which is `none`; a closed channel panics.
  abbrev pub send_and_close : Chan X → X → Option (Result (Chan X))
  send_and_close c x = if c.closed then some (panic Panic.closed_channel) else elim c.buffer [
    | none ↦ some (ok (record { buffer = some x; closed = true }))
    | some _ ↦ none
  ]

  unfoldable pub trigger : Waits X → ℕ → X → Option (Result (Waits X))
  trigger w id x = elim (lookup id w.m) [
    | none ↦ some (ok (record w { m = delete id w.m }))
    | some ch ↦ elim (get_elem? w.chans ch) [
      | none ↦ some (panic Panic.nil_pointer)
      | some c ↦ elim (send_and_close c x) [
        | none ↦ none
        | some (panic p) ↦ some (panic p)
        | some (ok c') ↦ some (ok (record { m = delete id w.m; chans = set w.chans ch c' }))
      ]
    ]
  ]
