-- ===== src/Wait/Tests.antt =====
-- wait/wait.go: runs of a small list, and its theorems at these runs.
use etcd.Prelude.{
  ℕ, ◌≡◌, ◌≢◌, refl, ◌⊎◌, Option, none, some, List, [], ◌∷◌, ok, true, false, get_elem?, ap, zero,
  suc,
}
use etcd.Prelude.Map.{lookup}
use etcd.Wait.{Waits, fresh_chan, new, register, trigger}
use etcd.Wait.Delivery.{IsWaiting, register_exact, trigger_exact, new-IsWaiting}

-- One waits for id 7.
abbrev one_waits : Waits ℕ
one_waits = record { m = (7, 0) ∷ []; chans = fresh_chan ∷ [] }

registers : register new 7 ≡ (one_waits, 0)
unfolding register lookup new etcd.Prelude.Map.insert
registers = refl

registers_again : register one_waits 7 ≡ (one_waits, 0)
unfolding register lookup
registers_again = refl

delivers :
    trigger one_waits 7 42
    ≡ some (ok (record { m = []; chans = record { buffer = some 42; closed = true } ∷ [] }))
unfolding trigger lookup etcd.Prelude.Map.delete
delivers = refl

one_waits-IsWaiting : IsWaiting one_waits
unfolding register lookup new etcd.Prelude.Map.insert
one_waits-IsWaiting = (register_exact new 7 new-IsWaiting).0

register_exact_example :
    IsWaiting (register one_waits 8).0
    × (lookup 8 (register one_waits 8).0.m ≡ some (register one_waits 8).1)
    × ((j : ℕ) → 8 ≢ j → lookup j (register one_waits 8).0.m ≡ lookup j one_waits.m)
    × ((lookup 8 one_waits.m ≡ none) ⊎ ((register one_waits 8).0 ≡ one_waits))
register_exact_example = register_exact one_waits 8 one_waits-IsWaiting

trigger_exact_example :
    (w : Waits ℕ) × (trigger one_waits 7 42 ≡ some (ok w))
    × IsWaiting w
    × (lookup 7 w.m ≡ none)
    × ((j : ℕ) → 7 ≢ j → lookup j w.m ≡ lookup j one_waits.m)
    × ((lookup 7 one_waits.m ≡ none) × (w.chans ≡ one_waits.chans)
        ⊎ ((ch : ℕ) × (lookup 7 one_waits.m ≡ some ch)
            × (get_elem? w.chans ch ≡ some (record { buffer = some 42; closed = true }))
            × ((k : ℕ) → ch ≢ k → get_elem? w.chans k ≡ get_elem? one_waits.chans k)))
trigger_exact_example = trigger_exact one_waits 7 42 one_waits-IsWaiting
