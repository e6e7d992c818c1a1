-- ===== src/Wait/Delivery.antt =====
-- wait/wait.go: whoever registered gets the value, once.
use etcd.Prelude.{
  subst, ap, ltb, ltb→lt, ltb→ge, ℕ, ◌<◌, ◌≡◌, ◌≢◌, refl, sym, ◌∙◌, inl, inr, ◌⊎◌, true, none, some,
  List, [], ◌∷◌, ◌++◌, arith, length, get_elem?, get_elem?-append_left, get_elem?-append_right,
  ◌==◌, Bool-cases, Option-cases, ok, get_elem?-ge,
}
use etcd.Prelude.Map.{lookup, insert, delete, lookup-insert, lookup-delete}
use etcd.Prelude.Arrays.{set, get_elem?-set_same, get_elem?-set_other}
use etcd.Wait.{new, Chan, Waits, fresh_chan, register, trigger}

inserted_cases :
    (m : List (ℕ × ℕ)) (id n i ch : ℕ)
    → lookup i (insert id n m) ≡ some ch
    → (id ≡ i) × (n ≡ ch) ⊎ (id ≢ i) × (lookup i m ≡ some ch)
inserted_cases m id n i ch h = elim (Bool-cases (id == i)) [
  | inl same ↦ inl (ground (arith, same), ground (arith, same, h, lookup-insert id i n m))
  | inr other ↦
      inr (λ e. ground (arith, other, e), ground (arith, other, h, lookup-insert id i n m))
]

deleted_cases :
    (m : List (ℕ × ℕ)) (id i ch : ℕ)
    → lookup i (delete id m) ≡ some ch
    → (id ≢ i) × (lookup i m ≡ some ch)
deleted_cases m id i ch h = elim (Bool-cases (id == i)) [
  | inl same ↦ absurd (ground (arith, same, h, lookup-delete id i m))
  | inr other ↦ (λ e. ground (arith, other, e), ground (arith, other, h, lookup-delete id i m))
]

lookup-insert_self : (m : List (ℕ × ℕ)) (id n : ℕ) → lookup id (insert id n m) ≡ some n
lookup-insert_self m id n = lookup-insert id id n m ∙ ground arith

lookup-delete_self : (m : List (ℕ × ℕ)) (id : ℕ) → lookup id (delete id m) ≡ none
lookup-delete_self m id = lookup-delete id id m ∙ ground arith

others_deleted : (m : List (ℕ × ℕ)) (id j : ℕ) → id ≢ j → lookup j (delete id m) ≡ lookup j m
others_deleted m id j other = lookup-delete id j m ∙ ground (arith, other)

others_inserted : (m : List (ℕ × ℕ)) (id ch j : ℕ) → id ≢ j → lookup j (insert id ch m) ≡ lookup j m
others_inserted m id ch j other = lookup-insert id j ch m ∙ ground (arith, other)

module _ {ℓ} {X : Type ℓ} where
  -- Each channel of the map is open and empty, and no two ids share one.
  pub record IsWaiting (w : Waits X) : Type ℓ where
    pub open_empty : (id ch : ℕ) → lookup id w.m ≡ some ch → get_elem? w.chans ch ≡ some fresh_chan
    pub apart : (i j ch : ℕ) → lookup i w.m ≡ some ch → lookup j w.m ≡ some ch → i ≡ j

  pub new-IsWaiting : IsWaiting (new {X = X})
  unfolding new lookup
  new-IsWaiting = record { open_empty = λ i ch h. cc; apart = λ i j ch h g. cc }

  some-lt : (cs : List (Chan X)) (ch : ℕ) (c : Chan X) → get_elem? cs ch ≡ some c → ch < length cs
  some-lt cs ch c h = elim (Bool-cases (ltb ch (length cs))) [
    | inl low ↦ ltb→lt ch (length cs) low
    | inr high ↦ let out = get_elem?-ge cs ch (ltb→ge ch (length cs) high) in cc (out, h)
  ]

  added-IsWaiting :
      (w : Waits X) (id : ℕ)
      → IsWaiting w
      → IsWaiting
          (record { m = insert id (length w.chans) w.m; chans = w.chans ++ fresh_chan ∷ [] })
  added-IsWaiting w id v = record { open_empty = open_empty; apart = apart }
    where
      below : (i ch : ℕ) → lookup i w.m ≡ some ch → ch < length w.chans
      below i ch h = some-lt w.chans ch fresh_chan (v.open_empty i ch h)

      open_empty :
          (i ch : ℕ)
          → lookup i (insert id (length w.chans) w.m) ≡ some ch
          → get_elem? (w.chans ++ fresh_chan ∷ []) ch ≡ some fresh_chan
      open_empty i ch h = elim (inserted_cases w.m id (length w.chans) i ch h) [
        | inl (_, last) ↦
            get_elem?-append_right w.chans (fresh_chan ∷ []) ch 0 (omega (arith, last))
        | inr (_, old) ↦
            get_elem?-append_left w.chans (fresh_chan ∷ []) ch (below i ch old)
            ∙ v.open_empty i ch old
      ]

      apart :
          (i j ch : ℕ)
          → lookup i (insert id (length w.chans) w.m) ≡ some ch
          → lookup j (insert id (length w.chans) w.m) ≡ some ch
          → i ≡ j
      apart i j ch h g = elim (inserted_cases w.m id (length w.chans) i ch h) [
        | inl (p, last) ↦ elim (inserted_cases w.m id (length w.chans) j ch g) [
          | inl (q, _) ↦ sym p ∙ q
          | inr (_, old) ↦ absurd (omega (arith, last, below j ch old))
        ]
        | inr (_, old) ↦ elim (inserted_cases w.m id (length w.chans) j ch g) [
          | inl (_, last) ↦ absurd (omega (arith, last, below i ch old))
          | inr (_, old') ↦ v.apart i j ch old old'
        ]
      ]

  removed-IsWaiting :
      (w : Waits X) (id : ℕ) (cs : List (Chan X))
      → IsWaiting w
      → ((i ch : ℕ) → id ≢ i → lookup i w.m ≡ some ch → get_elem? cs ch ≡ get_elem? w.chans ch)
      → IsWaiting (record { m = delete id w.m; chans = cs })
  removed-IsWaiting w id cs v same = record {
    open_empty = λ i ch h.
        let (other, old) = deleted_cases w.m id i ch h in
        same i ch other old ∙ v.open_empty i ch old;
    apart = λ i j ch h g.
        v.apart i j ch ((deleted_cases w.m id i ch h).1) ((deleted_cases w.m id j ch g).1);
  }

  -- Registering keeps the invariant, and gives the channel that the map then has for the id: the old
  -- one when the id was registered already, and then nothing changes. Every other id has the channel
  -- that it had.
  pub register_exact :
      (w : Waits X) (id : ℕ)
      → IsWaiting w
      → IsWaiting (register w id).0
        × (lookup id (register w id).0.m ≡ some (register w id).1)
        × ((j : ℕ) → id ≢ j → lookup j (register w id).0.m ≡ lookup j w.m)
        × ((lookup id w.m ≡ none) ⊎ ((register w id).0 ≡ w))
  register_exact w id v = elim (Option-cases (lookup id w.m)) [
    | inl e ↦
        let added : Waits X = record {
          m = insert id (length w.chans) w.m;
          chans = w.chans ++ fresh_chan ∷ [];
        } in
        let eq : register w id ≡ (added, length w.chans) = unfold register in ground (arith, e) in
        subst
          (λ p.
            IsWaiting p.0
            × (lookup id p.0.m ≡ some p.1)
            × ((j : ℕ) → id ≢ j → lookup j p.0.m ≡ lookup j w.m)
            × ((lookup id w.m ≡ none) ⊎ (p.0 ≡ w)))
          (sym eq)
          (
            added-IsWaiting w id v,
            lookup-insert_self w.m id (length w.chans),
            (λ j other. others_inserted w.m id (length w.chans) j other),
            inl e,
          )
    | inr (ch, e) ↦
        let eq : register w id ≡ (w, ch) = unfold register in ground (arith, e) in
        subst
          (λ p.
            IsWaiting p.0
            × (lookup id p.0.m ≡ some p.1)
            × ((j : ℕ) → id ≢ j → lookup j p.0.m ≡ lookup j w.m)
            × ((lookup id w.m ≡ none) ⊎ (p.0 ≡ w)))
          (sym eq) (v, e, (λ j other. refl), inr refl)
  ]

  -- A trigger neither blocks nor panics, and keeps the invariant. The id is then no longer
  -- registered, and every other id has the channel that it had. When it was, its channel holds the value and is closed, and every other channel is
  -- as it was; when it was not, every channel is as it was.
  pub trigger_exact :
      (w : Waits X) (id : ℕ) (x : X)
      → IsWaiting w
      → (w' : Waits X) × (trigger w id x ≡ some (ok w'))
        × IsWaiting w'
        × (lookup id w'.m ≡ none)
        × ((j : ℕ) → id ≢ j → lookup j w'.m ≡ lookup j w.m)
        × ((lookup id w.m ≡ none) × (w'.chans ≡ w.chans)
            ⊎ ((ch : ℕ) × (lookup id w.m ≡ some ch)
                × (get_elem? w'.chans ch ≡ some (record { buffer = some x; closed = true }))
                × ((k : ℕ) → ch ≢ k → get_elem? w'.chans k ≡ get_elem? w.chans k)))
  trigger_exact w id x v = elim (Option-cases (lookup id w.m)) [
    | inl e ↦ (
      record w { m = delete id w.m },
      unfold trigger in ground (arith, e),
      removed-IsWaiting w id w.chans v (λ i ch other old. refl),
      lookup-delete_self w.m id,
      (λ j other. others_deleted w.m id j other),
      inl (e, refl),
    )
    | inr (ch, e) ↦
        let here = v.open_empty id ch e in
        let sent : Chan X = record { buffer = some x; closed = true } in
        (
          record { m = delete id w.m; chans = set w.chans ch sent },
          unfold trigger in ground (arith, e, here),
          removed-IsWaiting w id (set w.chans ch sent) v (λ i k other old.
              get_elem?-set_other w.chans ch k sent
                (λ same. other (v.apart id i ch e (old ∙ ap some (sym same))))),
          lookup-delete_self w.m id,
          (λ j other. others_deleted w.m id j other),
          inr (
            ch,
            e,
            get_elem?-set_same w.chans ch sent (some-lt w.chans ch fresh_chan here),
            λ k other. get_elem?-set_other w.chans ch k sent other,
          ),
        )
  ]
