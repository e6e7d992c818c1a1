-- ===== src/Store/State/Found.antt =====
-- store/store.go: the common beginning of the operations on a node that is there.
use etcd.Prelude.{
  false, ◌≡◌, refl, ap, ◌∙◌, sym, inl, inr, ◌⊎◌, none, some, [], ◌∷◌, Bool-cases, Result, ok,
}
use etcd.Prelude.Paths.{Text, same_text}
use etcd.Prelude.Clean.{segments}
use etcd.EtcdError.{Error, Outcome, failed, returned, new_error, ecode_root_read_only}
use etcd.Store.Event.{Event}
use etcd.Store.Node.{Node}
use etcd.Store.Stats.{Field}
use etcd.Store.State.{Store, Place, node_at, full_path, below_root, with_place, internal_get, count}
use etcd.Store.State.Walk.{IsFound, internal_get_cases, names_of}
use etcd.Store.State.Path.{segments_root, names_of-full_path, full_path-full_path}

module _ (s : Store) (given : Text) where
  -- A path that is cleaned already, as the operations hand it to `internalGet`.
  pub found_cases :
      ((n : Node) × (node_at (segments given) s.root ≡ some n)
        × (internal_get s (full_path given)
            ≡ ok (returned (record { at = segments given; node = n }))))
      ⊎ ((err : Error) × (node_at (segments given) s.root ≡ none)
          × (internal_get s (full_path given) ≡ ok (failed err)))
  unfolding IsFound
  found_cases =
      let at : names_of (full_path (full_path given)) ≡ segments given =
        ap names_of (full_path-full_path given) ∙ names_of-full_path given in
      elim (internal_get_cases s (full_path given)) [
        | inl (n, found, got) ↦ inl (
          n,
          ap (λ t. node_at t s.root) (sym at) ∙ found,
          got ∙ ap (λ t. ok (returned (record { at = t; node = n }))) at,
        )
        | inr (err, missing, got) ↦ inr (err, ap (λ t. node_at t s.root) (sym at) ∙ missing, got)
      ]

  pub with_place_cases :
      (field : Field) (rest : Place → Result (Store × Outcome Event))
      → ((n : Node) × (node_at (segments given) s.root ≡ some n)
          × (with_place field (full_path given) s rest
              ≡ rest (record { at = segments given; node = n })))
        ⊎ ((err : Error) × (node_at (segments given) s.root ≡ none)
            × (with_place field (full_path given) s rest ≡ ok (count field s, failed err)))
  unfolding with_place
  with_place_cases field rest = elim found_cases [
    | inl (n, found, got) ↦ inl (n, found, rw got refl)
    | inr (err, missing, got) ↦ inr (err, missing, rw got refl)
  ]

  pub below_root_cases :
      (rest : Result (Store × Outcome Event))
      → ((same_text (full_path given) (b'/' ∷ []) ≡ false)
          × (below_root (full_path given) s rest ≡ rest))
        ⊎ ((segments given ≡ [])
            × (err : Error) × (below_root (full_path given) s rest ≡ ok (s, failed err)))
  unfolding below_root
  below_root_cases rest = elim (Bool-cases (same_text (full_path given) (b'/' ∷ []))) [
    | inl root ↦ inr (
      segments_root given root,
      new_error ecode_root_read_only (b'/' ∷ []) s.current_index,
      rw root refl,
    )
    | inr other ↦ inl (other, rw other refl)
  ]
