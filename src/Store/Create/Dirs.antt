-- ===== src/Store/Create/Dirs.antt =====
-- store/store.go: the walk of `internalCreate`, which makes the directories that are missing.
use mathlib.Core.List.{append-nil, append_assoc}
use etcd.Prelude.{
  ◌+◌, ◌≡◌, refl, ap, ◌∙◌, sym, inl, inr, ◌⊎◌, none, some, List, [], ◌∷◌, ◌++◌, Bool-cases,
  Option-cases, Result, ok, ◌==◌, length,
}
use etcd.Prelude.Paths.{Text, same_text}
use etcd.Prelude.Names.{Names, join}
use etcd.EtcdError.{Error, Outcome, failed, returned, new_error, ecode_not_dir}
use etcd.Store.Node.{
  Node, kv, dir, Fields, Children, childless, child_at, put_child, fields, new_dir, permanent,
}
use etcd.Store.State.{Store, Place, put_at, node_at, check_dir, walk_loop}
use etcd.Store.State.Places.{
  value_at, same_text→≡, value_at_step, node_at-put_at, child_at-put_child, same_text_refl,
  file_value, node_below,
}
use etcd.Store.State.Files.{value_at-same, value_at-entry, node_at-append}
use etcd.Store.State.Walk.{until_empty, loop_stop, loop_step, loop_fail}

-- Only the tree differs, and its files are the same.
pub record SameFiles (t t' : Store) : Type 0 where
  pub others : t' ≡ record t { root = t'.root }
  pub files : (q : Names) → value_at q t'.root ≡ value_at q t.root

SameFiles-refl : (t : Store) → SameFiles t t
SameFiles-refl t = record { others = refl; files = λ q. refl }

abbrev with_root : Node → Store → Store
with_root n t = record t { root = n }

SameFiles-trans : (t u w : Store) → SameFiles t u → SameFiles u w → SameFiles t w
SameFiles-trans t u w h g = record {
  others = g.others ∙ ap (with_root w.root) h.others;
  files = λ q. g.files q ∙ h.files q;
}

empty_dir : (q : Names) (f : Fields) → value_at q (dir f childless) ≡ none
empty_dir [] f = unfold value_at node_at in refl
empty_dir (d ∷ ds) f = value_at_step d ds f childless

-- An empty directory under a name that is free adds no file.
same_with_dir :
    (c : Text) (rest : Names) (f g : Fields) (entries : Children)
    → child_at c entries ≡ none
    → value_at rest (dir f (put_child c (dir g childless) entries)) ≡ value_at rest (dir f entries)
same_with_dir c [] f g entries missing = unfold value_at node_at in refl
same_with_dir c (d ∷ ds) f g entries missing =
    value_at-entry c (d ∷ ds) f (dir g childless) entries ∙ elim (Bool-cases (same_text c d)) [
      | inl hit ↦ rw hit (
          empty_dir ds g
          ∙ sym (
              value_at_step d ds f entries
              ∙ ap (λ o. file_value (node_below ds o))
                  (ap (λ x. child_at x entries) (sym (same_text→≡ c d hit)) ∙ missing)))
      | inr miss ↦ rw miss refl
    ]

-- Where a step or a walk that makes directories ends.
unfoldable pub Ends : Store → Result (Store × Outcome Place) → Names → Type 0
Ends t r at =
    (t' : Store) × SameFiles t t'
    × (((f : Fields) × (entries : Children) × (r
            ≡ ok (t', returned (record { at = at; node = dir f entries })))
          × (node_at at t'.root ≡ some (dir f entries)))
        ⊎ ((err : Error) × (r ≡ ok (t', failed err))))

module _ (t : Store) (at : Names) (f : Fields) (entries : Children) (c : Text)
    (h : node_at at t.root ≡ some (dir f entries)) where
  check_dir-Ends : Ends t (check_dir t (record { at = at; node = dir f entries }) c) (at ++ c ∷ [])
  unfolding Ends
  check_dir-Ends = elim (Option-cases (child_at c entries)) [
    | inr (kv g, there) ↦ (
      t,
      SameFiles-refl t,
      inr (
        new_error ecode_not_dir g.path t.current_index,
        unfold check_dir in rw (check_dir, there) refl,
      ),
    )
    | inr (dir g below, there) ↦ (
      t,
      SameFiles-refl t,
      inl (
        g,
        below,
        unfold check_dir in rw (check_dir, there) refl,
        node_at-append at c t.root (dir g below) f entries h there,
      ),
    )
    | inl missing ↦
        let g : Fields = fields (new_dir (join f.path c) (t.current_index + 1) f.acl permanent) in
        let made = dir f (put_child c (dir g childless) entries) in
        let t' = with_root (put_at at made t.root) t in
        let entry = child_at-put_child c c (dir g childless) entries ∙ rw (same_text_refl c) refl in
        (
          t',
          record {
            others = refl;
            files = λ q.
                value_at-same at q made (dir f entries) t.root h
                  (λ rest. same_with_dir c rest f g entries missing);
          },
          inl (
            g,
            childless,
            unfold check_dir new_dir in rw (check_dir, missing) refl,
            node_at-append at c t'.root (dir g childless) f (put_child c (dir g childless) entries)
                (node_at-put_at at made (dir f entries) t.root h) entry,
          ),
        )
  ]

-- The walk ends in a directory that the names lead to, or with an error.
pub walk-Ends :
    (cs : List Text) (t : Store) (at : Names) (f : Fields) (entries : Children)
    → node_at at t.root ≡ some (dir f entries)
    → Ends t
        (walk_loop check_dir cs t (record { at = at; node = dir f entries }))
        (at ++ until_empty cs)
unfolding Ends
walk-Ends [] t at f entries h = (
  t,
  SameFiles-refl t,
  inl (f, entries, unfold walk_loop in rw (append-nil at) refl, rw (append-nil at) h),
)
walk-Ends (c ∷ cs) t at f entries h = elim (Bool-cases (length c == 0)) [
  | inl z ↦
      let stop = loop_stop check_dir c cs t (record { at = at; node = dir f entries }) z in
      rw (z, append-nil at) (t, SameFiles-refl t, inl (f, entries, stop, h))
  | inr nz ↦
      let p : Place = record { at = at; node = dir f entries } in
      let (u, same, ends) = check_dir-Ends t at f entries c h in
      rw nz (elim ends [
        | inr (err, fail) ↦ (u, same, inr (err, loop_fail check_dir c cs t u p err nz fail))
        | inl (g, below, there, found) ↦
            let step =
              loop_step check_dir c cs t u p (record { at = at ++ c ∷ []; node = dir g below }) nz
                there in
            let assoc = append_assoc at (c ∷ []) (until_empty cs) in
            let (w, same', ends') = walk-Ends cs u (at ++ c ∷ []) g below found in
            (
              w,
              SameFiles-trans t u w same same',
              elim ends' [
                | inl (k, inside, walk, at_end) ↦ inl (
                  k,
                  inside,
                  step
                      ∙ walk
                      ∙ ap (λ m. ok (w, returned (record { at = m; node = dir k inside }))) assoc,
                  ap (λ m. node_at m w.root) (sym assoc) ∙ at_end,
                )
                | inr (err, fail) ↦ inr (err, step ∙ fail)
              ],
            )
      ])
]
