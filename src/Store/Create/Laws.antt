-- ===== src/Store/Create/Laws.antt =====
-- store/store.go: what Create of a file does to the files of the tree, on every branch.
use etcd.Prelude.{
  subst, ℕ, ◌+◌, ◌++◌, ◌≡◌, refl, ap, ◌∙◌, sym, inl, inr, ◌⊎◌, true, false, none, some, List, [],
  ◌∷◌, arith, Option-cases, Result, ok, ok-pair, if◌then◌else◌, drop,
}
use etcd.Prelude.Paths.{Text, same_text}
use etcd.Prelude.Names.{Names, same_names, split_path}
use etcd.Prelude.Clean.{segments, segments_normal, rooted_text, path_text, all_normal}
use etcd.Prelude.Folder.{last_segment, split_path-path_text, split-folder, all_normal-init}
use etcd.EtcdError.{Error, Outcome, failed, returned}
use etcd.Store.Event.{Event, create_action}
use etcd.Store.Node.{dir, Fields, Children, child_at}
use etcd.Store.Stats.{set_fail}
use etcd.Store.State.{walk_loop, Store, node_at, full_path, walk, check_dir, count}
use etcd.Store.State.Places.{value_at}
use etcd.Store.State.Path.{full_path-segments}
use etcd.Store.State.Walk.{until_empty}
use etcd.Store.Create.{create_below, create_from, create_in}
use etcd.Store.Create.Dirs.{SameFiles, walk-Ends, Ends}
use etcd.Store.Create.Placed.{place_node_effect, create_in-free, create_in-taken}
use etcd.Store.Create.File.{no_file_free, value_at-file}

-- What holds where a new file has been made: nothing had its names, it has its value, and every
-- other file is as it was.
pub record Created (at : Names) (value : Text) (s s' : Store) (out : Outcome Event) : Type 0 where
  pub event : Event
  pub is_returned : out ≡ returned event
  pub index : s'.current_index ≡ s.current_index + 1
  pub free : value_at at s.root ≡ none
  pub files :
      (q : Names) → value_at q s'.root ≡ (if same_names at q then some value else value_at q s.root)

-- What holds where an error is returned: directories may have been made, but all files and the
-- index are as they were.
pub record NotCreated (s s' : Store) (out : Outcome Event) : Type 0 where
  pub error : Error
  pub is_failed : out ≡ failed error
  pub index : s'.current_index ≡ s.current_index
  pub files : (q : Names) → value_at q s'.root ≡ value_at q s.root

-- The walk to the folder of a path: the names of its segments but the last.
until_empty_folder : (ds : Names) → all_normal ds ≡ true → until_empty (ds ++ [] ∷ []) ≡ ds
until_empty_folder [] h = refl
until_empty_folder ([] ∷ ds) h = cc
until_empty_folder ((c ∷ d) ∷ ds) h = ground (arith, h, until_empty_folder ds)

folder_walk :
    (ds : Names) (s : Store) (f : Fields) (entries : Children)
    → all_normal ds ≡ true
    → s.root ≡ dir f entries
    → Ends s (walk check_dir (path_text (ds ++ [] ∷ [])) s s.root) ds
unfolding walk
folder_walk ds s f entries normal root =
    let cs = ds ++ [] ∷ [] in
    let from_root : Ends s (walk_loop check_dir cs s (record { at = []; node = dir f entries }))
        (until_empty cs) =
      walk-Ends cs s [] f entries (unfold node_at in ap some root) in
    let named =
      subst (Ends s (walk_loop check_dir cs s (record { at = []; node = dir f entries })))
        (until_empty_folder ds normal) from_root in
    let rooted : Ends s (walk_loop check_dir cs s (record { at = []; node = s.root })) ds =
      subst (λ n. Ends s (walk_loop check_dir cs s (record { at = []; node = n })) ds) (sym root)
        named in
    subst (λ m. Ends s (walk_loop check_dir m s (record { at = []; node = s.root })) ds)
      (sym (ap (drop 1) (split-folder ds normal))) rooted

pub not_created :
    (s u s' : Store) (err : Error) (out : Outcome Event)
    → u.current_index ≡ s.current_index
    → ((q : Names) → value_at q u.root ≡ value_at q s.root)
    → ◌≡◌ {A = Result (Store × Outcome Event)} (ok (u, failed err)) (ok (s', out))
    → NotCreated s s' out
not_created s u s' err out index files e =
    let (store, outcome) = ok-pair e in
    record {
      error = err;
      is_failed = sym outcome;
      index = sym (ap (λ m. m.current_index) store) ∙ index;
      files = λ q. ap (λ m. value_at q m.root) (sym store) ∙ files q;
    }

same_index : (s u : Store) → SameFiles s u → u.current_index ≡ s.current_index
same_index s u same = ap (λ m. m.current_index) same.others

module _ (now t : ℕ) (value : Text) (s s' : Store) (out : Outcome Event) (f : Fields)
    (entries : Children) (root : s.root ≡ dir f entries) where
  placed_in :
      (ds : Names) (c path : Text) (u : Store) (g : Fields) (below : Children)
      → SameFiles s u
      → node_at ds u.root ≡ some (dir g below)
      → (split_path path).1 ≡ c
      → create_in now
          (record { at = ds; node = dir g below })
          c
          path
          false
          value
          false
          t
          create_action
          u
        ≡ ok (s', out)
      → Created (ds ++ c ∷ []) value s s' out ⊎ NotCreated s s' out
  placed_in ds c path u g below same found named e = elim (Option-cases (child_at c below)) [
    | inl free ↦
        let p =
          place_node_effect now t path value ds c g below u s' out found free named _
            (sym (create_in-free now t path value ds c g below create_action u free) ∙ e) in
        inl (record {
          event = p.event;
          is_returned = p.is_returned;
          index = p.index ∙ ap (λ m. m.current_index + 1) same.others;
          free = sym (same.files (ds ++ c ∷ [])) ∙ no_file_free ds c g below u.root found free;
          files = λ q.
              ap (value_at q) p.tree
              ∙ value_at-file ds q c g p.file below u.root found free
              ∙ rw (p.value_is, same.files q) refl;
        })
    | inr (n, there) ↦ inr (
        not_created s u s' _ out (same_index s u same) same.files
          (sym (create_in-taken now t path value ds c g below create_action u n there) ∙ e))
  ]

  create_below_effect :
      (ds : Names) (c path : Text)
      → all_normal ds ≡ true
      → split_path path ≡ (path_text (ds ++ [] ∷ []), c)
      → create_below now path false value false t create_action s ≡ ok (s', out)
      → Created (ds ++ c ∷ []) value s s' out ⊎ NotCreated s s' out
  unfolding Ends
  create_below_effect ds c path normal parts e =
      let (u, same, ends) = folder_walk ds s f entries normal root in
      let split_step : create_below now path false value false t create_action s
          ≡ create_from now (path_text (ds ++ [] ∷ [])) c path false value false t create_action s =
        unfold create_below in
        ap (λ m. create_from now m.0 m.1 path false value false t create_action s) parts in
      elim ends [
        | inl (g, below, walked, found) ↦
            let step : create_below now path false value false t create_action s
                ≡ create_in now (record { at = ds; node = dir g below }) c path false value false t
                    create_action u =
              split_step ∙ unfold create_from in rw walked refl in
            placed_in ds c path u g below same found (ap (λ m. m.1) parts) (sym step ∙ e)
        | inr (err, walked) ↦
            let step : create_below now path false value false t create_action s
                ≡ ok (count set_fail u, failed (record err { index = s.current_index })) =
              split_step ∙ unfold create_from in rw walked refl in
            inr (
              not_created s (count set_fail u) s' (record err { index = s.current_index }) out
                (unfold count in same_index s u same) (unfold count in same.files) (sym step ∙ e))
      ]

  -- The file has the segments of its path as names.
  pub below_effect :
      (given : Text)
      → same_text (full_path given) (b'/' ∷ []) ≡ false
      → create_below now (full_path given) false value false t create_action s ≡ ok (s', out)
      → Created (segments given) value s s' out ⊎ NotCreated s s' out
  below_effect given other e = parts_of (segments given) refl
    where
      parts_of :
          (ss : List Text)
          → segments given ≡ ss
          → Created (segments given) value s s' out ⊎ NotCreated s s' out
      parts_of [] is = absurd (
          cc (
            sym other
            ∙ ap (λ m. same_text m (b'/' ∷ [])) (full_path-segments given ∙ ap rooted_text is)))
      parts_of (x ∷ ss) is =
          let (ds, c, last) = last_segment x ss in
          let names = is ∙ last in
          let (normal, plain) =
            all_normal-init ds c (ap all_normal (sym names) ∙ segments_normal given) in
          let path : full_path given ≡ path_text (ds ++ c ∷ []) =
            full_path-segments given ∙ ap rooted_text is ∙ ap path_text last in
          let parts = ap split_path path ∙ split_path-path_text ds c plain in
          subst (λ m. Created m value s s' out ⊎ NotCreated s s' out) (sym names)
            (create_below_effect ds c (full_path given) normal parts e)
