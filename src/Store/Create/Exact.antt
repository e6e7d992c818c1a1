-- ===== src/Store/Create/Exact.antt =====
-- store/store.go: Create of a file, from the call to its answer.
use etcd.Prelude.{
  ℕ, ◌+◌, ◌≡◌, refl, ap, ◌∙◌, sym, inl, inr, ◌⊎◌, Bool, false, ok, >>=-eq-ok, if◌then◌else◌, ltb,
}
use etcd.Prelude.Paths.{Text}
use etcd.Prelude.Names.{Names}
use etcd.Prelude.Clean.{segments}
use etcd.EtcdError.{Outcome}
use etcd.Store.Event.{Event, create_action}
use etcd.Store.Node.{dir, Fields, Children, permanent}
use etcd.Store.Stats.{create_fail, create_success}
use etcd.Store.State.{Store, full_path, count}
use etcd.Store.State.Places.{value_at}
use etcd.Store.State.Found.{below_root_cases}
use etcd.Store.Swap.Laws.{announce_effect}
use etcd.Store.Create.{
  below_root, create, internal_create, create_below, answer_create, unique_path, min_expire_time,
}
use etcd.Store.Create.Laws.{Created, NotCreated, below_effect, not_created}

module _ (at : Names) (value : Text) (s u s' : Store) (o out : Outcome Event)
    (h : answer_create (u, o) ≡ ok (s', out)) where
  answer-Created : Created at value s u o → Created at value s s' out
  unfolding answer_create
  answer-Created c =
      let e = record c.event { etcd_index = u.current_index } in
      let (outcome, root, index) =
        announce_effect create_success e u s' out
          (ap (λ m. answer_create (u, m)) (sym c.is_returned) ∙ h) in
      record {
        event = e;
        is_returned = outcome;
        index = index ∙ c.index;
        free = c.free;
        files = λ q. ap (value_at q) root ∙ c.files q;
      }

  answer-NotCreated : NotCreated s u o → NotCreated s s' out
  unfolding answer_create count
  answer-NotCreated c =
      not_created s (count create_fail u) s' c.error out c.index c.files
        (ap (λ m. answer_create (u, m)) (sym c.is_failed) ∙ h)

module _ (now t : ℕ) (given value : Text) (unique : Bool) (s u : Store) (o : Outcome Event)
    (f : Fields) (entries : Children) (root : s.root ≡ dir f entries) where
  internal_create_effect :
      internal_create now given false value unique false t create_action s ≡ ok (u, o)
      → Created (segments (unique_path given unique (s.current_index + 1))) value s u o
        ⊎ NotCreated s u o
  internal_create_effect e =
      let path = unique_path given unique (s.current_index + 1) in
      let time = if ltb t min_expire_time then permanent else t in
      let made = create_below now (full_path path) false value false time create_action s in
      let step : internal_create now given false value unique false t create_action s
          ≡ below_root (full_path path) s made =
        unfold internal_create in refl in
      elim (below_root_cases s path made) [
        | inl (other, pass) ↦
            below_effect now time value s u o f entries root path other (sym pass ∙ sym step ∙ e)
        | inr (at_root, err, fail) ↦
            inr (not_created s s u err o refl (λ q. refl) (sym fail ∙ sym step ∙ e))
      ]

-- Create of a file in a tree whose root is a directory. It returns an event exactly when it has made
-- the file, under the segments of its path (the next index being the last one where the path is to
-- be unique), where no file had been; the index is one more and all other files are as they were.
-- When it returns an error, the index and all files are as they were.
pub create_exact :
    (now t : ℕ) (given value : Text) (unique : Bool) (s s' : Store) (out : Outcome Event)
    (f : Fields) (entries : Children)
    → s.root ≡ dir f entries
    → create now given false value unique t s ≡ ok (s', out)
    → Created (segments (unique_path given unique (s.current_index + 1))) value s s' out
      ⊎ NotCreated s s' out
unfolding create
create_exact now t given value unique s s' out f entries root e =
    let at = segments (unique_path given unique (s.current_index + 1)) in
    let ((u, o), made, rest) =
      >>=-eq-ok (internal_create now given false value unique false t create_action s) answer_create
        e in
    elim (internal_create_effect now t given value unique s u o f entries root made) [
      | inl c ↦ inl (answer-Created at value s u s' o out rest c)
      | inr c ↦ inr (answer-NotCreated at value s u s' o out rest c)
    ]
