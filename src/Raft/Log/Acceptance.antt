-- ===== src/Raft/Log/Acceptance.antt =====
-- raft/log.go: `maybeAppend` when it accepts.
use etcd.Prelude.{
  inl, inr, Option-cases, ℕ, ◌+◌, ◌-◌, ◌≤◌, ◌<◌, ◌≡◌, refl, ◌∙◌, true, Option, some, List, arith,
  length, drop, get_elem?-drop, subst, Result-cases, ok, Bool-cases,
}
use etcd.Raft.Pb.{Entry}
use etcd.Raft.Log.{
  RaftLog, last_index, at, term, find_conflict, append, reconcile, advance_commit, maybe_append,
  match_term,
}
use etcd.Raft.Log.Bounds.{IsWf, at_cases, term-of-at, append-IsWf, advance_commit-IsWf}
use etcd.Raft.Log.Matching.{
  Agrees, at-append, find_conflict-none, find_conflict-range, find_conflict_within,
  find_conflict-some,
}

-- What one log has become after the entries of a leader were taken in.
pub record Extends (l l' : RaftLog) (from : ℕ) (es : List Entry) : Type 0 where
  pub agrees : Agrees l' from es
  pub kept : (i : ℕ) → i ≤ l.committed → at l' i ≡ at l i
  pub commit : l.committed ≤ l'.committed
  pub offset : l'.offset ≡ l.offset
  pub applied : l'.applied ≡ l.applied
  pub wf : IsWf l'

append-Agrees :
    (l : RaftLog) (from ci : ℕ) (es : List Entry)
    → IsWf l
    → from ≤ length l.ents + l.offset
    → find_conflict l from es ≡ some ci
    → l.committed < ci
    → Agrees (append l (ci - 1) (drop (ci - from) es)).0 from es
unfolding term
append-Agrees l from ci es v h c k j e g = ground (
  arith,
  at-append l (ci - 1) (from + j) (drop (ci - from) es),
  find_conflict-range l from ci es c,
  find_conflict_within l from ci es c h,
  find_conflict-some l from ci es c j e,
  get_elem?-drop (ci - from) es (from + j - (ci - 1 + 1)) j,
)

append-Extends :
    (l : RaftLog) (from ci : ℕ) (es : List Entry)
    → IsWf l
    → from ≤ length l.ents + l.offset
    → find_conflict l from es ≡ some ci
    → l.committed < ci
    → Extends l (append l (ci - 1) (drop (ci - from) es)).0 from es
append-Extends l from ci es v h c k = record {
  agrees = append-Agrees l from ci es v h c k;
  kept = λ i g.
      ground (
        arith,
        find_conflict_within l from ci es c h,
        at-append l (ci - 1) i (drop (ci - from) es),
      );
  commit = unfold append in omega arith;
  offset = unfold append in refl;
  applied = unfold append in refl;
  wf =
      append-IsWf l (ci - 1) (drop (ci - from) es) v (omega arith)
        (omega (arith, find_conflict_within l from ci es c h));
}

reconcile-Extends :
    (l m : RaftLog) (from : ℕ) (es : List Entry)
    → IsWf l
    → from ≤ length l.ents + l.offset
    → reconcile l from es (find_conflict l from es) ≡ ok m
    → Extends l m from es
reconcile-Extends l m from es v h e = elim (Option-cases (find_conflict l from es)) [
  | inl c ↦
      let same : l ≡ m = unfold reconcile in ground (arith, c) in
      subst (λ k. Extends l k from es) same
        (record {
          agrees = find_conflict-none l from es c;
          kept = λ i g. refl;
          commit = omega arith;
          offset = refl;
          applied = refl;
          wf = v;
        })
  | inr (ci, c) ↦
      let later : l.committed < ci = unfold reconcile in ground (arith, c) in
      let result : (append l (ci - 1) (drop (ci - from) es)).0 ≡ m =
        unfold reconcile in ground (arith, c) in
      subst (λ k. Extends l k from es) result (append-Extends l from ci es v h c later)
]

at-advance_commit : (l : RaftLog) (c i : ℕ) → at (advance_commit l c) i ≡ at l i
unfolding at advance_commit
at-advance_commit l c i = ground arith

commit-advance_commit :
    (l : RaftLog) (c : ℕ)
    → IsWf l
    → (l.committed ≤ (advance_commit l c).committed)
      × ((advance_commit l c).offset ≡ l.offset)
      × ((advance_commit l c).applied ≡ l.applied)
unfolding advance_commit last_index
commit-advance_commit l c v = ground arith

advance_commit-Extends :
    (l m : RaftLog) (from c : ℕ) (es : List Entry)
    → Extends l m from es
    → Extends l (advance_commit m c) from es
advance_commit-Extends l m from c es x = record {
  agrees = λ j e g.
      term-of-at (advance_commit m c) m (from + j) (from + j) (at-advance_commit m c (from + j))
      ∙ x.agrees j e g;
  kept = λ i g. at-advance_commit m c i ∙ x.kept i g;
  commit = omega (arith, commit-advance_commit m c x.wf);
  offset = omega (arith, commit-advance_commit m c x.wf);
  applied = omega (arith, commit-advance_commit m c x.wf);
  wf = advance_commit-IsWf m c x.wf;
}

match_term-within :
    (l : RaftLog) (i : ℕ) (t : Option ℕ)
    → match_term l i t ≡ true
    → i + 1 ≤ length l.ents + l.offset
unfolding match_term
match_term-within l i t h = ground (arith, at_cases l i)

-- Log matching: when a well-formed log accepts a leader's entries, then from `index + 1` on its
-- terms are the terms of those entries; every entry up to the old commit index stays as it was;
-- the commit index does not fall; offset and applied stay; and the log is well formed.
pub maybe_append-Extends :
    (l l' : RaftLog) (index committed : ℕ) (log_term : Option ℕ) (es : List Entry)
    → IsWf l
    → maybe_append l index log_term committed es ≡ ok (l', true)
    → Extends l l' (index + 1) es
maybe_append-Extends l l' index committed log_term es v h =
    elim (Bool-cases (match_term l index log_term)) [
      | inl t ↦ elim (Result-cases (reconcile l (index + 1) es (find_conflict l (index + 1) es))) [
        | inl (m, r) ↦
            let e : advance_commit m committed ≡ l' = unfold maybe_append in ground (arith, t, r) in
            subst (λ k. Extends l k (index + 1) es) e
              (advance_commit-Extends l m (index + 1) committed es
                (reconcile-Extends l m (index + 1) es v (match_term-within l index log_term t) r))
        | inr (p, r) ↦ absurd (unfold maybe_append in ground (arith, t, r, h))
      ]
      | inr t ↦ absurd (unfold maybe_append in ground (arith, t, h))
    ]
