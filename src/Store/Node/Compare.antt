-- ===== src/Store/Node/Compare.antt =====
-- store/node.go: what the tests of `Compare` ask of a node.
use etcd.Prelude.{
  subst, ◌≡◌, refl, inl, inr, ◌⊎◌, true, [], arith, ◌||◌, ◌==◌, ℕ, Bool-cases, subst,
}
use etcd.Prelude.Paths.{Text, same_text}
use etcd.Store.Node.{kv, Fields, compare}
use etcd.Store.State.Places.{same_text_refl, same_text→≡}

-- The value and the index that are given, where one is, are those of the file.
pub record Matches (prev_value : Text) (prev_index : ℕ) (f : Fields) : Type 0 where
  pub value : (prev_value ≡ []) ⊎ (f.value ≡ prev_value)
  pub index : (prev_index ≡ 0) ⊎ (f.modified_index ≡ prev_index)

same_text_complete : (s t : Text) → s ≡ t → same_text s t ≡ true
same_text_complete s t e = subst (λ u. same_text s u ≡ true) e (same_text_refl s)

given_text : (s t : Text) → (same_text s [] || same_text t s) ≡ true → (s ≡ []) ⊎ (t ≡ s)
given_text s t h = elim (Bool-cases (same_text s [])) [
  | inl empty ↦ inl (same_text→≡ s [] empty)
  | inr other ↦ inr (same_text→≡ t s (ground (arith, h, other)))
]

text_given : (s t : Text) → (s ≡ []) ⊎ (t ≡ s) → (same_text s [] || same_text t s) ≡ true
text_given s t (inl e) = rw (same_text_complete s [] e) refl
text_given s t (inr e) = ground (arith, same_text_complete t s e)

pub compare-Matches :
    (prev_value : Text) (prev_index : ℕ) (f : Fields)
    → (compare prev_value prev_index (kv f)).0 ≡ true
    → Matches prev_value prev_index f
unfolding compare
compare-Matches prev_value prev_index f h = record {
  value = given_text prev_value f.value (ground (arith, h));
  index = elim (Bool-cases (prev_index == 0)) [
    | inl zero ↦ inl (ground (arith, zero))
    | inr given ↦ inr (ground (arith, h, given))
  ];
}

pub Matches-compare :
    (prev_value : Text) (prev_index : ℕ) (f : Fields)
    → Matches prev_value prev_index f
    → (compare prev_value prev_index (kv f)).0 ≡ true
unfolding compare
Matches-compare prev_value prev_index f m =
    let text = text_given prev_value f.value m.value in
    let number : (prev_index == 0 || f.modified_index == prev_index) ≡ true =
      ground (arith, m.index) in
    rw (text, number) refl
