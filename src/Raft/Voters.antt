-- ===== src/Raft/Voters.antt =====
-- raft/raft.go: the members whose votes `poll` counts.
use etcd.Prelude.{
  ℕ, zero, suc, ◌≡◌, refl, ap, ◌∙◌, sym, inl, inr, ◌⊎◌, Bool, true, false, not, none, some, List,
  [], ◌∷◌, arith, length, get_elem?, Bool-cases, Option-cases, ◌==◌, if◌then◌else◌,
}
use etcd.Prelude.Map.{lookup, insert, lookup-insert}
use etcd.Raft.Pb.{Message}
use etcd.Raft.Machine.{Raft, poll, quorum, count_granted}

-- A list that stands for a map has each key once.
unfoldable pub keys_differ : List (ℕ × Bool) → Bool
unfolding lookup
keys_differ [] = true
keys_differ ((i, v) ∷ rest) =
    let others = keys_differ rest in elim (lookup i rest) [ none ↦ others | some w ↦ false ]

-- As many different members as a majority has, each with a vote granted that was recorded before, or
-- that the message grants and is its first answer.
pub record IsWon (r : Raft) (m : Message) : Type 0 where
  pub voters : List ℕ
  pub many : length voters ≡ quorum r
  pub differ : (i j v : ℕ) → get_elem? voters i ≡ some v → get_elem? voters j ≡ some v → i ≡ j
  pub granted :
      (i v : ℕ)
      → get_elem? voters i ≡ some v
      → (lookup v r.votes ≡ some true)
        ⊎ (v ≡ m.from) × (m.denied ≡ false) × (lookup v r.votes ≡ none)

abbrev granters : List (ℕ × Bool) → List ℕ
granters [] = []
granters ((i, v) ∷ rest) = let others = granters rest in if v then i ∷ others else others

length-granters : (votes : List (ℕ × Bool)) → length (granters votes) ≡ count_granted votes
length-granters [] = refl
length-granters ((i, true) ∷ rest) = ap suc (length-granters rest)
length-granters ((i, false) ∷ rest) = length-granters rest

keys_differ_step :
    (i : ℕ) (v : Bool) (rest : List (ℕ × Bool))
    → keys_differ ((i, v) ∷ rest) ≡ true
    → (lookup i rest ≡ none) × (keys_differ rest ≡ true)
keys_differ_step i v rest h = elim (Option-cases (lookup i rest)) [
  | inl free ↦ (free, unfold keys_differ in ground (arith, h, free))
  | inr (w, there) ↦ absurd (unfold keys_differ in ground (arith, h, there))
]

-- Another key is still found behind an entry.
lookup_behind :
    (i k : ℕ) (v w : Bool) (rest : List (ℕ × Bool))
    → lookup i rest ≡ none
    → lookup k rest ≡ some w
    → lookup k ((i, v) ∷ rest) ≡ some w
unfolding lookup
lookup_behind i k v w rest free there = elim (Bool-cases (i == k)) [
  | inl same ↦
      let e : i ≡ k = ground (arith, same) in
      absurd (cc (sym free ∙ ap (λ t. lookup t rest) e ∙ there))
  | inr other ↦ rw other there
]

granter_at :
    (votes : List (ℕ × Bool)) (i v : ℕ)
    → keys_differ votes ≡ true
    → get_elem? (granters votes) i ≡ some v
    → lookup v votes ≡ some true
granter_at [] i v h e = cc
granter_at ((k, true) ∷ rest) zero v h e = unfold lookup in ground (arith, e)
granter_at ((k, true) ∷ rest) (suc i) v h e =
    let (free, others) = keys_differ_step k true rest h in
    lookup_behind k v true true rest free (granter_at rest i v others e)
granter_at ((k, false) ∷ rest) i v h e =
    let (free, others) = keys_differ_step k false rest h in
    lookup_behind k v false true rest free (granter_at rest i v others e)

granters_differ :
    (votes : List (ℕ × Bool)) (i j v : ℕ)
    → keys_differ votes ≡ true
    → get_elem? (granters votes) i ≡ some v
    → get_elem? (granters votes) j ≡ some v
    → i ≡ j
granters_differ [] i j v h e g = cc
granters_differ ((k, false) ∷ rest) i j v h e g =
    granters_differ rest i j v (keys_differ_step k false rest h).1 e g
granters_differ ((k, true) ∷ rest) zero zero v h e g = refl
granters_differ ((k, true) ∷ rest) zero (suc j) v h e g =
    let (free, others) = keys_differ_step k true rest h in
    let k_is : k ≡ v = ground (arith, e) in
    absurd (cc (sym free ∙ ap (λ t. lookup t rest) k_is ∙ granter_at rest j v others g))
granters_differ ((k, true) ∷ rest) (suc i) zero v h e g =
    let (free, others) = keys_differ_step k true rest h in
    let k_is : k ≡ v = ground (arith, g) in
    absurd (cc (sym free ∙ ap (λ t. lookup t rest) k_is ∙ granter_at rest i v others e))
granters_differ ((k, true) ∷ rest) (suc i) (suc j) v h e g =
    ap suc (granters_differ rest i j v (keys_differ_step k true rest h).1 e g)

keys_differ_cons :
    (i : ℕ) (v : Bool) (rest : List (ℕ × Bool))
    → lookup i rest ≡ none
    → keys_differ rest ≡ true
    → keys_differ ((i, v) ∷ rest) ≡ true
unfolding keys_differ
keys_differ_cons i v rest free h = rw (keys_differ, free) h

keys_differ-insert :
    (id : ℕ) (new : Bool) (votes : List (ℕ × Bool))
    → keys_differ votes ≡ true
    → lookup id votes ≡ none
    → keys_differ (insert id new votes) ≡ true
keys_differ-insert id new [] h free = unfold keys_differ insert lookup in refl
keys_differ-insert id new ((k, v) ∷ rest) h free =
    let (behind, others) = keys_differ_step k v rest h in
    elim (Bool-cases (k == id)) [
      | inl same ↦ absurd (unfold lookup in ground (arith, free, same))
      | inr other ↦
          let free' : lookup id rest ≡ none = unfold lookup in ground (arith, free, other) in
          let still : lookup k (insert id new rest) ≡ none =
            lookup-insert id k new rest ∙ ground (arith, other, behind) in
          let step : insert id new ((k, v) ∷ rest) ≡ (k, v) ∷ insert id new rest =
            unfold insert in rw other refl in
          ap keys_differ step
          ∙ keys_differ_cons k v (insert id new rest) still
              (keys_differ-insert id new rest others free')
    ]

-- A vote that is granted once an answer is recorded was granted before, or is this answer.
from_before :
    (from v : ℕ) (denied : Bool) (votes : List (ℕ × Bool))
    → lookup from votes ≡ none
    → (if from == v then some (not denied) else lookup v votes) ≡ some true
    → (lookup v votes ≡ some true) ⊎ (v ≡ from) × (denied ≡ false) × (lookup v votes ≡ none)
from_before from v denied votes free e = elim (Bool-cases (from == v)) [
  | inl same ↦
      let at : v ≡ from = ground (arith, same) in
      inr (at, ground (arith, e, same), ap (λ t. lookup t votes) at ∙ free)
  | inr other ↦ inl (ground (arith, e, other))
]

-- Where the votes granted with an answer are as many as a majority has, a majority has granted them.
pub poll-IsWon :
    (r : Raft) (m : Message)
    → keys_differ r.votes ≡ true
    → (poll r m.from (not m.denied)).1 ≡ quorum r
    → IsWon r m
unfolding poll
poll-IsWon r m h e = elim (Option-cases (lookup m.from r.votes)) [
  | inr (w, there) ↦
      let count : count_granted r.votes ≡ quorum r = rw (sym e, there) refl in
      record {
        voters = granters r.votes;
        many = length-granters r.votes ∙ count;
        differ = λ i j v. granters_differ r.votes i j v h;
        granted = λ i v g. inl (granter_at r.votes i v h g);
      }
  | inl free ↦
      let new = not m.denied in
      let votes = insert m.from new r.votes in
      let h' = keys_differ-insert m.from new r.votes h free in
      let count : count_granted votes ≡ quorum r = rw (sym e, free) refl in
      record {
        voters = granters votes;
        many = length-granters votes ∙ count;
        differ = λ i j v. granters_differ votes i j v h';
        granted = λ i v g.
            from_before m.from v m.denied r.votes free
              (sym (lookup-insert m.from v new r.votes) ∙ granter_at votes i v h' g);
      }
]
