-- ===== src/Operator/End/Rivals.antt =====
-- The receivers that compete for an item: the replicas of one block, unless all replicas get it.
use mathlib.Core.List.{Perm}
use renoir.Prelude.{
  ℕ, zero, suc, ◌+◌, ◌%◌, ◌≤◌, ◌<◌, ◌≡◌, refl, ap, ◌∙◌, Bool, true, false, not, Option, none, some,
  List, [], ◌∷◌, length, arith, max, ◌==◌, if◌then◌else◌, Bool-cases, inl, inr,
}
use renoir.Prelude.Keys.{nat_key, same, same_left}
use renoir.Prelude.HashMap.{push, entry_total}
use renoir.Prelude.Sums.{total, total-perm}
use renoir.Block.NextStrategy.{NextStrategy, only_one, random, all_replicas, group_by}
use renoir.Operator.End.{
  BlockId, group_from, singletons, into_values, get_elem?, pick, pick_each, grouped,
}
use renoir.Operator.End.Calls.{AreGroups, pick-some}
use renoir.Operator.End.Senders.{hit, hits, hits-once, sums, total-group_from, grouped-groups}

-- Whether the `i`th receiver belongs to the block.
abbrev is_of : BlockId → Option BlockId → Bool
is_of b none = false
is_of b (some c) = c == b

abbrev same_block : Option BlockId → Option BlockId → Bool
same_block none o = false
same_block (some b) o = is_of b o

-- Whether the `i`th receiver is among those, the `j`th with them, of which one gets an item.
abbrev competes {ℓ} : {Out : Type ℓ} → NextStrategy Out → List BlockId → ℕ → ℕ → Bool
competes all_replicas bs j i = i == j
competes _ bs j i = same_block (get_elem? bs j) (get_elem? bs i)

abbrev weight : (ℕ → Bool) → ℕ → ℕ
weight p i = if p i then 1 else 0

-- The receivers that are not of the block of their group.
abbrev strays : List BlockId → BlockId → ℕ → ℕ
strays bs b = weight (λ i. not (is_of b (get_elem? bs i)))

abbrev of_block : List BlockId → BlockId → ℕ → ℕ
of_block bs b = weight (λ i. is_of b (get_elem? bs i))

-- How many entries have the key `b`.
abbrev entries : BlockId → List (BlockId × List ℕ) → ℕ
entries b = total (λ entry. hit b entry.0)

entries-push :
    (b k i : ℕ) (m : List (BlockId × List ℕ))
    → entries b (push k i m) ≡ (if k == b then max 1 (entries b m) else entries b m)
entries-push b k i [] = ground arith
entries-push b k i ((c, g) ∷ m) = elim (Bool-cases (same c k)) [
  | inl e ↦ rw e (ground arith)
  | inr n ↦ rw n (ground (arith, entries-push b k i m))
]

-- Whether the key is there.
abbrev known : BlockId → List BlockId → ℕ
known b [] = 0
known b (c ∷ bs) = if c == b then 1 else known b bs

known_le : (b : BlockId) (bs : List BlockId) → known b bs ≤ 1
known_le b [] = omega arith
known_le b (c ∷ bs) = ground (arith, known_le b bs)

entries-group_from :
    (b i : ℕ) (bs : List BlockId) (m : List (BlockId × List ℕ))
    → entries b m ≤ 1
    → entries b (group_from i bs m) ≡ max (entries b m) (known b bs)
entries-group_from b i [] m h = omega arith
entries-group_from b i (c ∷ bs) m h =
    let p = entries-push b c i m in
    let r = entries-group_from b (suc i) bs (push c i m) in
    elim (Bool-cases (c == b)) [
      | inl e ↦
          let q : entries b (push c i m) ≡ max 1 (entries b m) = p ∙ rw e refl in
          rw e (omega (arith, q, r (omega (arith, q)), known_le b bs))
      | inr n ↦
          let q : entries b (push c i m) ≡ entries b m = p ∙ rw n refl in
          rw n (omega (arith, q, r (omega (arith, q))))
    ]

known-get_elem? : (b j : ℕ) (bs : List BlockId) → get_elem? bs j ≡ some b → known b bs ≡ 1
known-get_elem? b j [] h = absurd (ground arith)
known-get_elem? b zero (c ∷ bs) h = ground (arith, h)
known-get_elem? b (suc j) (c ∷ bs) h = ground (arith, known-get_elem? b j bs h)

is_of-same : (b : BlockId) → is_of b (some b) ≡ true
is_of-same b = (nat_key.same_iff b b).1 refl

strays-none :
    (all : List BlockId) (i : ℕ) (bs : List BlockId)
    → ((k : ℕ) → get_elem? all (i + k) ≡ get_elem? bs k)
    → sums (strays all) i bs ≡ 0
strays-none all i [] h = refl
strays-none all i (b ∷ bs) h =
    let first : get_elem? all i ≡ some b = ap (get_elem? all) (omega arith) ∙ h 0 in
    let rest = strays-none all (suc i) bs (λ k. ap (get_elem? all) (omega arith) ∙ h (suc k)) in
    rw (first, is_of-same b) (omega (arith, rest))

-- No more than the weight of the list.
get_elem?-total : (w : ℕ → ℕ) (g : List ℕ) (k i : ℕ) → get_elem? g k ≡ some i → w i ≤ total w g
get_elem?-total w [] k i p = absurd (ground arith)
get_elem?-total w (x ∷ g) zero i p = ground (arith, p)
get_elem?-total w (x ∷ g) (suc k) i p = omega (arith, get_elem?-total w g k i p)

pub pick-total : (w : ℕ → ℕ) (k i : ℕ) (g : List ℕ) → pick k g ≡ some i → w i ≤ total w g
pick-total w k i [] p = absurd (ground arith)
pick-total w k i (x ∷ g) p = get_elem?-total w (x ∷ g) (k % length (x ∷ g)) i p

-- A member of a group without strays is of the block exactly when the group is.
is_of-key :
    (b c : BlockId) (o : Option BlockId)
    → ◌≡◌ {A = ℕ} (if not (is_of c o) then 1 else 0) 0
    → ◌≡◌ {A = ℕ} (if is_of b o then 1 else 0) (hit b c)
is_of-key b c none h = absurd (omega arith)
is_of-key b c (some d) h = elim (Bool-cases (d == c)) [
  | inl e ↦ rw (same_left d c b e) refl
  | inr n ↦ absurd (ground (arith, n))
]

picked-total :
    (bs : List BlockId) (b n k : ℕ) (m : List (BlockId × List ℕ))
    → AreGroups n (into_values m)
    → total (entry_total (strays bs)) m ≡ 0
    → (is : List ℕ) × (pick_each k (into_values m) ≡ some is)
      × (total (of_block bs b) is ≡ entries b m)
picked-total bs b n k [] a h = ([], refl, refl)
picked-total bs b n k ((c, g) ∷ m) a h =
    let (i, p, l) = pick-some n k g a.0.0 a.0.1 in
    let (is, q, t) = picked-total bs b n k m a.1 (omega (arith, h)) in
    let here =
      is_of-key b c (get_elem? bs i) (omega (arith, h, pick-total (strays bs c) k i g p)) in
    (i ∷ is, rw (p, q) refl, omega (arith, here, t))

singletons-hits :
    (j k i : ℕ) (bs : List BlockId)
    → (is : List ℕ) × (pick_each k (singletons i bs) ≡ some is) × (total (hit j) is ≡ hits j i bs)
singletons-hits j k i [] = ([], refl, refl)
singletons-hits j k i (b ∷ bs) =
    let (is, q, t) = singletons-hits j k (suc i) bs in
    let one : k % 1 ≡ 0 = omega arith in (i ∷ is, rw (one, q) refl, omega (arith, t))

get_elem?-some :
    (bs : List BlockId) (j : ℕ) → j < length bs → (b : BlockId) × (get_elem? bs j ≡ some b)
get_elem?-some [] j h = absurd (omega arith)
get_elem?-some (b ∷ bs) zero h = (b, refl)
get_elem?-some (b ∷ bs) (suc j) h = get_elem?-some bs j (omega arith)

-- One target among the receivers that compete with the `j`th.
abbrev pub OneOf {ℓ} : {Out : Type ℓ} → NextStrategy Out → List BlockId → ℕ → List ℕ → Type 0
OneOf strategy bs j is = total (weight (competes strategy bs j)) is ≡ 1

module _ (order : List (BlockId × List ℕ) → List (BlockId × List ℕ))
    (order-perm : (m : List (BlockId × List ℕ)) → Perm (order m) m) where
  abbrev mapped : List BlockId → List (BlockId × List ℕ)
  mapped bs = order (group_from 0 bs [])

  mapped-strays : (bs : List BlockId) → total (entry_total (strays bs)) (mapped bs) ≡ 0
  mapped-strays bs = omega (
    arith,
    total-perm (entry_total (strays bs)) (mapped bs) (group_from 0 bs [])
        (order-perm (group_from 0 bs [])),
    total-group_from (strays bs) 0 bs [],
    strays-none bs 0 bs (λ k. ap (get_elem? bs) (omega arith)),
  )

  mapped-entries :
      (bs : List BlockId) (b j : ℕ) → get_elem? bs j ≡ some b → entries b (mapped bs) ≡ 1
  mapped-entries bs b j p = omega (
    arith,
    total-perm (λ entry. hit b entry.0) (mapped bs) (group_from 0 bs [])
        (order-perm (group_from 0 bs [])),
    entries-group_from b 0 bs [] (omega arith),
    known-get_elem? b j bs p,
  )

  -- The members of one block compete, and there is one group for each block.
  mapped-one :
      (bs : List BlockId) (j k : ℕ)
      → j < length bs
      → AreGroups (length bs) (into_values (mapped bs))
      → (is : List ℕ) × (pick_each k (into_values (mapped bs)) ≡ some is)
        × (total (λ i. weight (λ l. same_block (get_elem? bs j) (get_elem? bs l)) i) is ≡ 1)
  mapped-one bs j k h a =
      let (b, p) = get_elem?-some bs j h in
      let (is, q, t) = picked-total bs b (length bs) k (mapped bs) a (mapped-strays bs) in
      (is, q, rw p (t ∙ mapped-entries bs b j p))

  pub grouped-one {ℓ} :
      {Out : Type ℓ} (strategy : NextStrategy Out) (bs : List BlockId) (j k : ℕ)
      → j < length bs
      → (is : List ℕ) × (pick_each k (grouped strategy order bs) ≡ some is) × OneOf strategy bs j is
  grouped-one {Out = Out} only_one bs j k h =
      mapped-one bs j k h (grouped-groups order order-perm {Out = Out} only_one bs)
  grouped-one {Out = Out} random bs j k h =
      mapped-one bs j k h (grouped-groups order order-perm {Out = Out} random bs)
  grouped-one (group_by keyer) bs j k h =
      mapped-one bs j k h (grouped-groups order order-perm (group_by keyer) bs)
  grouped-one all_replicas bs j k h =
      let (is, q, t) = singletons-hits j k 0 bs in
      (is, q, t ∙ hits-once j 0 bs (omega arith) (omega arith))
