-- ===== src/Operator/End/Senders.antt =====
-- The groups that `setup_senders` makes: each sender is in one of them, once.
use mathlib.Core.List.{flatten, Perm}
use mathlib.Core.List.Perm
use mathlib.Core.HLevel.{×_prop}
use native.Mathlib.Bridge.{le_prop}
use renoir.Prelude.{
  ℕ, suc, ◌+◌, ◌≤◌, ◌<◌, ◌≡◌, refl, ◌∙◌, List, [], ◌∷◌, ◌++◌, length, arith, All, All-append, ◌==◌,
  if◌then◌else◌, Bool-cases, inl, inr,
}
use renoir.Prelude.Keys.{nat_key, same}
use renoir.Prelude.HashMap.{push, entry_total, total-push}
use renoir.Prelude.Sums.{total, total-append, total-perm, All-perm}
use renoir.Block.NextStrategy.{NextStrategy, only_one, random, all_replicas, group_by}
use renoir.Operator.End.{BlockId, group_from, singletons, into_values, grouped}
use renoir.Operator.End.Calls.{AreGroups}

abbrev pub hit : ℕ → ℕ → ℕ
hit j i = if i == j then 1 else 0

-- The indexes from `i` on hit `j` once, if it is among them.
abbrev pub hits : ℕ → ℕ → List BlockId → ℕ
hits j i [] = 0
hits j i (b ∷ bs) = hit j i + hits j (suc i) bs

hits-past : (j i : ℕ) (bs : List BlockId) → j < i → hits j i bs ≡ 0
hits-past j i [] h = refl
hits-past j i (b ∷ bs) h = ground (arith, hits-past j (suc i) bs (omega arith))

pub hits-once : (j i : ℕ) (bs : List BlockId) → i ≤ j → j < i + length bs → hits j i bs ≡ 1
hits-once j i [] h k = absurd (omega arith)
hits-once j i (b ∷ bs) h k = elim (Bool-cases (i == j)) [
  | inl e ↦ rw e (omega (arith, hits-past j (suc i) bs (ground arith)))
  | inr n ↦ rw n (omega (arith, hits-once j (suc i) bs (ground arith) (omega arith)))
]

-- The weights of the indexes from `i` on.
abbrev pub sums : (BlockId → ℕ → ℕ) → ℕ → List BlockId → ℕ
sums w i [] = 0
sums w i (b ∷ bs) = w b i + sums w (suc i) bs

sums-hit : (j i : ℕ) (bs : List BlockId) → sums (λ b. hit j) i bs ≡ hits j i bs
sums-hit j i [] = refl
sums-hit j i (b ∷ bs) = omega (arith, sums-hit j (suc i) bs)

pub total-group_from :
    (w : BlockId → ℕ → ℕ) (i : ℕ) (bs : List BlockId) (m : List (BlockId × List ℕ))
    → total (entry_total w) (group_from i bs m) ≡ total (entry_total w) m + sums w i bs
total-group_from w i [] m = omega arith
total-group_from w i (b ∷ bs) m =
    omega (arith, total-group_from w (suc i) bs (push b i m), total-push w b i m)

total-into_values :
    (j : ℕ) (m : List (BlockId × List ℕ))
    → total (hit j) (flatten (into_values m)) ≡ total (entry_total (λ b. hit j)) m
unfolding flatten
total-into_values j [] = refl
total-into_values j ((b, g) ∷ m) =
    omega (arith, total-append (hit j) g (flatten (into_values m)), total-into_values j m)

total-singletons :
    (j i : ℕ) (bs : List BlockId) → total (hit j) (flatten (singletons i bs)) ≡ hits j i bs
unfolding flatten
total-singletons j i [] = refl
total-singletons j i (b ∷ bs) = omega (arith, total-singletons j (suc i) bs)

snoc_nonempty : (g : List ℕ) (i : ℕ) → 0 < length (g ++ i ∷ [])
snoc_nonempty [] i = omega arith
snoc_nonempty (k ∷ g) i = omega arith

-- The groups are not empty and hold indexes of senders.
abbrev IsGroup : ℕ → List ℕ → Type 0
IsGroup n g = (0 < length g) × All (λ i. i < n) g

push-groups :
    (n b i : ℕ) (m : List (BlockId × List ℕ))
    → i < n
    → All (λ entry. IsGroup n entry.1) m
    → All (λ entry. IsGroup n entry.1) (push b i m)
push-groups n b i [] h a = ((omega arith, (h, tt)), tt)
push-groups n b i ((k, g) ∷ m) h a = elim (Bool-cases (same k b)) [
  | inl e ↦ rw e ((snoc_nonempty g i, All-append (λ z. z < n) g (i ∷ []) a.0.1 (h, tt)), a.1)
  | inr ne ↦ rw ne (a.0, push-groups n b i m h a.1)
]

group_from-groups :
    (n i : ℕ) (bs : List BlockId) (m : List (BlockId × List ℕ))
    → i + length bs ≤ n
    → All (λ entry. IsGroup n entry.1) m
    → All (λ entry. IsGroup n entry.1) (group_from i bs m)
group_from-groups n i [] m h a = a
group_from-groups n i (b ∷ bs) m h a =
    group_from-groups n (suc i) bs (push b i m) (omega arith) (push-groups n b i m (omega arith) a)

singletons-groups :
    (n i : ℕ) (bs : List BlockId) → i + length bs ≤ n → AreGroups n (singletons i bs)
singletons-groups n i [] h = tt
singletons-groups n i (b ∷ bs) h =
    ((omega arith, (omega arith, tt)), singletons-groups n (suc i) bs (omega arith))

into_values-groups :
    (n : ℕ) (m : List (BlockId × List ℕ))
    → All (λ entry. IsGroup n entry.1) m
    → AreGroups n (into_values m)
into_values-groups n [] a = tt
into_values-groups n (e ∷ m) a = (a.0, into_values-groups n m a.1)

below_prop : (n : ℕ) (g : List ℕ) → IsProp (All (λ i. i < n) g)
below_prop n [] = hlevel
below_prop n (i ∷ g) = ×_prop le_prop (below_prop n g)

module _ (order : List (BlockId × List ℕ) → List (BlockId × List ℕ))
    (order-perm : (m : List (BlockId × List ℕ)) → Perm (order m) m) where
  abbrev mapped : List BlockId → List (List ℕ)
  mapped bs = into_values (order (group_from 0 bs []))

  mapped-groups : (bs : List BlockId) → AreGroups (length bs) (mapped bs)
  mapped-groups bs = into_values-groups (length bs) (order (group_from 0 bs [])) (
      All-perm (λ entry. IsGroup (length bs) entry.1)
        (λ entry. ×_prop le_prop (below_prop (length bs) entry.1)) _ _
        (Perm.symm (order-perm (group_from 0 bs [])))
        (group_from-groups (length bs) 0 bs [] (omega arith) tt))

  mapped-once :
      (bs : List BlockId) (j : ℕ) → j < length bs → total (hit j) (flatten (mapped bs)) ≡ 1
  mapped-once bs j h = omega (
    arith,
    total-into_values j (order (group_from 0 bs [])),
    total-perm (entry_total (λ b. hit j)) (order (group_from 0 bs [])) (group_from 0 bs [])
        (order-perm (group_from 0 bs [])),
    total-group_from (λ b. hit j) 0 bs [],
    sums-hit j 0 bs,
    hits-once j 0 bs (omega arith) (omega arith),
  )

  singletons-once :
      (bs : List BlockId) (j : ℕ) → j < length bs → total (hit j) (flatten (singletons 0 bs)) ≡ 1
  singletons-once bs j h = total-singletons j 0 bs ∙ hits-once j 0 bs (omega arith) (omega arith)

  module _ {ℓ} {Out : Type ℓ} where
    pub grouped-groups :
        (strategy : NextStrategy Out) (bs : List BlockId)
        → AreGroups (length bs) (grouped strategy order bs)
    grouped-groups only_one bs = mapped-groups bs
    grouped-groups random bs = mapped-groups bs
    grouped-groups all_replicas bs = singletons-groups (length bs) 0 bs (omega arith)
    grouped-groups (group_by keyer) bs = mapped-groups bs

    pub grouped-once :
        (strategy : NextStrategy Out) (bs : List BlockId) (j : ℕ)
        → j < length bs
        → total (hit j) (flatten (grouped strategy order bs)) ≡ 1
    grouped-once only_one bs j h = mapped-once bs j h
    grouped-once random bs j h = mapped-once bs j h
    grouped-once all_replicas bs j h = singletons-once bs j h
    grouped-once (group_by keyer) bs j h = mapped-once bs j h
