-- ===== src/Window/Aggregate.antt =====
-- src/operator/window/aggr: the accumulators that a window can have, and the functions that build
-- them. The functions of `Ord` are parameters.
pub mod Best
use Prim.Native.Nat.{Ordering}
use renoir.Prelude.{
  ℕ, ◌+◌, Bool, true, false, Option, none, some, List, [], ◌∷◌, ◌++◌, foldl, if◌then◌else◌,
}

-- `WindowAccumulator`: `none` is an `output` that panics.
pub record WindowAccumulator {ℓ} (In Out : Type ℓ) : Type (ℓ + 1) where
  pub State : Type ℓ
  pub init : State
  pub process : State → In → State
  pub output : State → Option Out

-- A window that has been given the elements in turn.
abbrev pub aggregate {ℓ} : {In Out : Type ℓ} → WindowAccumulator In Out → List In → Option Out
aggregate acc xs = acc.output (foldl acc.process acc.init xs)

abbrev pub is_gt : Ordering → Bool
is_gt Ordering.gt = true
is_gt _ = false

abbrev pub is_lt : Ordering → Bool
is_lt Ordering.lt = true
is_lt _ = false

-- `Count`
abbrev pub count : {A : Type 0} → WindowAccumulator A ℕ
count {A} = record { State = ℕ; init = 0; process = λ n x. n + 1; output = λ n. some n }

module _ {ℓ} {A : Type ℓ} where
  -- `Fold`
  abbrev pub fold : {S : Type ℓ} → S → (S → A → S) → WindowAccumulator A S
  fold {S} state f = record { State = S; init = state; process = f; output = λ s. some s }

  abbrev pub process_first : (A → A → A) → Option A → A → Option A
  process_first f none x = some x
  process_first f (some s) x = some (f s x)

  -- `FoldFirst`
  abbrev pub fold_first : (A → A → A) → WindowAccumulator A A
  fold_first f = record {
    State = Option A;
    init = none;
    process = process_first f;
    output = λ s. s;
  }

  abbrev pub keep_first : Option A → A → Option A
  keep_first none x = some x
  keep_first (some y) x = some y

  -- `First`
  abbrev pub first : WindowAccumulator A A
  first = record { State = Option A; init = none; process = keep_first; output = λ s. s }

  -- `Last`
  abbrev pub last : WindowAccumulator A A
  last = record { State = Option A; init = none; process = λ s x. some x; output = λ s. s }

  -- `CollectVec`
  abbrev pub collect_vec : {O : Type ℓ} → (List A → O) → WindowAccumulator A O
  collect_vec f = record {
    State = List A;
    init = [];
    process = λ xs x. xs ++ x ∷ [];
    output = λ xs. some (f xs);
  }

  abbrev pub to_vec : WindowAccumulator A (List A)
  to_vec = collect_vec (λ v. v)

  -- `sum`, with the default and `+=` of the result.
  abbrev pub sum : {S : Type ℓ} → S → (S → A → S) → WindowAccumulator A S
  sum default add_assign = fold default add_assign

  -- The function of `max` and `min`: the new element replaces the old one if it is better.
  abbrev pub keep_better : (A → A → Bool) → A → A → A
  keep_better better best x = if better x best then x else best

  abbrev pub max : (A → A → Bool) → WindowAccumulator A A
  max gt = fold_first (keep_better gt)

  abbrev pub max_by : (A → A → Ordering) → WindowAccumulator A A
  max_by compare = fold_first (keep_better (λ x best. is_gt (compare x best)))

  abbrev pub min : (A → A → Bool) → WindowAccumulator A A
  min lt = fold_first (keep_better lt)

  abbrev pub min_by : (A → A → Ordering) → WindowAccumulator A A
  min_by compare = fold_first (keep_better (λ x best. is_lt (compare x best)))

module _ {ℓ κ} {A : Type ℓ} {K : Type κ} (get_key : A → K) where
  abbrev pub max_by_key : (K → K → Bool) → WindowAccumulator A A
  max_by_key gt = fold_first (keep_better (λ x best. gt (get_key x) (get_key best)))

  abbrev pub min_by_key : (K → K → Bool) → WindowAccumulator A A
  min_by_key lt = fold_first (keep_better (λ x best. lt (get_key x) (get_key best)))
