-- ===== src/Prelude/HashMap.antt =====
-- The `HashMap` from keys to vectors and the `HashSet` of std, as lists.
use Prim.Native.Nat.{ℕ, ◌+◌}
use mathlib.Core.Path.{◌≡◌, refl, sym, ap, ◌∙◌}
use mathlib.Core.Logic.{inl, inr}
use mathlib.Core.Bool.{Bool, true, false, ◌||◌}
use mathlib.Core.Option.{Option, none, some}
use mathlib.Core.List.{List, [], ◌∷◌, ◌++◌}
use native.Mathlib.Omega.{arith}
use renoir.Prelude.Tests.{if◌then◌else◌, Bool-cases}
use renoir.Prelude.Keys.{KeyEq, same, same_left, same_right}
use renoir.Prelude.Sums.{total, total-append}

abbrev pub appended {ℓ} : {A : Type ℓ} → A → Option (List A) → List A
appended x none = x ∷ []
appended x (some xs) = xs ++ x ∷ []

module _ {ℓ} {K A : Type ℓ} ⦃key : KeyEq K⦄ where
  -- `HashMap::get`
  abbrev pub get : K → List (K × List A) → Option (List A)
  get k [] = none
  get k ((j, xs) ∷ m) = if same j k then some xs else get k m

  -- `entry(k).or_default().push(x)`
  abbrev pub push : K → A → List (K × List A) → List (K × List A)
  push k x [] = (k, x ∷ []) ∷ []
  push k x ((j, xs) ∷ m) = if same j k then (j, xs ++ x ∷ []) ∷ m else (j, xs) ∷ push k x m

  pub get-push_same :
      (j k : K) (x : A) (m : List (K × List A))
      → same j k ≡ true
      → get k (push j x m) ≡ some (appended x (get k m))
  get-push_same j k x [] e = rw e refl
  get-push_same j k x ((i, xs) ∷ m) e = elim (Bool-cases (same i j)) [
    | inl e' ↦ rw (e', same_left i j k e', e) refl
    | inr n ↦ rw (n, sym (same_right j k i e) ∙ n) (get-push_same j k x m e)
  ]

  pub get-push_ne :
      (k j : K) (x : A) (m : List (K × List A)) → same k j ≡ false → get j (push k x m) ≡ get j m
  get-push_ne k j x [] ne = rw ne refl
  get-push_ne k j x ((i, xs) ∷ m) ne = elim (Bool-cases (same i k)) [
    | inl e ↦ rw (e, same_left i k j e, ne) refl
    | inr n ↦ rw (n, get-push_ne k j x m ne) refl
  ]

  -- The values in the map, each weighed with its key.
  abbrev pub entry_total : (K → A → ℕ) → K × List A → ℕ
  entry_total w (k, xs) = total (w k) xs

  pub total-push :
      (w : K → A → ℕ) (k : K) (x : A) (m : List (K × List A))
      → total (entry_total w) (push k x m) ≡ total (entry_total w) m + w k x
  total-push w k x [] = omega arith
  total-push w k x ((j, xs) ∷ m) = elim (Bool-cases (same j k)) [
    | inl e ↦
        rw e
          (omega (arith, total-append (w j) xs (x ∷ []), ap (λ z. w z x) ((key.same_iff j k).0 e)))
    | inr n ↦ rw n (omega (arith, total-push w k x m))
  ]

module _ {ℓ} {K : Type ℓ} ⦃key : KeyEq K⦄ where
  -- `HashSet::contains`
  abbrev pub contains : K → List K → Bool
  contains k [] = false
  contains k (j ∷ ks) = same j k || contains k ks

  -- `HashSet::insert`
  abbrev pub insert : K → List K → List K
  insert k ks = if contains k ks then ks else k ∷ ks

  contains-same :
      (k j : K) (ks : List K) → same k j ≡ true → contains k ks ≡ true → contains j ks ≡ true
  contains-same k j [] e c = absurd (ground arith)
  contains-same k j (i ∷ ks) e c = ground (arith, same_right k j i e, contains-same k j ks e)

  pub contains-insert :
      (k j : K) (ks : List K) → contains j (insert k ks) ≡ (same k j || contains j ks)
  contains-insert k j ks = elim (Bool-cases (contains k ks)) [
    | inr n ↦ rw n refl
    | inl c ↦ rw c (elim (Bool-cases (same k j)) [
      | inl e ↦ rw e (contains-same k j ks e c)
      | inr n ↦ rw n refl
    ])
  ]
