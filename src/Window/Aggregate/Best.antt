-- ===== src/Window/Aggregate/Best.antt =====
-- `max`, `min` and their kin find a best element.
use renoir.Prelude.{
  ◌≡◌, refl, ◌∙◌, Bool, true, false, Option, none, some, List, [], ◌∷◌, foldl, All, Any, Bool-cases,
  inl, inr,
}
use renoir.Window.Aggregate.{aggregate, keep_better, process_first, fold_first, max, min}

module _ {A : Type 0} where
  -- `FoldFirst` folds from the first element, and panics without one.
  abbrev pub folded : (A → A → A) → List A → Option A
  folded f [] = none
  folded f (x ∷ xs) = some (foldl f x xs)

  process-foldl :
      (f : A → A → A) (a : A) (xs : List A)
      → foldl (process_first f) (some a) xs ≡ some (foldl f a xs)
  process-foldl f a [] = refl
  process-foldl f a (x ∷ xs) = process-foldl f (f a x) xs

  fold_first-folded : (f : A → A → A) (xs : List A) → aggregate (fold_first f) xs ≡ folded f xs
  fold_first-folded f [] = refl
  fold_first-folded f (x ∷ xs) = process-foldl f x xs

  module _ (better : A → A → Bool) (irreflexive : (a : A) → better a a ≡ false)
      (asymmetric : (a b : A) → better a b ≡ true → better b a ≡ false)
      (transitive : (a b c : A)
        → better a b ≡ false
        → better b c ≡ false
        → better a c ≡ false) where
    abbrev choose : A → A → A
    choose = keep_better better

    choose-better : (m x y : A) → better y m ≡ false → better y (choose m x) ≡ false
    choose-better m x y h = elim (Bool-cases (better x m)) [
      | inl wins ↦ rw wins (transitive y m x h (asymmetric x m wins))
      | inr loses ↦ rw loses h
    ]

    choose-new : (m x : A) → better x (choose m x) ≡ false
    choose-new m x = elim (Bool-cases (better x m)) [
      | inl wins ↦ rw wins (irreflexive x)
      | inr loses ↦ rw (loses, loses)
    ]

    Any-choose :
        (z m x : A) (xs : List A)
        → Any (λ y. z ≡ y) (choose m x ∷ xs)
        → Any (λ y. z ≡ y) (m ∷ x ∷ xs)
    Any-choose z m x xs (inr a) = inr (inr a)
    Any-choose z m x xs (inl e) = elim (Bool-cases (better x m)) [
      | inl wins ↦ inr (inl (e ∙ rw wins))
      | inr loses ↦ inl (e ∙ rw loses)
    ]

    fold-Any : (m : A) (xs : List A) → Any (λ y. foldl choose m xs ≡ y) (m ∷ xs)
    fold-Any m [] = inl refl
    fold-Any m (x ∷ xs) =
        Any-choose (foldl choose (choose m x) xs) m x xs (fold-Any (choose m x) xs)

    fold-better :
        (m : A) (xs : List A) (y : A) → better y m ≡ false → better y (foldl choose m xs) ≡ false
    fold-better m [] y h = h
    fold-better m (x ∷ xs) y h = fold-better (choose m x) xs y (choose-better m x y h)

    fold-All : (m : A) (xs : List A) → All (λ y. better y (foldl choose m xs) ≡ false) xs
    fold-All m [] = tt
    fold-All m (x ∷ xs) = (fold-better (choose m x) xs x (choose-new m x), fold-All (choose m x) xs)

    fold_best :
        (x : A) (xs : List A)
        → (aggregate (fold_first choose) (x ∷ xs) ≡ some (foldl choose x xs))
          × Any (λ y. foldl choose x xs ≡ y) (x ∷ xs)
          × All (λ y. better y (foldl choose x xs) ≡ false) (x ∷ xs)
    fold_best x xs = (
      fold_first-folded choose (x ∷ xs),
      fold-Any x xs,
      (fold-better x xs x (irreflexive x), fold-All x xs),
    )

-- For a strict order by which elements are greater, given by its Boolean test and its laws, and at
-- least one element, `max` and `min` do not panic: each returns one of the elements, and no element
-- is greater, or smaller, than it.
pub max-min-Best :
    {A : Type 0} (gt : A → A → Bool) (x : A) (xs : List A)
    → ((a : A) → gt a a ≡ false)
    → ((a b : A) → gt a b ≡ true → gt b a ≡ false)
    → ((a b c : A) → gt a b ≡ false → gt b c ≡ false → gt a c ≡ false)
    → let high = foldl (keep_better gt) x xs in
      let low = foldl (keep_better (λ a b. gt b a)) x xs in
      ((aggregate (max gt) (x ∷ xs) ≡ some high)
        × Any (λ y. high ≡ y) (x ∷ xs)
        × All (λ y. gt y high ≡ false) (x ∷ xs))
      × ((aggregate (min (λ a b. gt b a)) (x ∷ xs) ≡ some low)
          × Any (λ y. low ≡ y) (x ∷ xs)
          × All (λ y. gt low y ≡ false) (x ∷ xs))
max-min-Best gt x xs irr asym trans = (
  fold_best gt irr asym trans x xs,
  fold_best (λ a b. gt b a) irr (λ a b. asym b a) (λ a b c p q. trans c b a q p) x xs,
)
