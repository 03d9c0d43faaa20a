-- ===== src/Operator/Filter.antt =====
-- src/operator/filter.rs, map.rs, key_by.rs: operators with no state of their own.
use renoir.Prelude.{
  ℕ, ◌<◌, length, some, ◌≡◌, refl, Bool, true, false, not, List, [], ◌∷◌, ◌++◌, map, All,
  Bool-cases, inl, inr, if◌then◌else◌,
}
use renoir.Stream.{
  StreamElement, item, timestamped, watermark, flush_batch, terminate, flush_and_restart,
}
use renoir.Stream.Run.{
  Upstream, IsData, IsGoing, Emits, Emits-absorb, Emits-emit, IsData-IsGoing, Transforms, do_work,
  do_work-Transforms, stream,
}

module _ {ℓ} {A : Type ℓ} (predicate : A → Bool) where
  -- The elements that the guard of the first arm skips.
  abbrev pub skipped : StreamElement A → Bool
  skipped (item x) = not (predicate x)
  skipped (timestamped x ts) = not (predicate x)
  skipped _ = false

  unfoldable pub filter_next : Unit {ℓ} × Upstream A → StreamElement A × (Unit {ℓ} × Upstream A)
  filter_next (u, []) = (terminate, (u, []))
  filter_next (u, e ∷ prev) =
      let rest = filter_next (u, prev) in if skipped e then rest else (e, (u, prev))

  -- The items that pass the predicate and all other elements, in order.
  abbrev pub kept : List (StreamElement A) → List (StreamElement A)
  kept [] = []
  kept (item x ∷ xs) = if predicate x then item x ∷ kept xs else kept xs
  kept (timestamped x ts ∷ xs) = if predicate x then timestamped x ts ∷ kept xs else kept xs
  kept (e ∷ xs) = e ∷ kept xs

  if_not :
      (b : Bool) (xs ys : List (StreamElement A))
      → (if b then xs else ys) ≡ (if not b then ys else xs)
  if_not true xs ys = refl
  if_not false xs ys = refl

  kept-skipped :
      (e : StreamElement A) (xs : List (StreamElement A))
      → kept (e ∷ xs) ≡ (if skipped e then kept xs else e ∷ kept xs)
  kept-skipped (item x) xs = if_not (predicate x) (item x ∷ kept xs) (kept xs)
  kept-skipped (timestamped x ts) xs = if_not (predicate x) (timestamped x ts ∷ kept xs) (kept xs)
  kept-skipped (watermark w) xs = refl
  kept-skipped flush_batch xs = refl
  kept-skipped terminate xs = refl
  kept-skipped flush_and_restart xs = refl

  kept-IsGoing : (xs : List (StreamElement A)) → All IsData xs → All IsGoing (kept xs)
  kept-IsGoing [] d = tt
  kept-IsGoing (e ∷ xs) d = elim (Bool-cases (skipped e)) [
    | inl skip ↦ rw (kept-skipped e xs, skip) (kept-IsGoing xs d.1)
    | inr keep ↦ rw (kept-skipped e xs, keep) (IsData-IsGoing e d.0, kept-IsGoing xs d.1)
  ]

  filter_iteration :
      (u : Unit {ℓ}) (xs : List (StreamElement A)) (rest : Upstream A)
      → All IsData xs
      → Emits filter_next
          (u, xs ++ flush_and_restart ∷ rest)
          (kept xs ++ flush_and_restart ∷ [])
          (u, rest)
  unfolding filter_next
  filter_iteration u [] rest d = (refl, refl)
  filter_iteration u (e ∷ xs) rest d = elim (Bool-cases (skipped e)) [
    | inl skip ↦
        rw (kept-skipped e xs, skip)
          (Emits-absorb filter_next (u, e ∷ (xs ++ flush_and_restart ∷ rest))
            (u, xs ++ flush_and_restart ∷ rest) _ flush_and_restart (kept xs)
            (rw (skip, filter_next)) (filter_iteration u xs rest d.1))
    | inr keep ↦
        rw (kept-skipped e xs, keep)
          (Emits-emit filter_next (u, e ∷ (xs ++ flush_and_restart ∷ rest))
            (u, xs ++ flush_and_restart ∷ rest) _ e _ (rw (keep, filter_next))
            (filter_iteration u xs rest d.1))
  ]

  -- `Filter` passes on each iteration less the items that fail the predicate, watermarks and flushes
  -- included, and keeps the order.
  pub filter-Transforms : Transforms filter_next (λ u. Unit {ℓ}) kept
  unfolding filter_next
  filter-Transforms = record {
    iteration = λ u xs rest idle d. (u, tt, filter_iteration u xs rest d);
    ending = λ u idle. refl;
    data_only = kept-IsGoing;
  }

  -- A worker over `Filter` ends, given fuel for each element, when the stream consists of
  -- iterations of data; it passes on all elements in order but the items that fail the predicate.
  pub do_work-filter :
      (fuel : ℕ) (its : List (List (StreamElement A)))
      → All (All IsData) its
      → length (stream (map kept its)) < fuel
      → do_work filter_next fuel (tt, stream its) ≡ some (stream (map kept its))
  do_work-filter fuel its d h = do_work-Transforms filter-Transforms fuel tt its tt d h
