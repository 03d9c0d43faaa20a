-- ===== src/Operator/FilterMap.antt =====
-- src/operator/filter_map.rs
use renoir.Prelude.{
  ℕ, ◌<◌, length, Option, none, some, ◌≡◌, refl, ap, List, [], ◌∷◌, ◌++◌, map, All,
}
use mathlib.Core.Option
use renoir.Operator.Fold.Summary.{values}
use renoir.Stream.{
  Timestamp, StreamElement, item, timestamped, watermark, flush_batch, terminate, flush_and_restart,
}
use renoir.Stream.Run.{
  Upstream, IsData, IsGoing, Emits, Emits-absorb, Emits-emit, Transforms, do_work,
  do_work-Transforms, stream,
}

abbrev cons_some {ℓ} : {A : Type ℓ} → Option A → List A → List A
cons_some none xs = xs
cons_some (some x) xs = x ∷ xs

module _ {ℓ} {A Out : Type ℓ} (predicate : A → Option Out) where
  -- What the arm of an element returns; `none` if the loop goes on.
  abbrev pub picked : StreamElement A → Option (StreamElement Out)
  picked (item x) = Option.map item (predicate x)
  picked (timestamped x ts) = Option.map (λ y. timestamped y ts) (predicate x)
  picked (watermark w) = some (watermark w)
  picked terminate = some terminate
  picked flush_and_restart = some flush_and_restart
  picked flush_batch = some flush_batch

  abbrev pub pick_or :
      Option (StreamElement Out)
      → Upstream A
      → StreamElement Out × (Unit {ℓ} × Upstream A)
      → StreamElement Out × (Unit {ℓ} × Upstream A)
  pick_or none prev rest = rest
  pick_or (some e) prev rest = (e, (tt, prev))

  unfoldable pub filter_map_next :
      Unit {ℓ} × Upstream A → StreamElement Out × (Unit {ℓ} × Upstream A)
  filter_map_next (u, []) = (terminate, (u, []))
  filter_map_next (u, e ∷ prev) = pick_or (picked e) prev (filter_map_next (u, prev))

  -- The results for the items, where there is one, in the places of the items, and all else.
  abbrev pub results : List (StreamElement A) → List (StreamElement Out)
  results [] = []
  results (item x ∷ xs) = cons_some (Option.map item (predicate x)) (results xs)
  results (timestamped x ts ∷ xs) =
      cons_some (Option.map (λ y. timestamped y ts) (predicate x)) (results xs)
  results (watermark w ∷ xs) = watermark w ∷ results xs
  results (flush_batch ∷ xs) = flush_batch ∷ results xs
  results (_ ∷ xs) = results xs

  results-picked :
      (e : StreamElement A) (xs : List (StreamElement A))
      → IsData e
      → results (e ∷ xs) ≡ cons_some (picked e) (results xs)
  results-picked (item x) xs d = refl
  results-picked (timestamped x ts) xs d = refl
  results-picked (watermark w) xs d = refl
  results-picked flush_batch xs d = refl
  results-picked terminate xs d = absurd d
  results-picked flush_and_restart xs d = absurd d

  abbrev AreGoing : Option (StreamElement Out) → Type 0
  AreGoing none = Unit
  AreGoing (some e) = IsGoing e

  item-AreGoing : (o : Option Out) → AreGoing (Option.map item o)
  item-AreGoing none = tt
  item-AreGoing (some y) = tt

  timestamped-AreGoing :
      (ts : Timestamp) (o : Option Out) → AreGoing (Option.map (λ y. timestamped y ts) o)
  timestamped-AreGoing ts none = tt
  timestamped-AreGoing ts (some y) = tt

  picked-AreGoing : (e : StreamElement A) → IsData e → AreGoing (picked e)
  picked-AreGoing (item x) d = item-AreGoing (predicate x)
  picked-AreGoing (timestamped x ts) d = timestamped-AreGoing ts (predicate x)
  picked-AreGoing (watermark w) d = tt
  picked-AreGoing flush_batch d = tt
  picked-AreGoing terminate d = absurd d
  picked-AreGoing flush_and_restart d = absurd d

  cons_some-IsGoing :
      (o : Option (StreamElement Out)) (es : List (StreamElement Out))
      → AreGoing o
      → All IsGoing es
      → All IsGoing (cons_some o es)
  cons_some-IsGoing none es g h = h
  cons_some-IsGoing (some e) es g h = (g, h)

  results-IsGoing : (xs : List (StreamElement A)) → All IsData xs → All IsGoing (results xs)
  results-IsGoing [] d = tt
  results-IsGoing (e ∷ xs) d =
      rw (results-picked e xs d.0)
        (cons_some-IsGoing (picked e) (results xs) (picked-AreGoing e d.0) (results-IsGoing xs d.1))

  pick_or-Emits :
      (o : Option (StreamElement Out)) (s : Unit {ℓ} × Upstream A) (u : Unit {ℓ})
      (prev rest : Upstream A) (es : List (StreamElement Out))
      → filter_map_next s ≡ pick_or o prev (filter_map_next (u, prev))
      → Emits filter_map_next (u, prev) (es ++ flush_and_restart ∷ []) (u, rest)
      → Emits filter_map_next s (cons_some o es ++ flush_and_restart ∷ []) (u, rest)
  pick_or-Emits none s u prev rest es h em =
      Emits-absorb filter_map_next s (u, prev) (u, rest) flush_and_restart es h em
  pick_or-Emits (some e) s u prev rest es h em =
      Emits-emit filter_map_next s (u, prev) (u, rest) e (es ++ flush_and_restart ∷ []) h em

  filter_map_iteration :
      (u : Unit {ℓ}) (xs : List (StreamElement A)) (rest : Upstream A)
      → All IsData xs
      → Emits filter_map_next
          (u, xs ++ flush_and_restart ∷ rest)
          (results xs ++ flush_and_restart ∷ [])
          (u, rest)
  unfolding filter_map_next
  filter_map_iteration u [] rest d = (refl, refl)
  filter_map_iteration u (e ∷ xs) rest d = rw (results-picked e xs d.0) (
      pick_or-Emits (picked e) (u, e ∷ (xs ++ flush_and_restart ∷ rest)) u
        (xs ++ flush_and_restart ∷ rest) rest (results xs) refl
        (filter_map_iteration u xs rest d.1))

  filter_map-Transforms : Transforms filter_map_next (λ u. Unit {ℓ}) results
  unfolding filter_map_next
  filter_map-Transforms = record {
    iteration = λ u xs rest idle d. (u, tt, filter_map_iteration u xs rest d);
    ending = λ u idle. refl;
    data_only = results-IsGoing;
  }

  -- The result for one item, if there is one.
  abbrev pub chosen : List (StreamElement A) → List Out
  chosen [] = []
  chosen (item x ∷ xs) = cons_some (predicate x) (chosen xs)
  chosen (timestamped x ts ∷ xs) = cons_some (predicate x) (chosen xs)
  chosen (_ ∷ xs) = chosen xs

  values-item :
      (o : Option Out) (es : List (StreamElement Out)) (ys : List Out)
      → values es ≡ ys
      → values (cons_some (Option.map item o) es) ≡ cons_some o ys
  values-item none es ys h = h
  values-item (some y) es ys h = ap (λ zs. y ∷ zs) h

  values-timestamped :
      (ts : Timestamp) (o : Option Out) (es : List (StreamElement Out)) (ys : List Out)
      → values es ≡ ys
      → values (cons_some (Option.map (λ y. timestamped y ts) o) es) ≡ cons_some o ys
  values-timestamped ts none es ys h = h
  values-timestamped ts (some y) es ys h = ap (λ zs. y ∷ zs) h

  values-results : (xs : List (StreamElement A)) → values (results xs) ≡ chosen xs
  values-results [] = refl
  values-results (item x ∷ xs) = values-item (predicate x) (results xs) _ (values-results xs)
  values-results (timestamped x ts ∷ xs) =
      values-timestamped ts (predicate x) (results xs) _ (values-results xs)
  values-results (watermark w ∷ xs) = values-results xs
  values-results (flush_batch ∷ xs) = values-results xs
  values-results (terminate ∷ xs) = values-results xs
  values-results (flush_and_restart ∷ xs) = values-results xs

  iterations-values :
      (its : List (List (StreamElement A))) → All (λ xs. values (results xs) ≡ chosen xs) its
  iterations-values [] = tt
  iterations-values (xs ∷ its) = (values-results xs, iterations-values its)

  -- A worker over `FilterMap` ends, given fuel for each element, when the stream consists of
  -- iterations of data; it passes on `results` for each iteration: what the function gives for an
  -- item, with its timestamp and in its place, where it gives something, and every other element in
  -- its place. The items of `results`, in order, are what the function gives for the items of the
  -- iteration.
  pub do_work-filter_map :
      (fuel : ℕ) (its : List (List (StreamElement A)))
      → All (All IsData) its
      → length (stream (map results its)) < fuel
      → (do_work filter_map_next fuel (tt, stream its) ≡ some (stream (map results its)))
        × All (λ xs. values (results xs) ≡ chosen xs) its
  do_work-filter_map fuel its d h =
      (do_work-Transforms filter_map-Transforms fuel tt its tt d h, iterations-values its)
