-- ===== src/Operator/Fold/Iteration.antt =====
-- `Fold` over one iteration: the fold of its items, their highest timestamp, the highest watermark.
use renoir.Prelude.{
  ℕ, ◌<◌, length, ◌≡◌, refl, sym, true, false, Option, none, some, List, [], ◌∷◌, ◌++◌, map, All,
  All-append, foldl,
}
use renoir.Stream.{
  Timestamp, StreamElement, item, timestamped, watermark, flush_batch, terminate, flush_and_restart,
}
use renoir.Stream.Run.{
  Upstream, IsData, IsGoing, Emits, Emits-absorb, Emits-emit, Transforms, do_work,
  do_work-Transforms, stream,
}
use renoir.Operator.Fold.Summary.{
  values, latest, last_watermark, latest-raise, last_watermark-raise,
}
use renoir.Operator.Fold.{Fold, raise, new, accumulate, fill, fold_next}

abbrev pub stamped {ℓ} : {O : Type ℓ} → Option Timestamp → O → StreamElement O
stamped none x = item x
stamped (some ts) x = timestamped x ts

module _ {ℓ} {A O : Type ℓ} (fold : O → A → O) (init : O) where
  -- The result of an iteration, which has none if it has no item.
  abbrev pub result : Option Timestamp → List A → List (StreamElement O)
  result t [] = []
  result t (x ∷ xs) = stamped t (foldl fold init (x ∷ xs)) ∷ []

  abbrev pub pending : Option Timestamp → List (StreamElement O)
  pending none = []
  pending (some w) = watermark w ∷ []

  abbrev pub folded : List (StreamElement A) → List (StreamElement O)
  folded xs = result (latest none xs) (values xs) ++ pending (last_watermark none xs)

  -- The state after the items `vs` of an iteration.
  abbrev after : Option O → Option Timestamp → Option Timestamp → Fold O
  after acc t w = record {
    init = init;
    accumulator = acc;
    timestamp = t;
    max_watermark = w;
    received_end = false;
    received_end_iter = false;
  }

  abbrev accumulated : Option O → List A → Option O
  accumulated acc [] = acc
  accumulated acc (v ∷ vs) = accumulated (some (accumulate fold acc init v)) vs

  fill_lem :
      (acc : Option O) (t w : Option Timestamp) (xs : List (StreamElement A)) (rest : Upstream A)
      → All IsData xs
      → fill fold (after acc t w) (xs ++ flush_and_restart ∷ rest) ≡ (
        record (after (accumulated acc (values xs)) (latest t xs) (last_watermark w xs)) {
          received_end = true;
          received_end_iter = true;
        },
        rest,
      )
  unfolding fill
  fill_lem acc t w [] [] d = refl
  fill_lem acc t w [] (e ∷ rest) d = refl
  fill_lem acc t w (item x ∷ xs) rest d =
      fill_lem (some (accumulate fold acc init x)) t w xs rest d.1
  fill_lem acc t w (timestamped x ts ∷ xs) rest d =
      rw (sym (latest-raise t x ts xs))
        (fill_lem (some (accumulate fold acc init x)) (raise t ts) w xs rest d.1)
  fill_lem acc t w (watermark ts ∷ xs) rest d =
      rw (sym (last_watermark-raise w ts xs)) (fill_lem acc t (raise w ts) xs rest d.1)
  fill_lem acc t w (flush_batch ∷ xs) rest d = fill_lem acc t w xs rest d.1
  fill_lem acc t w (terminate ∷ xs) rest d = absurd d.0
  fill_lem acc t w (flush_and_restart ∷ xs) rest d = absurd d.0

  accumulated-some : (a : O) (vs : List A) → accumulated (some a) vs ≡ some (foldl fold a vs)
  accumulated-some a [] = refl
  accumulated-some a (v ∷ vs) = accumulated-some (fold a v) vs

  -- The state when the loop has ended.
  abbrev ended : Option O → Option Timestamp → Option Timestamp → Fold O
  ended acc t w = record (after acc t w) { received_end = true; received_end_iter = true }

  fill-ended :
      (acc : Option O) (t w : Option Timestamp) (prev : Upstream A)
      → fill fold (ended acc t w) prev ≡ (ended acc t w, prev)
  unfolding fill
  fill-ended acc t w [] = refl
  fill-ended acc t w (e ∷ prev) = refl

  abbrev Releases : Option O → Option Timestamp → Option Timestamp → List (StreamElement O) → Type ℓ
  Releases acc t w es =
      (rest : Upstream A)
      → Emits (fold_next fold) (ended acc t w, rest) (es ++ flush_and_restart ∷ [])
          (new fold init, rest)

  release_none : Releases none none none []
  unfolding fold_next
  release_none [] = (refl, refl)
  release_none (e ∷ rest) = (refl, refl)

  release_watermark : (w : Option Timestamp) → Releases none none w (pending w)
  unfolding fold_next
  release_watermark none rest = release_none rest
  release_watermark (some w) [] = (refl, release_none [])
  release_watermark (some w) (e ∷ rest) = (refl, release_none (e ∷ rest))

  release_item :
      (a : O) (t w : Option Timestamp) (rest : Upstream A)
      → (fold_next fold) (ended (some a) t w, rest) ≡ (stamped t a, (ended none none w, rest))
  unfolding fold_next
  release_item a none w [] = refl
  release_item a none w (e ∷ rest) = refl
  release_item a (some ts) w [] = refl
  release_item a (some ts) w (e ∷ rest) = refl

  -- A timestamp comes with an item.
  latest-no_item :
      (t : Option Timestamp) (xs : List (StreamElement A))
      → All IsData xs
      → values xs ≡ []
      → latest t xs ≡ t
  latest-no_item t [] d e = refl
  latest-no_item t (item x ∷ xs) d e = cc
  latest-no_item t (timestamped x ts ∷ xs) d e = cc
  latest-no_item t (watermark ts ∷ xs) d e = latest-no_item t xs d.1 e
  latest-no_item t (flush_batch ∷ xs) d e = latest-no_item t xs d.1 e
  latest-no_item t (terminate ∷ xs) d e = absurd d.0
  latest-no_item t (flush_and_restart ∷ xs) d e = absurd d.0

  release_result :
      (t w : Option Timestamp) (vs : List A)
      → (vs ≡ [] → t ≡ none)
      → Releases (accumulated none vs) t w (result t vs ++ pending w)
  release_result t w [] h rest = rw (h refl) (release_watermark w rest)
  release_result t w (v ∷ vs) h rest = rw (accumulated-some (fold init v) vs) (
      Emits-emit (fold_next fold) (ended (some (foldl fold (fold init v) vs)) t w, rest)
        (ended none none w, rest) (new fold init, rest) (stamped t (foldl fold (fold init v) vs))
        (pending w ++ flush_and_restart ∷ []) (release_item (foldl fold (fold init v) vs) t w rest)
        (release_watermark w rest))

  -- The loop and what follows it, on the first call of an iteration.
  next-fill :
      (xs : List (StreamElement A)) (rest : Upstream A)
      → All IsData xs
      → fold_next fold (new fold init, xs ++ flush_and_restart ∷ rest)
        ≡ fold_next fold
            (ended (accumulated none (values xs)) (latest none xs) (last_watermark none xs), rest)
  unfolding fold_next
  next-fill xs rest d = rw (fill_lem none none none xs rest d, fill-ended _ _ _ rest)

  fold_iteration :
      (xs : List (StreamElement A)) (rest : Upstream A)
      → All IsData xs
      → Emits
          (fold_next fold)
          (new fold init, xs ++ flush_and_restart ∷ rest)
          (folded xs ++ flush_and_restart ∷ [])
          (new fold init, rest)
  fold_iteration xs rest d =
      Emits-absorb (fold_next fold) (new fold init, xs ++ flush_and_restart ∷ rest)
        (ended (accumulated none (values xs)) (latest none xs) (last_watermark none xs), rest)
        (new fold init, rest) flush_and_restart (folded xs) (next-fill xs rest d)
        (release_result (latest none xs) (last_watermark none xs) (values xs)
          (latest-no_item none xs d) rest)

  result-IsGoing : (t : Option Timestamp) (vs : List A) → All IsGoing (result t vs)
  result-IsGoing t [] = tt
  result-IsGoing none (v ∷ vs) = (tt, tt)
  result-IsGoing (some ts) (v ∷ vs) = (tt, tt)

  pending-IsGoing : (w : Option Timestamp) → All IsGoing (pending w)
  pending-IsGoing none = tt
  pending-IsGoing (some w) = (tt, tt)

  -- `Fold` turns each iteration into the fold of its items, if it has any, with the highest of their
  -- timestamps, then the highest watermark, if there was one, and is then as it was made.
  pub fold-Transforms : Transforms (fold_next fold) (λ s. s ≡ new fold init) folded
  unfolding fold_next
  fold-Transforms = record {
    iteration = λ s xs rest idle d. (new fold init, refl, rw idle (fold_iteration xs rest d));
    ending = λ s idle. rw idle;
    data_only = λ xs d.
        All-append IsGoing (result (latest none xs) (values xs)) (pending (last_watermark none xs))
          (result-IsGoing (latest none xs) (values xs)) (pending-IsGoing (last_watermark none xs));
  }

  -- A worker over a new `Fold` ends, given fuel for each element, when the stream consists of
  -- iterations of data; it passes on, for each iteration, the fold of the items, if there is one,
  -- with the highest of their timestamps, and the highest watermark, if there was one.
  pub do_work-fold :
      (fuel : ℕ) (its : List (List (StreamElement A)))
      → All (All IsData) its
      → length (stream (map folded its)) < fuel
      → do_work (fold_next fold) fuel (new fold init, stream its) ≡ some (stream (map folded its))
  do_work-fold fuel its d h = do_work-Transforms fold-Transforms fuel (new fold init) its refl d h
