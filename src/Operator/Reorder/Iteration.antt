-- ===== src/Operator/Reorder/Iteration.antt =====
-- `Reorder` over one iteration, for any sort.
use renoir.Prelude.{
  ℕ, ◌<◌, length, ◌≡◌, refl, true, false, none, some, List, [], ◌∷◌, ◌++◌, map, All, All-append,
  leb, if◌then◌else◌, Bool-cases, inl, inr,
}
use renoir.Stream.{
  Timestamp, StreamElement, item, timestamped, watermark, flush_batch, terminate, flush_and_restart,
}
use renoir.Stream.Run.{
  Upstream, IsData, IsGoing, Emits, Emits-absorb, Emits-emit, Emits-append, Transforms, do_work,
  do_work-Transforms, stream, regroup,
}
use renoir.Operator.Reorder.{
  TimestampedItem, Reorder, new, absorb, emit, returned, release, reorder_next,
}

module _ {ℓ} {A : Type ℓ} where
  -- The longest prefix with no timestamp over the watermark, and the rest.
  abbrev pub ready : Timestamp → List (TimestampedItem A) → List (TimestampedItem A)
  ready w [] = []
  ready w (e ∷ buf) = if leb e.timestamp w then e ∷ ready w buf else []

  abbrev pub waiting : Timestamp → List (TimestampedItem A) → List (TimestampedItem A)
  waiting w [] = []
  waiting w (e ∷ buf) = if leb e.timestamp w then waiting w buf else e ∷ buf

module _ {ℓ} {A : Type ℓ} (sort : List (TimestampedItem A) → List (TimestampedItem A)) where
  -- What is returned for an iteration that starts with the items `buf` in the buffer.
  abbrev pub reordered : List (TimestampedItem A) → List (StreamElement A) → List (StreamElement A)
  reordered buf [] = map (emit sort) (sort buf)
  reordered buf (timestamped x ts ∷ xs) =
      reordered (buf ++ record { value = x; timestamp = ts } ∷ []) xs
  reordered buf (watermark w ∷ xs) =
      map (emit sort) (ready w (sort buf)) ++ watermark w ∷ reordered (waiting w (sort buf)) xs
  reordered buf (e ∷ xs) = e ∷ reordered buf xs

  abbrev filling : List (TimestampedItem A) → Reorder A
  filling buf = record { buffer = buf; last_watermark = none; received_end = false }

  abbrev marked : Timestamp → List (TimestampedItem A) → Reorder A
  marked w buf = record { buffer = buf; last_watermark = some w; received_end = false }

  abbrev ended : List (TimestampedItem A) → Reorder A
  ended buf = record { buffer = buf; last_watermark = none; received_end = true }

  marked-due :
      (w : Timestamp) (e : TimestampedItem A) (buf : List (TimestampedItem A)) (prev : Upstream A)
      → leb e.timestamp w ≡ true
      → reorder_next sort (marked w (e ∷ buf), prev) ≡ (emit sort e, (marked w buf, prev))
  unfolding reorder_next
  marked-due w e buf [] due = rw (due, release)
  marked-due w e buf (x ∷ prev) due = rw (due, release)

  marked-early :
      (w : Timestamp) (e : TimestampedItem A) (buf : List (TimestampedItem A)) (prev : Upstream A)
      → leb e.timestamp w ≡ false
      → reorder_next sort (marked w (e ∷ buf), prev) ≡ (watermark w, (filling (e ∷ buf), prev))
  unfolding reorder_next
  marked-early w e buf [] early = rw (early, release)
  marked-early w e buf (x ∷ prev) early = rw (early, release)

  marked-empty :
      (w : Timestamp) (prev : Upstream A)
      → reorder_next sort (marked w [], prev) ≡ (watermark w, (filling [], prev))
  unfolding reorder_next
  marked-empty w [] = refl
  marked-empty w (x ∷ prev) = refl

  marked-Emits :
      (w : Timestamp) (buf : List (TimestampedItem A)) (prev : Upstream A)
      → Emits
          (reorder_next sort)
          (marked w buf, prev)
          (map (emit sort) (ready w buf) ++ watermark w ∷ [])
          (filling (waiting w buf), prev)
  marked-Emits w [] prev =
      Emits-emit (reorder_next sort) (marked w [], prev) (filling [], prev) (filling [], prev)
        (watermark w) [] (marked-empty w prev) refl
  marked-Emits w (e ∷ buf) prev = elim (Bool-cases (leb e.timestamp w)) [
    | inl due ↦ rw due (
        Emits-emit (reorder_next sort) (marked w (e ∷ buf), prev) (marked w buf, prev)
          (filling (waiting w buf), prev) (emit sort e)
          (map (emit sort) (ready w buf) ++ watermark w ∷ []) (marked-due w e buf prev due)
          (marked-Emits w buf prev))
    | inr early ↦ rw early (
        Emits-emit (reorder_next sort) (marked w (e ∷ buf), prev) (filling (e ∷ buf), prev)
          (filling (e ∷ buf), prev) (watermark w) [] (marked-early w e buf prev early) refl)
  ]

  ended-emit :
      (e : TimestampedItem A) (buf : List (TimestampedItem A)) (prev : Upstream A)
      → reorder_next sort (ended (e ∷ buf), prev) ≡ (emit sort e, (ended buf, prev))
  unfolding reorder_next
  ended-emit e buf [] = refl
  ended-emit e buf (x ∷ prev) = refl

  ended-empty :
      (prev : Upstream A) → reorder_next sort (ended [], prev) ≡ (flush_and_restart, (new, prev))
  unfolding reorder_next
  ended-empty [] = refl
  ended-empty (x ∷ prev) = refl

  ended-Emits :
      (buf : List (TimestampedItem A)) (prev : Upstream A)
      → Emits
          (reorder_next sort)
          (ended buf, prev)
          (map (emit sort) buf ++ flush_and_restart ∷ [])
          (new, prev)
  ended-Emits [] prev =
      Emits-emit (reorder_next sort) (ended [], prev) (new, prev) (new, prev) flush_and_restart []
        (ended-empty prev) refl
  ended-Emits (e ∷ buf) prev =
      Emits-emit (reorder_next sort) (ended (e ∷ buf), prev) (ended buf, prev) (new, prev)
        (emit sort e) (map (emit sort) buf ++ flush_and_restart ∷ []) (ended-emit e buf prev)
        (ended-Emits buf prev)

  abbrev Iterates : List (TimestampedItem A) → List (StreamElement A) → Upstream A → Type ℓ
  Iterates buf xs rest =
      Emits (reorder_next sort) (filling buf, xs ++ flush_and_restart ∷ rest)
        (reordered buf xs ++ flush_and_restart ∷ []) (new, rest)

  -- An element that the loop absorbs.
  filling-absorb :
      (buf : List (TimestampedItem A)) (e : StreamElement A) (prev : Upstream A)
      → returned sort e ≡ none
      → reorder_next sort (filling buf, e ∷ prev)
        ≡ reorder_next sort (absorb sort (filling buf) e, prev)
  unfolding reorder_next
  filling-absorb buf e prev p = rw (p, reorder_next)

  -- An element that the loop returns.
  filling-pass :
      (buf : List (TimestampedItem A)) (e : StreamElement A) (prev : Upstream A)
      → returned sort e ≡ some e
      → reorder_next sort (filling buf, e ∷ prev) ≡ (e, (filling buf, prev))
  unfolding reorder_next
  filling-pass buf e prev p = rw (p, reorder_next)

  iterate_pass :
      (buf : List (TimestampedItem A)) (e : StreamElement A) (xs : List (StreamElement A))
      (rest : Upstream A)
      → returned sort e ≡ some e
      → Iterates buf xs rest
      → reordered buf (e ∷ xs) ≡ e ∷ reordered buf xs
      → Iterates buf (e ∷ xs) rest
  iterate_pass buf e xs rest p em shape =
      let up = xs ++ flush_and_restart ∷ rest in
      rw shape (
        Emits-emit (reorder_next sort) (filling buf, e ∷ up) (filling buf, up) (new, rest) e
          (reordered buf xs ++ flush_and_restart ∷ []) (filling-pass buf e up p) em)

  reorder_iteration :
      (buf : List (TimestampedItem A)) (xs : List (StreamElement A)) (rest : Upstream A)
      → All IsData xs
      → Iterates buf xs rest
  reorder_iteration buf [] rest d =
      Emits-absorb (reorder_next sort) (filling buf, flush_and_restart ∷ rest)
        (ended (sort buf), rest) (new, rest) flush_and_restart (map (emit sort) (sort buf))
        (filling-absorb buf flush_and_restart rest refl) (ended-Emits (sort buf) rest)
  reorder_iteration buf (timestamped x ts ∷ xs) rest d =
      let buf' = buf ++ record { value = x; timestamp = ts } ∷ [] in
      Emits-absorb (reorder_next sort)
        (filling buf, timestamped x ts ∷ (xs ++ flush_and_restart ∷ rest))
        (filling buf', xs ++ flush_and_restart ∷ rest) (new, rest) flush_and_restart
        (reordered buf' xs) (filling-absorb buf (timestamped x ts) _ refl)
        (reorder_iteration buf' xs rest d.1)
  reorder_iteration buf (watermark w ∷ xs) rest d =
      let up = xs ++ flush_and_restart ∷ rest in
      let buf' = waiting w (sort buf) in
      Emits-absorb (reorder_next sort) (filling buf, watermark w ∷ up) (marked w (sort buf), up)
        (new, rest) flush_and_restart (reordered buf (watermark w ∷ xs))
        (filling-absorb buf (watermark w) up refl)
        (rw
          (regroup (map (emit sort) (ready w (sort buf))) (watermark w) (reordered buf' xs)
            (flush_and_restart ∷ []))
          (Emits-append (reorder_next sort) (marked w (sort buf), up) (filling buf', up) (new, rest)
            (map (emit sort) (ready w (sort buf)) ++ watermark w ∷ [])
            (reordered buf' xs ++ flush_and_restart ∷ []) (marked-Emits w (sort buf) up)
            (reorder_iteration buf' xs rest d.1)))
  reorder_iteration buf (item x ∷ xs) rest d =
      iterate_pass buf (item x) xs rest refl (reorder_iteration buf xs rest d.1) refl
  reorder_iteration buf (flush_batch ∷ xs) rest d =
      iterate_pass buf flush_batch xs rest refl (reorder_iteration buf xs rest d.1) refl
  reorder_iteration buf (terminate ∷ xs) rest d = absurd d.0
  reorder_iteration buf (flush_and_restart ∷ xs) rest d = absurd d.0

  items-IsGoing : (buf : List (TimestampedItem A)) → All IsGoing (map (emit sort) buf)
  items-IsGoing [] = tt
  items-IsGoing (e ∷ buf) = (tt, items-IsGoing buf)

  reordered-IsGoing :
      (buf : List (TimestampedItem A)) (xs : List (StreamElement A))
      → All IsData xs
      → All IsGoing (reordered buf xs)
  reordered-IsGoing buf [] d = items-IsGoing (sort buf)
  reordered-IsGoing buf (timestamped x ts ∷ xs) d = reordered-IsGoing _ xs d.1
  reordered-IsGoing buf (watermark w ∷ xs) d =
      All-append IsGoing (map (emit sort) (ready w (sort buf))) _
        (items-IsGoing (ready w (sort buf))) (tt, reordered-IsGoing (waiting w (sort buf)) xs d.1)
  reordered-IsGoing buf (item x ∷ xs) d = (tt, reordered-IsGoing buf xs d.1)
  reordered-IsGoing buf (flush_batch ∷ xs) d = (tt, reordered-IsGoing buf xs d.1)
  reordered-IsGoing buf (terminate ∷ xs) d = absurd d.0
  reordered-IsGoing buf (flush_and_restart ∷ xs) d = absurd d.0

  pub reorder-Transforms : Transforms (reorder_next sort) (λ s. s ≡ new) (reordered [])
  unfolding reorder_next
  reorder-Transforms = record {
    iteration = λ s xs rest idle d. (new, refl, rw idle (reorder_iteration [] xs rest d));
    ending = λ s idle. rw idle;
    data_only = reordered-IsGoing [];
  }

  -- A worker over a new `Reorder` ends, given fuel for each element, when the stream consists of
  -- iterations of data; whatever the sort does, it passes on `reordered` for each iteration.
  pub do_work-reorder :
      (fuel : ℕ) (its : List (List (StreamElement A)))
      → All (All IsData) its
      → length (stream (map (reordered []) its)) < fuel
      → do_work (reorder_next sort) fuel (new, stream its) ≡ some (stream (map (reordered []) its))
  do_work-reorder fuel its d h = do_work-Transforms reorder-Transforms fuel new its refl d h
