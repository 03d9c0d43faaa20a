-- ===== src/Source/ParallelIterator/Replicas.antt =====
-- The replicas of a source over a range share the range out.
use mathlib.Core.List.{flatten}
use renoir.Prelude.{
  ℕ, zero, suc, ◌+◌, ◌-◌, ◌≤◌, ◌<◌, ◌≡◌, refl, sym, ap, ◌∙◌, true, false, Option, none, some, List,
  [], ◌∷◌, ◌++◌, map, length, arith, All, append-nil,
}
use renoir.Stream.{StreamElement, item, terminate, flush_and_restart}
use renoir.Stream.Run.{IsGoing}
use renoir.Stream.Fallible.{Yields, work, work-Yields}
use renoir.Source.ParallelIterator.{
  ParallelIteratorSource, iterator, new, setup, source_next, values, count_up, u64_max,
  wrapping_sub, chunk_size, range_iterator, range_of_chunk,
}
use renoir.Source.ParallelIterator.Ranges.{
  bound, values-append, range_of_chunk_lem, product_bound, chunk_size-bounds, bound_mono, values_eq,
}

module _ {ℓ} {A : Type ℓ} where
  abbrev reading : List A → ParallelIteratorSource A
  reading xs = record { inner = iterator xs; terminated = false }

  source-Yields :
      (xs : List A)
      → (t : ParallelIteratorSource A) × Yields source_next
          (reading xs)
          ((map item xs ++ flush_and_restart ∷ []) ++ terminate ∷ [])
          t
  unfolding source_next
  source-Yields [] =
      let done : ParallelIteratorSource A = record { inner = iterator []; terminated = true } in
      (done, (done, refl, (done, refl, refl)))
  source-Yields (x ∷ xs) = let (t, y) = source-Yields xs in (t, (reading xs, refl, y))

  items-IsGoing : (xs : List A) → All IsGoing (map item xs ++ flush_and_restart ∷ [])
  items-IsGoing [] = (tt, tt)
  items-IsGoing (x ∷ xs) = (tt, items-IsGoing xs)

  length-items :
      (xs : List A)
      → length (let es : List (StreamElement A) = map item xs ++ flush_and_restart ∷ [] in es)
        ≡ length xs + 1
  length-items [] = refl
  length-items (x ∷ xs) = omega (arith, length-items xs)

  -- A replica that was set up returns what its iterator yields, and ends.
  work-reading :
      (fuel : ℕ) (xs : List A)
      → length xs + 1 < fuel
      → work source_next fuel (reading xs) ≡ some (map item xs ++ flush_and_restart ∷ [])
  work-reading fuel xs h =
      let (t, y) = source-Yields xs in
      work-Yields source_next fuel (reading xs) t (map item xs ++ flush_and_restart ∷ [])
        (omega (arith, length-items xs)) (items-IsGoing xs) y

  -- The worker of a replica, which panics if the setup does.
  abbrev pub run : ℕ → Option (ParallelIteratorSource A) → Option (List (StreamElement A))
  run fuel none = none
  run fuel (some s) = work source_next fuel s

  -- Each replica, from the `i`th on, returns its share and ends.
  abbrev pub Split : (ℕ → ℕ → Option (List A)) → ℕ → ℕ → ℕ → List (List A) → Type ℓ
  Split g fuel peers i [] = Unit
  Split g fuel peers i (xs ∷ shares) =
      (run fuel (setup i peers (new g)) ≡ some (map item xs ++ flush_and_restart ∷ []))
      × Split g fuel peers (suc i) shares

length-count_up : (a n : ℕ) → length (count_up a n) ≡ n
length-count_up a zero = refl
length-count_up a (suc n) = omega (arith, length-count_up (suc a) n)

module _ (lo hi p fuel : ℕ) (ordered : lo ≤ hi) (fits : hi ≤ u64_max) (few : hi - lo + p ≤ u64_max)
    (enough : hi - lo + 1 < fuel) where
  abbrev chunk : ℕ
  chunk = chunk_size (hi - lo) (suc p)

  length-part :
      (i : ℕ) → length (values (bound lo hi i chunk) (bound lo hi (suc i) chunk)) + 1 < fuel
  length-part i = omega (
    arith,
    length-count_up (bound lo hi i chunk) (bound lo hi (suc i) chunk - bound lo hi i chunk),
  )

  plain_size : wrapping_sub hi lo ≡ hi - lo
  plain_size = omega arith

  replica_share :
      (i : ℕ)
      → i ≤ p
      → run fuel (setup i (suc p) (new (range_iterator lo hi)))
        ≡ some (
            map item (values (bound lo hi i chunk) (bound lo hi (suc i) chunk))
            ++ flush_and_restart ∷ [])
  replica_share i h =
      ap (λ z. work source_next fuel (reading (range_of_chunk lo hi i (chunk_size z (suc p)))))
        plain_size
      ∙ ap (λ z. work source_next fuel (reading z))
          (range_of_chunk_lem lo hi i chunk ordered fits (product_bound (hi - lo) p i h few))
      ∙ work-reading fuel _ (length-part i)

  shares_from :
      (k i : ℕ)
      → i + k ≡ p
      → (shares : List (List ℕ)) × Split (range_iterator lo hi) fuel (suc p) i shares
        × (length shares ≡ suc k)
        × (flatten shares ≡ values (bound lo hi i chunk) (bound lo hi (suc p) chunk))
  unfolding flatten
  shares_from zero i e = (
    values (bound lo hi i chunk) (bound lo hi (suc i) chunk) ∷ [],
    (replica_share i (omega arith), tt),
    refl,
    append-nil _
        ∙ ap (λ z. values (bound lo hi i chunk) (bound lo hi (suc z) chunk))
            (let q : i ≡ p = omega arith in q),
  )
  shares_from (suc k) i e =
      let (shares, w, c, f) = shares_from k (suc i) (omega arith) in
      (
        values (bound lo hi i chunk) (bound lo hi (suc i) chunk) ∷ shares,
        (replica_share i (omega arith), w),
        omega (arith, c),
        ap (λ z. values (bound lo hi i chunk) (bound lo hi (suc i) chunk) ++ z) f
            ∙ sym (
                values-append (bound lo hi i chunk) (bound lo hi (suc i) chunk)
                  (bound lo hi (suc p) chunk) (bound_mono lo hi i (suc i) chunk (omega arith))
                  (bound_mono lo hi (suc i) (suc p) chunk (omega arith))),
      )

  -- For a range of u64 that does not begin after its end and any number of replicas over zero that,
  -- added to the length of the range, does not exceed 2^64, no replica of the source panics: each
  -- returns the values of its share, given fuel for each value of the range and two more, and then
  -- a `FlushAndRestart`, and the shares of the replicas, in order, are the values of the range:
  -- none is lost and none is repeated.
  pub shares-range :
      (shares : List (List ℕ)) × Split (range_iterator lo hi) fuel (suc p) 0 shares
      × (length shares ≡ suc p)
      × (flatten shares ≡ values lo hi)
  shares-range =
      let (shares, w, c, f) = shares_from p 0 (omega arith) in
      (
        shares,
        w,
        c,
        f
            ∙ values_eq (bound lo hi 0 chunk) lo (bound lo hi (suc p) chunk) hi (ground arith)
                (omega (arith, (chunk_size-bounds (hi - lo) p).0)),
      )
