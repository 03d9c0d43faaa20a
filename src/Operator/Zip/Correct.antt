-- ===== src/Operator/Zip/Correct.antt =====
-- What `Zip` makes of two streams: the pairs in order, and no pair behind a watermark.
use renoir.Prelude.{
  ℕ, ◌<◌, ◌≡◌, refl, ap, ◌∙◌, Bool, some, List, [], ◌∷◌, ◌++◌, map, length, All, All-map,
  append_assoc,
}
use renoir.Stream.{
  Timestamp, StreamElement, item, timestamped, watermark, flush_batch, terminate, flush_and_restart,
}
use renoir.Stream.Run.{IsGoing, stream}
use renoir.Stream.Fallible.{Reworks, work, work-Reworks}
use renoir.Join.{BinaryElement, left, right, left_end, right_end}
use renoir.Operator.Reorder.Order.{IsInOrder}
use renoir.Operator.Zip.{new, combine, zip_step, zip_next}
use renoir.Operator.Zip.Late.{
  all_items, late-items, late-IsGoing, late-IsInOrder, Newer, combine-late, Newer-left, Newer-right,
  Newer-zero, Newer-item,
}
use renoir.Operator.Zip.Iteration.{
  IsUniform, pair_list, add_left, add_right, zipped, OneEmpty, any_nil, zip-iteration,
}

module _ {ℓ} {Out1 Out2 : Type ℓ} where
  -- The items of one side, with their timestamps.
  abbrev pub lefts : List (StreamElement (BinaryElement Out1 Out2)) → List (StreamElement Out1)
  lefts [] = []
  lefts (item (left x) ∷ es) = item x ∷ lefts es
  lefts (timestamped (left x) ts ∷ es) = timestamped x ts ∷ lefts es
  lefts (_ ∷ es) = lefts es

  abbrev pub rights : List (StreamElement (BinaryElement Out1 Out2)) → List (StreamElement Out2)
  rights [] = []
  rights (item (right y) ∷ es) = item y ∷ rights es
  rights (timestamped (right y) ts ∷ es) = timestamped y ts ∷ rights es
  rights (_ ∷ es) = rights es

  -- The first with the first, and so on, as long as there are both.
  abbrev pub zip_all :
      List (StreamElement Out1) → List (StreamElement Out2) → List (StreamElement (Out1 × Out2))
  zip_all (x ∷ xs) (y ∷ ys) = pair_list (combine x y) ++ zip_all xs ys
  zip_all _ _ = []

  add_left-items :
      (x : StreamElement Out1) (xs xs' : List (StreamElement Out1))
      (ys ys' : List (StreamElement Out2))
      (zipped : List (StreamElement Out1)
        → List (StreamElement Out2)
        → List (StreamElement (Out1 × Out2)))
      → OneEmpty xs ys
      → ((us : List (StreamElement Out1)) (vs : List (StreamElement Out2))
          → OneEmpty us vs
          → all_items (zipped us vs) ≡ zip_all (us ++ xs') (vs ++ ys'))
      → all_items (add_left x xs ys zipped) ≡ zip_all (xs ++ x ∷ xs') (ys ++ ys')
  add_left-items x xs xs' [] ys' zipped o f =
      f (xs ++ x ∷ []) [] (any_nil (xs ++ x ∷ []) [] refl)
      ∙ ap (λ z. zip_all z ys') (append_assoc xs (x ∷ []) xs')
  add_left-items x [] xs' (y ∷ ys) ys' zipped o f =
      late-items (combine x y) (zipped [] ys) (combine-late x y 0 (Newer-zero x y))
      ∙ ap (λ z. pair_list (combine x y) ++ z) (f [] ys tt)
  add_left-items x (z ∷ xs) xs' (y ∷ ys) ys' zipped o f = absurd o

  add_right-items :
      (y : StreamElement Out2) (xs xs' : List (StreamElement Out1))
      (ys ys' : List (StreamElement Out2))
      (zipped : List (StreamElement Out1)
        → List (StreamElement Out2)
        → List (StreamElement (Out1 × Out2)))
      → OneEmpty xs ys
      → ((us : List (StreamElement Out1)) (vs : List (StreamElement Out2))
          → OneEmpty us vs
          → all_items (zipped us vs) ≡ zip_all (us ++ xs') (vs ++ ys'))
      → all_items (add_right y xs ys zipped) ≡ zip_all (xs ++ xs') (ys ++ y ∷ ys')
  add_right-items y [] xs' ys ys' zipped o f =
      f [] (ys ++ y ∷ []) tt ∙ ap (zip_all xs') (append_assoc ys (y ∷ []) ys')
  add_right-items y (x ∷ xs) xs' [] ys' zipped o f =
      late-items (combine x y) (zipped xs []) (combine-late x y 0 (Newer-zero x y))
      ∙ ap (λ z. pair_list (combine x y) ++ z) (f xs [] (any_nil xs [] refl))
  add_right-items y (x ∷ xs) xs' (z ∷ ys) ys' zipped o f = absurd o

  nothing-left :
      (xs : List (StreamElement Out1)) (ys : List (StreamElement Out2))
      → OneEmpty xs ys
      → [] ≡ zip_all (xs ++ []) (ys ++ [])
  nothing-left [] ys o = refl
  nothing-left (x ∷ xs) [] o = refl
  nothing-left (x ∷ xs) (y ∷ ys) o = absurd o

  zipped-items :
      (es : List (StreamElement (BinaryElement Out1 Out2))) (xs : List (StreamElement Out1))
      (ys : List (StreamElement Out2))
      → OneEmpty xs ys
      → all_items (zipped xs ys es) ≡ zip_all (xs ++ lefts es) (ys ++ rights es)
  zipped-items [] xs ys o = nothing-left xs ys o
  zipped-items (item (left x) ∷ es) xs ys o =
      add_left-items (item x) xs (lefts es) ys (rights es) (λ a b. zipped a b es) o
        (zipped-items es)
  zipped-items (timestamped (left x) ts ∷ es) xs ys o =
      add_left-items (timestamped x ts) xs (lefts es) ys (rights es) (λ a b. zipped a b es) o
        (zipped-items es)
  zipped-items (item (right y) ∷ es) xs ys o =
      add_right-items (item y) xs (lefts es) ys (rights es) (λ a b. zipped a b es) o
        (zipped-items es)
  zipped-items (timestamped (right y) ts ∷ es) xs ys o =
      add_right-items (timestamped y ts) xs (lefts es) ys (rights es) (λ a b. zipped a b es) o
        (zipped-items es)
  zipped-items (item left_end ∷ es) xs ys o = zipped-items es xs ys o
  zipped-items (item right_end ∷ es) xs ys o = zipped-items es xs ys o
  zipped-items (timestamped left_end ts ∷ es) xs ys o = zipped-items es xs ys o
  zipped-items (timestamped right_end ts ∷ es) xs ys o = zipped-items es xs ys o
  zipped-items (watermark w ∷ es) xs ys o = zipped-items es xs ys o
  zipped-items (flush_batch ∷ es) xs ys o = zipped-items es xs ys o
  zipped-items (terminate ∷ es) xs ys o = zipped-items es xs ys o
  zipped-items (flush_and_restart ∷ es) xs ys o = zipped-items es xs ys o

  add_left-all :
      (P : List (StreamElement (Out1 × Out2)) → Type 0) (x : StreamElement Out1)
      (xs : List (StreamElement Out1)) (ys : List (StreamElement Out2))
      (zipped : List (StreamElement Out1)
        → List (StreamElement Out2)
        → List (StreamElement (Out1 × Out2)))
      → ((y : StreamElement Out2) (es : List (StreamElement (Out1 × Out2)))
          → P es
          → P (pair_list (combine x y) ++ es))
      → ((us : List (StreamElement Out1)) (vs : List (StreamElement Out2)) → P (zipped us vs))
      → P (add_left x xs ys zipped)
  add_left-all P x xs [] zipped g f = f (xs ++ x ∷ []) []
  add_left-all P x xs (y ∷ ys) zipped g f = g y (zipped [] ys) (f [] ys)

  add_right-all :
      (P : List (StreamElement (Out1 × Out2)) → Type 0) (y : StreamElement Out2)
      (xs : List (StreamElement Out1)) (ys : List (StreamElement Out2))
      (zipped : List (StreamElement Out1)
        → List (StreamElement Out2)
        → List (StreamElement (Out1 × Out2)))
      → ((x : StreamElement Out1) (es : List (StreamElement (Out1 × Out2)))
          → P es
          → P (pair_list (combine x y) ++ es))
      → ((us : List (StreamElement Out1)) (vs : List (StreamElement Out2)) → P (zipped us vs))
      → P (add_right y xs ys zipped)
  add_right-all P y [] ys zipped g f = f [] (ys ++ y ∷ [])
  add_right-all P y (x ∷ xs) ys zipped g f = g x (zipped xs []) (f xs [])

  pair-IsGoing :
      (x : StreamElement Out1) (y : StreamElement Out2) (es : List (StreamElement (Out1 × Out2)))
      → All IsGoing es
      → All IsGoing (pair_list (combine x y) ++ es)
  pair-IsGoing x y es = late-IsGoing (combine x y) es (combine-late x y 0 (Newer-zero x y))

  pair-IsInOrder :
      (low : Timestamp) (x : StreamElement Out1) (y : StreamElement Out2)
      (es : List (StreamElement (Out1 × Out2)))
      → Newer low x y
      → IsInOrder low es
      → IsInOrder low (pair_list (combine x y) ++ es)
  pair-IsInOrder low x y es n = late-IsInOrder low (combine x y) es (combine-late x y low n)

  zipped-IsGoing :
      (es : List (StreamElement (BinaryElement Out1 Out2))) (xs : List (StreamElement Out1))
      (ys : List (StreamElement Out2))
      → All IsGoing (zipped xs ys es)
  zipped-IsGoing [] xs ys = tt
  zipped-IsGoing (item (left x) ∷ es) xs ys =
      add_left-all (All IsGoing) (item x) xs ys (λ a b. zipped a b es) (pair-IsGoing (item x))
        (zipped-IsGoing es)
  zipped-IsGoing (timestamped (left x) ts ∷ es) xs ys =
      add_left-all (All IsGoing) (timestamped x ts) xs ys (λ a b. zipped a b es)
        (pair-IsGoing (timestamped x ts)) (zipped-IsGoing es)
  zipped-IsGoing (item (right y) ∷ es) xs ys =
      add_right-all (All IsGoing) (item y) xs ys (λ a b. zipped a b es)
        (λ x. pair-IsGoing x (item y)) (zipped-IsGoing es)
  zipped-IsGoing (timestamped (right y) ts ∷ es) xs ys =
      add_right-all (All IsGoing) (timestamped y ts) xs ys (λ a b. zipped a b es)
        (λ x. pair-IsGoing x (timestamped y ts)) (zipped-IsGoing es)
  zipped-IsGoing (item left_end ∷ es) xs ys = zipped-IsGoing es xs ys
  zipped-IsGoing (item right_end ∷ es) xs ys = zipped-IsGoing es xs ys
  zipped-IsGoing (timestamped left_end ts ∷ es) xs ys = zipped-IsGoing es xs ys
  zipped-IsGoing (timestamped right_end ts ∷ es) xs ys = zipped-IsGoing es xs ys
  zipped-IsGoing (watermark w ∷ es) xs ys = (tt, zipped-IsGoing es xs ys)
  zipped-IsGoing (flush_batch ∷ es) xs ys = (tt, zipped-IsGoing es xs ys)
  zipped-IsGoing (terminate ∷ es) xs ys = zipped-IsGoing es xs ys
  zipped-IsGoing (flush_and_restart ∷ es) xs ys = zipped-IsGoing es xs ys

  -- Every pair has the timestamp of its newer item, which no watermark has overtaken.
  zipped-IsInOrder :
      (low : Timestamp) (es : List (StreamElement (BinaryElement Out1 Out2)))
      (xs : List (StreamElement Out1)) (ys : List (StreamElement Out2))
      → IsInOrder low es
      → IsInOrder low (zipped xs ys es)
  zipped-IsInOrder low [] xs ys o = tt
  zipped-IsInOrder low (item (left x) ∷ es) xs ys o =
      add_left-all (IsInOrder low) (item x) xs ys (λ a b. zipped a b es)
        (λ y r. pair-IsInOrder low (item x) y r tt) (λ a b. zipped-IsInOrder low es a b o)
  zipped-IsInOrder low (timestamped (left x) ts ∷ es) xs ys o =
      add_left-all (IsInOrder low) (timestamped x ts) xs ys (λ a b. zipped a b es)
        (λ y r. pair-IsInOrder low (timestamped x ts) y r (Newer-left x ts low y o.0))
        (λ a b. zipped-IsInOrder low es a b o.1)
  zipped-IsInOrder low (item (right y) ∷ es) xs ys o =
      add_right-all (IsInOrder low) (item y) xs ys (λ a b. zipped a b es)
        (λ x r. pair-IsInOrder low x (item y) r (Newer-item y low x))
        (λ a b. zipped-IsInOrder low es a b o)
  zipped-IsInOrder low (timestamped (right y) ts ∷ es) xs ys o =
      add_right-all (IsInOrder low) (timestamped y ts) xs ys (λ a b. zipped a b es)
        (λ x r. pair-IsInOrder low x (timestamped y ts) r (Newer-right y ts low x o.0))
        (λ a b. zipped-IsInOrder low es a b o.1)
  zipped-IsInOrder low (item left_end ∷ es) xs ys o = zipped-IsInOrder low es xs ys o
  zipped-IsInOrder low (item right_end ∷ es) xs ys o = zipped-IsInOrder low es xs ys o
  zipped-IsInOrder low (timestamped left_end ts ∷ es) xs ys o = zipped-IsInOrder low es xs ys o.1
  zipped-IsInOrder low (timestamped right_end ts ∷ es) xs ys o = zipped-IsInOrder low es xs ys o.1
  zipped-IsInOrder low (watermark w ∷ es) xs ys o = (o.0, zipped-IsInOrder w es xs ys o.1)
  zipped-IsInOrder low (flush_batch ∷ es) xs ys o = zipped-IsInOrder low es xs ys o
  zipped-IsInOrder low (terminate ∷ es) xs ys o = zipped-IsInOrder low es xs ys o
  zipped-IsInOrder low (flush_and_restart ∷ es) xs ys o = zipped-IsInOrder low es xs ys o

  zip-Reworks :
      (timed : Bool)
      → Reworks
          (zip_next {Out1 = Out1} {Out2 = Out2})
          (λ s. s ≡ new)
          (IsUniform timed)
          (zipped [] [])
  unfolding zip_step
  zip-Reworks timed = record {
    iteration = λ s es rest p u. (new, refl, rw p (zip-iteration timed es [] [] rest tt tt tt u));
    ending = λ s p. ((new, []), rw p refl);
    data_only = λ es u. zipped-IsGoing es [] [];
  }

  stream-items :
      (its : List (List (StreamElement (BinaryElement Out1 Out2))))
      → All (λ es. all_items (zipped [] [] es) ≡ zip_all (lefts es) (rights es)) its
  stream-items [] = tt
  stream-items (es ∷ its) = (zipped-items es [] [] tt, stream-items its)

  -- A worker over a new `Zip` ends without a panic, given fuel for each element, when in the
  -- iterations of both streams all items have timestamps, or none has; the items that it passes on
  -- for an iteration are the pairs of the first item of the left with the first of the right, and
  -- so on as long as there are both, each with the later of the two timestamps.
  pub work-zipped :
      (timed : Bool) (fuel : ℕ) (its : List (List (StreamElement (BinaryElement Out1 Out2))))
      → All (IsUniform timed) its
      → length (stream (map (zipped [] []) its)) < fuel
      → (work (zip_next {Out1 = Out1} {Out2 = Out2}) fuel (new, stream its)
          ≡ some (stream (map (zipped [] []) its)))
        × All (λ es. all_items (zipped [] [] es) ≡ zip_all (lefts es) (rights es)) its
  work-zipped timed fuel its u h =
      (work-Reworks (zip-Reworks timed) fuel new its refl u h, stream-items its)

  -- If, in addition, no item of the two streams comes after a watermark over its timestamp, and the
  -- watermarks never go down, then the worker over a new `Zip` ends and the same holds of what it
  -- passes on: no pair comes after a watermark over its timestamp.
  pub work-IsInOrder :
      (timed : Bool) (fuel : ℕ) (its : List (List (StreamElement (BinaryElement Out1 Out2))))
      → All (IsUniform timed) its
      → All (IsInOrder 0) its
      → length (stream (map (zipped [] []) its)) < fuel
      → (work (zip_next {Out1 = Out1} {Out2 = Out2}) fuel (new, stream its)
          ≡ some (stream (map (zipped [] []) its)))
        × All (λ es. IsInOrder 0 (zipped [] [] es)) its
  work-IsInOrder timed fuel its u o h = (
    work-Reworks (zip-Reworks timed) fuel new its refl u h,
    All-map {Q = λ es. IsInOrder 0 (zipped [] [] es)} (λ es i. zipped-IsInOrder 0 es [] [] i) its o,
  )
