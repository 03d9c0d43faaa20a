-- ===== src/Operator/DropTimestamp.antt =====
-- src/operator/add_timestamps.rs: `DropTimestamp`, which forgets timestamps and watermarks.
use renoir.Prelude.{
  ℕ, ◌<◌, ◌≤◌, arith, length, ◌≡◌, refl, Option, none, some, List, [], ◌∷◌, ◌++◌, map, All, All-map,
}
use renoir.Stream.{
  StreamElement, item, timestamped, watermark, flush_batch, terminate, flush_and_restart,
}
use renoir.Stream.Run.{
  Upstream, IsData, IsGoing, IsData-IsGoing, Emits, Emits-absorb, Transforms, do_work,
  do_work-Emits, do_work-Transforms, stream,
}

module _ {ℓ} {A : Type ℓ} where
  -- What is returned for an element; a watermark is skipped.
  abbrev pub dropped : StreamElement A → Option (StreamElement A)
  dropped (watermark ts) = none
  dropped (timestamped x ts) = some (item x)
  dropped (item x) = some (item x)
  dropped flush_batch = some flush_batch
  dropped terminate = some terminate
  dropped flush_and_restart = some flush_and_restart

  unfoldable pub drop_timestamp_next :
      Unit {ℓ} × Upstream A → StreamElement A × (Unit {ℓ} × Upstream A)
  drop_timestamp_next (u, []) = (terminate, (u, []))
  drop_timestamp_next (u, e ∷ prev) =
      let rest = drop_timestamp_next (u, prev) in
      elim (dropped e) [ none ↦ rest | some r ↦ (r, (u, prev)) ]

  -- The items without their timestamps, and the flushes.
  abbrev pub untimed : List (StreamElement A) → List (StreamElement A)
  untimed [] = []
  untimed (item x ∷ xs) = item x ∷ untimed xs
  untimed (timestamped x ts ∷ xs) = item x ∷ untimed xs
  untimed (watermark ts ∷ xs) = untimed xs
  untimed (e ∷ xs) = e ∷ untimed xs

  untimed-IsGoing : (es : List (StreamElement A)) → All IsGoing es → All IsGoing (untimed es)
  untimed-IsGoing [] d = tt
  untimed-IsGoing (item x ∷ es) d = (tt, untimed-IsGoing es d.1)
  untimed-IsGoing (timestamped x ts ∷ es) d = (tt, untimed-IsGoing es d.1)
  untimed-IsGoing (watermark ts ∷ es) d = untimed-IsGoing es d.1
  untimed-IsGoing (flush_batch ∷ es) d = (tt, untimed-IsGoing es d.1)
  untimed-IsGoing (terminate ∷ es) d = absurd d.0
  untimed-IsGoing (flush_and_restart ∷ es) d = (tt, untimed-IsGoing es d.1)

  drop_timestamp_iteration :
      (u : Unit {ℓ}) (xs : List (StreamElement A)) (rest : Upstream A)
      → All IsData xs
      → Emits drop_timestamp_next
          (u, xs ++ flush_and_restart ∷ rest)
          (untimed xs ++ flush_and_restart ∷ [])
          (u, rest)
  unfolding drop_timestamp_next
  drop_timestamp_iteration u [] rest d = (refl, refl)
  drop_timestamp_iteration u (item x ∷ xs) rest d = (refl, drop_timestamp_iteration u xs rest d.1)
  drop_timestamp_iteration u (timestamped x ts ∷ xs) rest d =
      (refl, drop_timestamp_iteration u xs rest d.1)
  drop_timestamp_iteration u (watermark ts ∷ xs) rest d =
      Emits-absorb drop_timestamp_next (u, watermark ts ∷ (xs ++ flush_and_restart ∷ rest))
        (u, xs ++ flush_and_restart ∷ rest) (u, rest) flush_and_restart (untimed xs) refl
        (drop_timestamp_iteration u xs rest d.1)
  drop_timestamp_iteration u (flush_batch ∷ xs) rest d =
      (refl, drop_timestamp_iteration u xs rest d.1)
  drop_timestamp_iteration u (terminate ∷ xs) rest d = absurd d.0
  drop_timestamp_iteration u (flush_and_restart ∷ xs) rest d = absurd d.0

  drop_timestamp-Transforms : Transforms drop_timestamp_next (λ u. Unit {ℓ}) untimed
  unfolding drop_timestamp_next
  drop_timestamp-Transforms = record {
    iteration = λ u xs rest idle d. (u, tt, drop_timestamp_iteration u xs rest d);
    ending = λ u idle. refl;
    data_only = λ xs d. untimed-IsGoing xs (All-map IsData-IsGoing xs d);
  }

  -- A worker over `DropTimestamp` ends, given fuel for each element, when the stream consists of
  -- iterations of data; it passes on the items in order without their timestamps, and the flushes,
  -- and no watermark.
  pub do_work-drop_timestamp :
      (fuel : ℕ) (its : List (List (StreamElement A)))
      → All (All IsData) its
      → length (stream (map untimed its)) < fuel
      → do_work drop_timestamp_next fuel (tt, stream its) ≡ some (stream (map untimed its))
  do_work-drop_timestamp fuel its d h =
      do_work-Transforms drop_timestamp-Transforms fuel tt its tt d h

  untimed-Emits :
      (u : Unit {ℓ}) (es : List (StreamElement A))
      → All IsGoing es
      → Emits drop_timestamp_next (u, es) (untimed es ++ terminate ∷ []) (u, [])
  unfolding drop_timestamp_next
  untimed-Emits u [] d = (refl, refl)
  untimed-Emits u (item x ∷ es) d = (refl, untimed-Emits u es d.1)
  untimed-Emits u (timestamped x ts ∷ es) d = (refl, untimed-Emits u es d.1)
  untimed-Emits u (watermark ts ∷ es) d =
      Emits-absorb drop_timestamp_next (u, watermark ts ∷ es) (u, es) (u, []) terminate (untimed es)
        refl (untimed-Emits u es d.1)
  untimed-Emits u (flush_batch ∷ es) d = (refl, untimed-Emits u es d.1)
  untimed-Emits u (terminate ∷ es) d = absurd d.0
  untimed-Emits u (flush_and_restart ∷ es) d = (refl, untimed-Emits u es d.1)

  pub length-untimed : (es : List (StreamElement A)) → length (untimed es) ≤ length es
  length-untimed [] = omega arith
  length-untimed (item x ∷ es) = omega (arith, length-untimed es)
  length-untimed (timestamped x ts ∷ es) = omega (arith, length-untimed es)
  length-untimed (watermark ts ∷ es) = omega (arith, length-untimed es)
  length-untimed (flush_batch ∷ es) = omega (arith, length-untimed es)
  length-untimed (terminate ∷ es) = omega (arith, length-untimed es)
  length-untimed (flush_and_restart ∷ es) = omega (arith, length-untimed es)

  -- The same for any elements before the stream terminates.
  pub do_work-untimed :
      (fuel : ℕ) (es : List (StreamElement A))
      → All IsGoing es
      → length es < fuel
      → do_work drop_timestamp_next fuel (tt, es) ≡ some (untimed es)
  do_work-untimed fuel es d h =
      do_work-Emits drop_timestamp_next fuel (tt, es) (tt, []) (untimed es)
        (omega (arith, length-untimed es)) (untimed-IsGoing es d) (untimed-Emits tt es d)
