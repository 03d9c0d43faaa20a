-- ===== src/Operator/Reorder/Order.antt =====
-- The order that `Reorder` establishes, for a sort that sorts.
use mathlib.Core.Path.{subst}
use native.Mathlib.Bridge.{le_prop}
use mathlib.Core.HLevel.{×_prop}
use mathlib.Core.Logic.{∥∥₁_elim}
use mathlib.Core.List.{Perm, Permᴰ}
use mathlib.Core.List.Perm
use renoir.Prelude.{
  ◌≡◌, refl, sym, ap, append-nil, append_assoc, List, [], ◌∷◌, ◌++◌, ◌≤◌, map, All, All-append,
  arith, leb, ℕ, ◌<◌, length, some, Bool-cases, inl, inr,
}
use renoir.Stream.{
  Timestamp, StreamElement, item, timestamped, watermark, flush_batch, terminate, flush_and_restart,
}
use renoir.Stream.Run.{IsData, do_work, stream}
use renoir.Operator.Reorder.{TimestampedItem, emit, new as reorder_new, reorder_next}
use renoir.Operator.Reorder.Iteration.{ready, waiting, reordered, do_work-reorder}

module _ {ℓ} {A : Type ℓ} where
  abbrev pub From : Timestamp → List (TimestampedItem A) → Type 0
  From low = All (λ e. low ≤ e.timestamp)

  abbrev pub IsSorted : List (TimestampedItem A) → Type 0
  IsSorted [] = Unit
  IsSorted (e ∷ es) = From e.timestamp es × IsSorted es

  -- No item comes after a watermark that is over its timestamp, and no watermark after a higher one.
  abbrev pub IsInOrder : Timestamp → List (StreamElement A) → Type 0
  IsInOrder low [] = Unit
  IsInOrder low (timestamped x ts ∷ xs) = (low ≤ ts) × IsInOrder low xs
  IsInOrder low (watermark w ∷ xs) = (low ≤ w) × IsInOrder w xs
  IsInOrder low (_ ∷ xs) = IsInOrder low xs

  -- The timestamps, those of the watermarks included, never go down.
  abbrev pub IsAscending : Timestamp → List (StreamElement A) → Type 0
  IsAscending low [] = Unit
  IsAscending low (timestamped x ts ∷ xs) = (low ≤ ts) × IsAscending ts xs
  IsAscending low (watermark w ∷ xs) = (low ≤ w) × IsAscending w xs
  IsAscending low (_ ∷ xs) = IsAscending low xs

  abbrev pub timestamped_items : List (StreamElement A) → List (TimestampedItem A)
  timestamped_items [] = []
  timestamped_items (timestamped x ts ∷ xs) =
      record { value = x; timestamp = ts } ∷ timestamped_items xs
  timestamped_items (_ ∷ xs) = timestamped_items xs

  From-prop : (low : Timestamp) (es : List (TimestampedItem A)) → IsProp (From low es)
  From-prop low [] = hlevel
  From-prop low (e ∷ es) = ×_prop le_prop (From-prop low es)

  From-permᴰ :
      (low : Timestamp) {es fs : List (TimestampedItem A)} → Permᴰ es fs → From low es → From low fs
  From-permᴰ low Permᴰ.nil h = h
  From-permᴰ low (Permᴰ.cons e p) h =
      (subst (λ (z : TimestampedItem A). low ≤ z.timestamp) e h.0, From-permᴰ low p h.1)
  From-permᴰ low (Permᴰ.swap e f) h = (
    subst (λ (z : TimestampedItem A). low ≤ z.timestamp) f h.1.0,
    (subst (λ (z : TimestampedItem A). low ≤ z.timestamp) e h.0, h.1.1),
  )
  From-permᴰ low (Permᴰ.trans p q) h = From-permᴰ low q (From-permᴰ low p h)

  From-perm :
      (low : Timestamp) (es fs : List (TimestampedItem A)) → Perm es fs → From low es → From low fs
  From-perm low es fs p h = ∥∥₁_elim p (From-prop low fs) (λ q. From-permᴰ low q h)

  ready-append-waiting :
      (w : Timestamp) (es : List (TimestampedItem A)) → (ready w es ++ waiting w es) ≡ es
  ready-append-waiting w [] = refl
  ready-append-waiting w (e ∷ es) = ground (arith, ready-append-waiting w es)

  From-mono :
      (low high : Timestamp) (es : List (TimestampedItem A))
      → low ≤ high
      → From high es
      → From low es
  From-mono low high [] h f = tt
  From-mono low high (e ∷ es) h f = (omega arith, From-mono low high es h f.1)

  From-waiting :
      (w : Timestamp) (es : List (TimestampedItem A)) → IsSorted es → From w (waiting w es)
  From-waiting w [] s = tt
  From-waiting w (e ∷ es) s = ground (arith, From-waiting w es s.1, From-mono w e.timestamp es)

module _ {ℓ} {A : Type ℓ} (sort : List (TimestampedItem A) → List (TimestampedItem A)) where
  sorted-IsAscending :
      (low : Timestamp) (es : List (TimestampedItem A))
      → From low es
      → IsSorted es
      → IsAscending low (map (emit sort) es)
  sorted-IsAscending low [] f s = tt
  sorted-IsAscending low (e ∷ es) f s = (f.0, sorted-IsAscending e.timestamp es s.0 s.1)

  ready-IsAscending :
      (low w : Timestamp) (es : List (TimestampedItem A)) (xs : List (StreamElement A))
      → low ≤ w
      → From low es
      → IsSorted es
      → IsAscending w xs
      → IsAscending low (map (emit sort) (ready w es) ++ watermark w ∷ xs)
  ready-IsAscending low w [] xs l f s a = (l, a)
  ready-IsAscending low w (e ∷ es) xs l f s a = elim (Bool-cases (leb e.timestamp w)) [
    | inl due ↦
        let le : e.timestamp ≤ w = ground arith in
        rw due (f.0, ready-IsAscending e.timestamp w es xs le s.0 s.1 a)
    | inr early ↦ rw early (l, a)
  ]

  timestamped_items-emit :
      (es : List (TimestampedItem A)) (xs : List (StreamElement A))
      → timestamped_items (map (emit sort) es ++ xs) ≡ es ++ timestamped_items xs
  timestamped_items-emit [] xs = refl
  timestamped_items-emit (e ∷ es) xs = ap (λ l. e ∷ l) (timestamped_items-emit es xs)

  timestamped_items-map :
      (es : List (TimestampedItem A)) → timestamped_items (map (emit sort) es) ≡ es
  timestamped_items-map [] = refl
  timestamped_items-map (e ∷ es) = ap (λ l. e ∷ l) (timestamped_items-map es)

  module _ (sorts : (es : List (TimestampedItem A)) → IsSorted (sort es))
      (perm : (es : List (TimestampedItem A)) → Perm (sort es) es) where
    From-sort : (low : Timestamp) (es : List (TimestampedItem A)) → From low es → From low (sort es)
    From-sort low es = From-perm low es (sort es) (Perm.symm (perm es))

    reordered-IsAscending :
        (low : Timestamp) (buf : List (TimestampedItem A)) (xs : List (StreamElement A))
        → From low buf
        → IsInOrder low xs
        → IsAscending low (reordered sort buf xs)
    reordered-IsAscending low buf [] f o =
        sorted-IsAscending low (sort buf) (From-sort low buf f) (sorts buf)
    reordered-IsAscending low buf (timestamped x ts ∷ xs) f o =
        reordered-IsAscending low _ xs (All-append (λ e. low ≤ e.timestamp) buf _ f (o.0, tt)) o.1
    reordered-IsAscending low buf (watermark w ∷ xs) f o =
        ready-IsAscending low w (sort buf) (reordered sort (waiting w (sort buf)) xs) o.0
          (From-sort low buf f) (sorts buf)
          (reordered-IsAscending w (waiting w (sort buf)) xs (From-waiting w (sort buf) (sorts buf))
            o.1)
    reordered-IsAscending low buf (item x ∷ xs) f o = reordered-IsAscending low buf xs f o
    reordered-IsAscending low buf (flush_batch ∷ xs) f o = reordered-IsAscending low buf xs f o
    reordered-IsAscending low buf (terminate ∷ xs) f o = reordered-IsAscending low buf xs f o
    reordered-IsAscending low buf (flush_and_restart ∷ xs) f o =
        reordered-IsAscending low buf xs f o

    reordered-perm :
        (buf : List (TimestampedItem A)) (xs : List (StreamElement A))
        → Perm (timestamped_items (reordered sort buf xs)) (buf ++ timestamped_items xs)
    reordered-perm buf [] = rw (timestamped_items-map (sort buf), append-nil) (perm buf)
    reordered-perm buf (timestamped x ts ∷ xs) =
        rw
          (sym
            (append_assoc buf (record { value = x; timestamp = ts } ∷ []) (timestamped_items xs)))
          (reordered-perm _ xs)
    reordered-perm buf (watermark w ∷ xs) = rw (timestamped_items-emit (ready w (sort buf)) _) (
        Perm.trans
          (Perm.append_left (ready w (sort buf)) (reordered-perm (waiting w (sort buf)) xs))
          (rw
            (
              sym (append_assoc (ready w (sort buf)) (waiting w (sort buf)) (timestamped_items xs)),
              ready-append-waiting w (sort buf),
            )
            (Perm.append_right (timestamped_items xs) (perm buf))))
    reordered-perm buf (item x ∷ xs) = reordered-perm buf xs
    reordered-perm buf (flush_batch ∷ xs) = reordered-perm buf xs
    reordered-perm buf (terminate ∷ xs) = reordered-perm buf xs
    reordered-perm buf (flush_and_restart ∷ xs) = reordered-perm buf xs

    iterations-IsAscending :
        (its : List (List (StreamElement A)))
        → All (IsInOrder 0) its
        → All (IsAscending 0) (map (reordered sort []) its)
    iterations-IsAscending [] o = tt
    iterations-IsAscending (xs ∷ its) o =
        (reordered-IsAscending 0 [] xs tt o.0, iterations-IsAscending its o.1)

    -- If, in each iteration of data, no item comes after a watermark over its timestamp and the
    -- watermarks never go down, then a worker over a new `Reorder` ends, given fuel for each
    -- element, and in each iteration that it passes on the timestamps, those of the watermarks
    -- included, never go down. The sort is one that sorts and permutes its input.
    pub do_work-IsAscending :
        (fuel : ℕ) (its : List (List (StreamElement A)))
        → All (All IsData) its
        → length (stream (map (reordered sort []) its)) < fuel
        → All (IsInOrder 0) its
        → (do_work (reorder_next sort) fuel (reorder_new, stream its)
            ≡ some (stream (map (reordered sort []) its)))
          × All (IsAscending 0) (map (reordered sort []) its)
    do_work-IsAscending fuel its d h o =
        (do_work-reorder sort fuel its d h, iterations-IsAscending its o)

    iterations-Perm :
        (its : List (List (StreamElement A)))
        → All (λ xs. Perm (timestamped_items (reordered sort [] xs)) (timestamped_items xs)) its
    iterations-Perm [] = tt
    iterations-Perm (xs ∷ its) = (reordered-perm [] xs, iterations-Perm its)

    -- A worker over a new `Reorder` ends on iterations of data, given fuel for each element, and
    -- each iteration that it passes on has exactly the timestamped items that the iteration had,
    -- each as often. The sort is one that sorts and permutes its input.
    pub do_work-Perm :
        (fuel : ℕ) (its : List (List (StreamElement A)))
        → All (All IsData) its
        → length (stream (map (reordered sort []) its)) < fuel
        → (do_work (reorder_next sort) fuel (reorder_new, stream its)
            ≡ some (stream (map (reordered sort []) its)))
          × All (λ xs. Perm (timestamped_items (reordered sort [] xs)) (timestamped_items xs)) its
    do_work-Perm fuel its d h = (do_work-reorder sort fuel its d h, iterations-Perm its)
