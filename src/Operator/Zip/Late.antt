-- ===== src/Operator/Zip/Late.antt =====
-- The timestamps of the pairs that `Zip` makes.
use renoir.Prelude.{◌≤◌, ◌≡◌, refl, Option, none, some, List, [], ◌∷◌, ◌++◌, All, max, arith}
use renoir.Stream.{
  Timestamp, StreamElement, item, timestamped, watermark, flush_batch, terminate, flush_and_restart,
}
use renoir.Stream.Run.{IsGoing}
use renoir.Operator.Reorder.Order.{IsInOrder}
use renoir.Operator.Zip.{combine}
use renoir.Operator.Zip.Iteration.{pair_list}

module _ {ℓ} {A : Type ℓ} where
  -- An item that no watermark of at least `low` has overtaken; any item, if it has no timestamp.
  abbrev pub IsLate : Timestamp → StreamElement A → Type 0
  IsLate low (item x) = Unit
  IsLate low (timestamped x ts) = low ≤ ts
  IsLate low _ = ⊥

  abbrev pub AreLate : Timestamp → Option (StreamElement A) → Type 0
  AreLate low none = Unit
  AreLate low (some e) = IsLate low e

  -- The items among the elements.
  abbrev pub all_items : List (StreamElement A) → List (StreamElement A)
  all_items [] = []
  all_items (item x ∷ es) = item x ∷ all_items es
  all_items (timestamped x ts ∷ es) = timestamped x ts ∷ all_items es
  all_items (_ ∷ es) = all_items es

  pub late-items :
      (o : Option (StreamElement A)) (es : List (StreamElement A))
      → AreLate 0 o
      → all_items (pair_list o ++ es) ≡ pair_list o ++ all_items es
  late-items none es h = refl
  late-items (some (item x)) es h = refl
  late-items (some (timestamped x ts)) es h = refl
  late-items (some (watermark w)) es h = absurd h
  late-items (some flush_batch) es h = absurd h
  late-items (some terminate) es h = absurd h
  late-items (some flush_and_restart) es h = absurd h

  pub late-IsGoing :
      (o : Option (StreamElement A)) (es : List (StreamElement A))
      → AreLate 0 o
      → All IsGoing es
      → All IsGoing (pair_list o ++ es)
  late-IsGoing none es h g = g
  late-IsGoing (some (item x)) es h g = (tt, g)
  late-IsGoing (some (timestamped x ts)) es h g = (tt, g)
  late-IsGoing (some (watermark w)) es h g = absurd h
  late-IsGoing (some flush_batch) es h g = absurd h
  late-IsGoing (some terminate) es h g = absurd h
  late-IsGoing (some flush_and_restart) es h g = absurd h

  pub late-IsInOrder :
      (low : Timestamp) (o : Option (StreamElement A)) (es : List (StreamElement A))
      → AreLate low o
      → IsInOrder low es
      → IsInOrder low (pair_list o ++ es)
  late-IsInOrder low none es h g = g
  late-IsInOrder low (some (item x)) es h g = g
  late-IsInOrder low (some (timestamped x ts)) es h g = (h, g)
  late-IsInOrder low (some (watermark w)) es h g = absurd h
  late-IsInOrder low (some flush_batch) es h g = absurd h
  late-IsInOrder low (some terminate) es h g = absurd h
  late-IsInOrder low (some flush_and_restart) es h g = absurd h

module _ {ℓ} {Out1 Out2 : Type ℓ} where
  -- A pair has the later of the two timestamps.
  abbrev pub Newer : Timestamp → StreamElement Out1 → StreamElement Out2 → Type 0
  Newer low (timestamped x t) (timestamped y u) = low ≤ max t u
  Newer low _ _ = Unit

  pub combine-late :
      (x : StreamElement Out1) (y : StreamElement Out2) (low : Timestamp)
      → Newer low x y
      → AreLate low (combine x y)
  combine-late (item x) (item y) low h = tt
  combine-late (item x) (timestamped y u) low h = tt
  combine-late (item x) (watermark v) low h = tt
  combine-late (item x) flush_batch low h = tt
  combine-late (item x) terminate low h = tt
  combine-late (item x) flush_and_restart low h = tt
  combine-late (timestamped x t) (item y) low h = tt
  combine-late (timestamped x t) (timestamped y u) low h = h
  combine-late (timestamped x t) (watermark v) low h = tt
  combine-late (timestamped x t) flush_batch low h = tt
  combine-late (timestamped x t) terminate low h = tt
  combine-late (timestamped x t) flush_and_restart low h = tt
  combine-late (watermark w) y low h = tt
  combine-late flush_batch y low h = tt
  combine-late terminate y low h = tt
  combine-late flush_and_restart y low h = tt

  pub Newer-left :
      (x : Out1) (ts low : Timestamp) (y : StreamElement Out2)
      → low ≤ ts
      → Newer low (timestamped x ts) y
  Newer-left x ts low (timestamped y u) h = omega arith
  Newer-left x ts low (item y) h = tt
  Newer-left x ts low (watermark v) h = tt
  Newer-left x ts low flush_batch h = tt
  Newer-left x ts low terminate h = tt
  Newer-left x ts low flush_and_restart h = tt

  pub Newer-right :
      (y : Out2) (ts low : Timestamp) (x : StreamElement Out1)
      → low ≤ ts
      → Newer low x (timestamped y ts)
  Newer-right y ts low (timestamped x t) h = omega arith
  Newer-right y ts low (item x) h = tt
  Newer-right y ts low (watermark w) h = tt
  Newer-right y ts low flush_batch h = tt
  Newer-right y ts low terminate h = tt
  Newer-right y ts low flush_and_restart h = tt

  pub Newer-zero : (x : StreamElement Out1) (y : StreamElement Out2) → Newer 0 x y
  Newer-zero (timestamped x t) (timestamped y u) = omega arith
  Newer-zero (item x) (item y) = tt
  Newer-zero (item x) (timestamped y u) = tt
  Newer-zero (item x) (watermark v) = tt
  Newer-zero (item x) flush_batch = tt
  Newer-zero (item x) terminate = tt
  Newer-zero (item x) flush_and_restart = tt
  Newer-zero (timestamped x t) (item y) = tt
  Newer-zero (timestamped x t) (watermark v) = tt
  Newer-zero (timestamped x t) flush_batch = tt
  Newer-zero (timestamped x t) terminate = tt
  Newer-zero (timestamped x t) flush_and_restart = tt
  Newer-zero (watermark w) y = tt
  Newer-zero flush_batch y = tt
  Newer-zero terminate y = tt
  Newer-zero flush_and_restart y = tt

  pub Newer-item : (y : Out2) (low : Timestamp) (x : StreamElement Out1) → Newer low x (item y)
  Newer-item y low (timestamped x t) = tt
  Newer-item y low (item x) = tt
  Newer-item y low (watermark w) = tt
  Newer-item y low flush_batch = tt
  Newer-item y low terminate = tt
  Newer-item y low flush_and_restart = tt
