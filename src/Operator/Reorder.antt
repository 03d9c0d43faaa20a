-- ===== src/Operator/Reorder.antt =====
-- src/operator/reorder.rs. The sort (glidesort) is a parameter; the scratch memory that it is given
-- holds no state of the operator.
pub mod Iteration
pub mod Order
use renoir.Prelude.{
  Bool, true, false, not, ◌&&◌, Option, none, some, List, [], ◌∷◌, ◌++◌, leb, if◌then◌else◌,
  is_some,
}
use renoir.Stream.{
  Timestamp, StreamElement, item, timestamped, watermark, flush_batch, terminate, flush_and_restart,
}
use renoir.Stream.Run.{Upstream}

pub record TimestampedItem {ℓ} (A : Type ℓ) : Type ℓ where
  pub value : A
  pub timestamp : Timestamp

pub record Reorder {ℓ} (A : Type ℓ) : Type ℓ where
  pub buffer : List (TimestampedItem A)
  pub last_watermark : Option Timestamp
  pub received_end : Bool

abbrev pub new {ℓ} : {A : Type ℓ} → Reorder A
new = record { buffer = []; last_watermark = none; received_end = false }

module _ {ℓ} {A : Type ℓ} (sort : List (TimestampedItem A) → List (TimestampedItem A)) where
  -- The test of the `while` loop.
  abbrev pub is_filling : Reorder A → Bool
  is_filling s = not s.received_end && not (is_some s.last_watermark)

  -- The arms of the loop that go on.
  abbrev pub absorb : Reorder A → StreamElement A → Reorder A
  absorb s (timestamped x ts) = record s {
    buffer = s.buffer ++ record { value = x; timestamp = ts } ∷ [];
  }
  absorb s (watermark ts) = record s { last_watermark = some ts; buffer = sort s.buffer }
  absorb s flush_and_restart = record s { received_end = true; buffer = sort s.buffer }
  absorb s _ = s

  -- The arms that return.
  abbrev pub returned : StreamElement A → Option (StreamElement A)
  returned (item x) = some (item x)
  returned flush_batch = some flush_batch
  returned terminate = some terminate
  returned _ = none

  abbrev pub emit : TimestampedItem A → StreamElement A
  emit e = timestamped e.value e.timestamp

  -- What follows the loop.
  unfoldable pub release : Reorder A → StreamElement A × Reorder A
  release s = elim s.last_watermark [
    | some w ↦ elim s.buffer [
      | front ∷ rest ↦
          if leb front.timestamp w
          then (emit front, record s { buffer = rest })
          else (watermark w, record s { last_watermark = none })
      | [] ↦ (watermark w, record s { last_watermark = none })
    ]
    | none ↦ elim s.buffer [
      | front ∷ rest ↦ (emit front, record s { buffer = rest })
      | [] ↦ (flush_and_restart, record s { received_end = false })
    ]
  ]

  abbrev pub released : Reorder A → Upstream A → StreamElement A × (Reorder A × Upstream A)
  released s prev = let (e, s') = release s in (e, (s', prev))

  unfoldable pub reorder_next : Reorder A × Upstream A → StreamElement A × (Reorder A × Upstream A)
  unfolding release
  reorder_next (s, []) = if is_filling s then (terminate, (s, [])) else released s []
  reorder_next (s, e ∷ prev) =
      let more = reorder_next (absorb s e, prev) in
      if is_filling s
      then (elim (returned e) [ some r ↦ (r, (s, prev)) | none ↦ more ])
      else released s (e ∷ prev)
