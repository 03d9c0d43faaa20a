-- ===== src/Operator/Fold.antt =====
-- src/operator/fold.rs
pub mod Summary
pub mod Iteration
use renoir.Prelude.{Bool, true, false, Option, none, some, List, [], ◌∷◌, max, if◌then◌else◌}
use renoir.Stream.{
  Timestamp, StreamElement, item, timestamped, watermark, flush_batch, terminate, flush_and_restart,
}
use renoir.Stream.Run.{Upstream}

pub record Fold {ℓ} (O : Type ℓ) : Type ℓ where
  pub init : O
  pub accumulator : Option O
  pub timestamp : Option Timestamp
  pub max_watermark : Option Timestamp
  pub received_end : Bool
  pub received_end_iter : Bool

-- `Some(old.unwrap_or(ts).max(ts))`
abbrev pub raise : Option Timestamp → Timestamp → Option Timestamp
raise none ts = some ts
raise (some t) ts = some (max t ts)

module _ {ℓ} {A O : Type ℓ} (fold : O → A → O) where
  abbrev pub new : O → Fold O
  new init = record {
    init = init;
    accumulator = none;
    timestamp = none;
    max_watermark = none;
    received_end = false;
    received_end_iter = false;
  }

  -- The accumulator with one more item; it starts as a copy of `init`.
  abbrev pub accumulate : Option O → O → A → O
  accumulate none init x = fold init x
  accumulate (some acc) init x = fold acc x

  -- The body of the `while` loop on one element.
  unfoldable pub absorb : Fold O → StreamElement A → Fold O
  absorb s terminate = record s { received_end = true }
  absorb s flush_and_restart = record s { received_end = true; received_end_iter = true }
  absorb s (watermark ts) = record s { max_watermark = raise s.max_watermark ts }
  absorb s (item x) = record s { accumulator = some (accumulate s.accumulator s.init x) }
  absorb s (timestamped x ts) = record s {
    timestamp = raise s.timestamp ts;
    accumulator = some (accumulate s.accumulator s.init x);
  }
  absorb s flush_batch = s

  -- `while !self.received_end`
  unfoldable pub fill : Fold O → Upstream A → Fold O × Upstream A
  unfolding absorb
  fill s [] = if s.received_end then (s, []) else (absorb s terminate, [])
  fill s (e ∷ prev) =
      let rest = fill (absorb s e) prev in if s.received_end then (s, e ∷ prev) else rest

  -- What follows the loop.
  unfoldable pub release : Fold O → StreamElement O × Fold O
  release s = elim s.accumulator [
    | some acc ↦ elim s.timestamp [
      | some ts ↦ (timestamped acc ts, record s { accumulator = none; timestamp = none })
      | none ↦ (item acc, record s { accumulator = none })
    ]
    | none ↦ elim s.max_watermark [
      | some ts ↦ (watermark ts, record s { max_watermark = none })
      | none ↦
          if s.received_end_iter
          then (flush_and_restart, record s { received_end_iter = false; received_end = false })
          else (terminate, s)
    ]
  ]

  unfoldable pub fold_next : Fold O × Upstream A → StreamElement O × (Fold O × Upstream A)
  unfolding fill release
  fold_next (s, prev) =
      let (s', prev') = fill s prev in let (e, s'') = release s' in (e, (s'', prev'))
