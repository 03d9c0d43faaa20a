-- ===== src/Operator/LimitSorted.antt =====
-- src/operator/limit_sorted.rs: some items of an iteration, sorted or not.
pub mod Iteration
pub mod Correct
mod Tests
use renoir.Prelude.{
  ℕ, zero, suc, ◌-◌, min, max, Bool, true, false, Option, none, some, List, [], ◌∷◌, ◌++◌, length,
  drop, if◌then◌else◌,
}
use renoir.Stream.{
  Timestamp, StreamElement, item, timestamped, watermark, flush_batch, terminate, flush_and_restart,
}
use renoir.Stream.Run.{Upstream}
use renoir.Stream.Fallible.{Call}
use renoir.Operator.Fold.{raise}

pub data State {ℓ} (T : Type ℓ) : Type ℓ where
  accumulating : List T → State T
  sorting : List T → State T
  flushing : List T → ℕ → State T
  restarting terminating : State T

pub record LimitSorted {ℓ} (T : Type ℓ) : Type ℓ where
  pub limit : Option ℕ
  pub offset : Option ℕ
  pub sorted : Bool
  pub state : State T
  pub timestamp : Option Timestamp
  pub max_watermark : Option Timestamp
  pub received_end : Bool

module _ {ℓ} {T : Type ℓ} where
  -- The arm of `Sorting`.
  abbrev pub skip : Option ℕ → List T → List T
  skip none items = items
  skip (some offset) items = drop offset items

  abbrev pub allowed : Option ℕ → List T → ℕ
  allowed none items = length items
  allowed (some limit) items = min limit (length items)

module _ {ℓ} {T : Type ℓ} (sort : List T → List T) where
  abbrev pub new : Option ℕ → Option ℕ → Bool → LimitSorted T
  new limit offset sorted = record {
    limit = limit;
    offset = offset;
    sorted = sorted;
    state = accumulating [];
    timestamp = none;
    max_watermark = none;
    received_end = false;
  }

  -- The arm of `Accumulating`.
  abbrev pub accumulate : List T → StreamElement T → LimitSorted T → LimitSorted T
  accumulate buf terminate s = record s { received_end = true; state = sorting buf }
  accumulate buf flush_and_restart s = record s { state = sorting buf }
  accumulate buf (watermark ts) s = record s { max_watermark = raise s.max_watermark ts }
  accumulate buf (item x) s = record s { state = accumulating (buf ++ x ∷ []) }
  accumulate buf (timestamped x ts) s = record s {
    timestamp = raise s.timestamp ts;
    state = accumulating (buf ++ x ∷ []);
  }
  accumulate buf flush_batch s = s

  abbrev pub selected : LimitSorted T → List T → List T
  selected s items = skip s.offset (if s.sorted then sort items else items)

  abbrev pub sort_items : List T → LimitSorted T → LimitSorted T
  sort_items items s = record s {
    state = flushing (selected s items) (allowed s.limit (selected s items));
  }

  -- The arm of `Flushing` for an item.
  abbrev pub emit : Option Timestamp → T → StreamElement T
  emit (some ts) x = timestamped x ts
  emit none x = item x

  -- `Restarting`.
  abbrev pub restart : LimitSorted T → Upstream T → Call T (LimitSorted T × Upstream T)
  restart s prev = some (flush_and_restart, (record s { state = accumulating [] }, prev))

  abbrev pub flushed_watermark :
      Option Timestamp → LimitSorted T → Upstream T → Call T (LimitSorted T × Upstream T)
  flushed_watermark (some w) s prev = some (watermark w, (record s { state = restarting }, prev))
  flushed_watermark none s prev = restart s prev

  abbrev pub flush_end : LimitSorted T → Upstream T → Call T (LimitSorted T × Upstream T)
  flush_end s prev =
      if s.received_end
      then some (flush_and_restart, (record s { state = terminating }, prev))
      else flushed_watermark s.max_watermark s prev

  -- The arm of `Flushing`; taking from an empty iterator panics.
  abbrev pub flush_items :
      List T → ℕ → LimitSorted T → Upstream T → Call T (LimitSorted T × Upstream T)
  flush_items items zero s prev = flush_end s prev
  flush_items [] (suc count) s prev = none
  flush_items (x ∷ items) (suc count) s prev =
      some (emit s.timestamp x, (record s { state = flushing items count }, prev))

  -- The states that do not read; `reading` is the arm of `Accumulating`.
  abbrev pub act :
      State T
      → LimitSorted T
      → Upstream T
      → (List T → Call T (LimitSorted T × Upstream T))
      → Call T (LimitSorted T × Upstream T)
  act (accumulating buf) s prev reading = reading buf
  act (sorting items) s prev reading =
      flush_items (selected s items) (allowed s.limit (selected s items)) (sort_items items s) prev
  act (flushing items count) s prev reading = flush_items items count s prev
  act restarting s prev reading = restart s prev
  act terminating s prev reading = some (terminate, (s, prev))

  unfoldable pub limit_next : LimitSorted T × Upstream T → Call T (LimitSorted T × Upstream T)
  limit_next (s, []) =
      act s.state s []
        (λ buf. let s' = accumulate buf terminate s in act s'.state s' [] (λ more. none))
  limit_next (s, e ∷ prev) = act s.state s (e ∷ prev) (λ buf. limit_next (accumulate buf e s, prev))
