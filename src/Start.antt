-- ===== src/Start.antt =====
-- src/operator/start/mod.rs: the operator that starts a block (`Start`), over what the network
-- delivers.
pub mod Flat
pub mod Refine
pub mod Ledger
pub mod Calls
mod Tests
use renoir.Prelude.{
  ℕ, ◌-◌, ◌+◌, Bool, true, false, not, ◌&&◌, Option, none, some, List, [], ◌∷◌, length, ◌==◌,
  if◌then◌else◌,
}
use renoir.Stream.{
  Timestamp, timestamp_max, StreamElement, item, timestamped, watermark, flush_batch, terminate,
  flush_and_restart,
}
use renoir.Frontier.{WatermarkFrontier, new as frontier_new, update, reset}
use renoir.Frontier.Map.{Coord}

-- What the receiver meets next: a message with its sender and its batch, or `max_delay` without one.
pub data Arrival {ℓ} (A : Type ℓ) : Type ℓ where
  message : Coord → List (StreamElement A) → Arrival A
  silence : Arrival A

-- The lock on the iteration state only blocks the caller, so only `wait_for_state` and the
-- generation that it waits for are kept. Of `max_delay` it is kept whether there is one.
pub record Start {ℓ} (A : Type ℓ) : Type ℓ where
  pub max_delay : Bool
  pub batch_iter : Option (Coord × List (StreamElement A))
  pub missing_terminate : ℕ
  pub missing_flush_and_restart : ℕ
  pub num_previous_replicas : ℕ
  pub flushed_batch : Bool
  pub already_timed_out : Bool
  pub watermark_frontier : WatermarkFrontier
  pub wait_for_state : Bool
  pub state_generation : ℕ

-- A call that returns, one that still waits for a message, and one that panics.
pub data Outcome {ℓ} (A : Type ℓ) : Type ℓ where
  returns : StreamElement A → Start A → List (Arrival A) → Outcome A
  waits : Start A → Outcome A
  panics : Outcome A

-- What the rounds of the loop over the current batch come to.
pub data Drained {ℓ} (A : Type ℓ) : Type ℓ where
  returned : StreamElement A → Start A → Drained A
  emptied : Start A → Drained A
  panicked : Drained A

-- What comes of one element of a batch: `none` is a panic, `some (none, _)` is a `continue`.
abbrev pub Handled {ℓ} : Type ℓ → Type ℓ
Handled A = Option (Option (StreamElement A) × Start A)

-- `Coord::default()`
abbrev pub default_coord : Coord
default_coord = record { block_id = 0; host_id = 0; replica_id = 0 }

module _ {ℓ} {A : Type ℓ} where
  -- `new` and then `setup`.
  unfoldable pub setup : Bool → List Coord → Start A
  setup max_delay prev_replicas = record {
    max_delay = max_delay;
    batch_iter = none;
    missing_terminate = length prev_replicas;
    missing_flush_and_restart = length prev_replicas;
    num_previous_replicas = length prev_replicas;
    flushed_batch = false;
    already_timed_out = false;
    watermark_frontier = frontier_new prev_replicas;
    wait_for_state = false;
    state_generation = 0;
  }

  abbrev pub restart : Start A → Start A
  restart s = record s {
    missing_flush_and_restart = s.num_previous_replicas;
    watermark_frontier = reset s.watermark_frontier;
    wait_for_state = true;
    state_generation = s.state_generation + 2;
  }

  -- The two returns at the top of the loop.
  abbrev pub ended_by : Bool → Bool → Start A → Option (StreamElement A × Start A)
  ended_by true r s = some (terminate, s)
  ended_by false true s = some (flush_and_restart, restart s)
  ended_by false false s = none

  abbrev pub ending : Start A → Option (StreamElement A × Start A)
  ending s = ended_by (s.missing_terminate == 0) (s.missing_flush_and_restart == 0) s

  -- The wait for the state update.
  abbrev pub awake : Start A → Start A
  awake s = record s { wait_for_state = false }

  abbrev pub safe_watermark : Start A → Option (Option Timestamp × WatermarkFrontier) → Handled A
  safe_watermark s none = none
  safe_watermark s (some (none, f)) = some (none, record s { watermark_frontier = f })
  safe_watermark s (some (some ts, f)) =
      some (some (watermark ts), record s { watermark_frontier = f })

  -- The counter is not zero here, since the loop has returned otherwise.
  abbrev pub replica_ended : Start A → Option (Option Timestamp × WatermarkFrontier) → Handled A
  replica_ended s none = none
  replica_ended s (some (o, f)) = some (
    none,
    record s {
      watermark_frontier = f;
      missing_flush_and_restart = s.missing_flush_and_restart - 1;
    },
  )

  unfoldable pub handle : Start A → Coord → StreamElement A → Handled A
  handle s sender (watermark ts) = safe_watermark s (update s.watermark_frontier sender ts)
  handle s sender flush_and_restart =
      replica_ended s (update s.watermark_frontier sender timestamp_max)
  handle s sender terminate = some (none, record s { missing_terminate = s.missing_terminate - 1 })
  handle s sender flush_batch =
      if s.flushed_batch
      then some (none, s)
      else some (some flush_batch, record s { flushed_batch = true })
  handle s sender (item x) = some (some (item x), record s { flushed_batch = false })
  handle s sender (timestamped x ts) =
      some (some (timestamped x ts), record s { flushed_batch = false })

  abbrev pub holding : Start A → Coord → List (StreamElement A) → Start A
  holding s sender batch = record s { batch_iter = some (sender, batch) }

  -- The top of the loop, and what follows it when it does not return.
  abbrev pub enter :
      Option (StreamElement A × Start A) → Start A → (Start A → Drained A) → Drained A
  enter (some r) s k = returned r.0 r.1
  enter none s k = k (awake s)

  abbrev pub at_top : Start A → (Start A → Drained A) → Drained A
  at_top s k = enter (ending s) s k

  abbrev pub after_handle : Handled A → (Start A → Start A) → (Start A → Drained A) → Drained A
  after_handle none keep k = panicked
  after_handle (some (some e, s)) keep k = returned e (keep s)
  after_handle (some (none, s)) keep k = k s

  -- The rounds of the loop while there is a batch.
  unfoldable pub drain : Start A → Coord → List (StreamElement A) → Drained A
  drain s sender [] = at_top (holding s sender []) (λ s'. emptied (record s' { batch_iter = none }))
  drain s sender (e ∷ batch) = at_top (holding s sender (e ∷ batch)) λ s'.
      after_handle (handle s' sender e) (λ t. holding t sender batch) (λ t. drain t sender batch)

  abbrev pub progress_on : Option (Coord × List (StreamElement A)) → Start A → Drained A
  progress_on none s = at_top s emptied
  progress_on (some b) s = drain s b.0 b.1

  abbrev pub progress : Start A → Drained A
  progress s = progress_on s.batch_iter s

  abbrev pub timed_out : Bool → Start A → Start A
  timed_out true s = record s {
    already_timed_out = true;
    batch_iter = some (default_coord, flush_batch ∷ []);
  }
  timed_out false s = s

  -- `recv_timeout`, or `recv`, which goes on waiting in a silence.
  abbrev pub receive : Start A → Arrival A → Start A
  receive s (message sender batch) = record s {
    batch_iter = some (sender, batch);
    already_timed_out = false;
  }
  receive s silence = timed_out (not s.already_timed_out && s.max_delay) s

  abbrev pub settle : Drained A → List (Arrival A) → (Start A → Outcome A) → Outcome A
  settle (returned e s) net k = returns e s net
  settle (emptied s) net k = k s
  settle panicked net k = panics

  unfoldable pub start_next : Start A → List (Arrival A) → Outcome A
  start_next s [] = settle (progress s) [] waits
  start_next s (a ∷ net) = settle (progress s) (a ∷ net) (λ s'. start_next (receive s' a) net)
