-- ===== src/Start/Flat.antt =====
-- `Start` without batches: the same loop over a list of single signals.
use renoir.Prelude.{
  ◌≡◌, refl, Bool, true, false, not, ◌&&◌, Option, none, some, List, [], ◌∷◌, ◌++◌, map,
  if◌then◌else◌,
}
use renoir.Stream.{
  StreamElement, item, timestamped, watermark, flush_batch, terminate, flush_and_restart, Timestamp,
}
use renoir.Frontier.{WatermarkFrontier}
use renoir.Frontier.Map.{Coord}
use renoir.Start.{
  Arrival, message, silence, Start, Outcome, returns, waits, panics, Handled, default_coord, ending,
  awake, handle, safe_watermark, replica_ended,
}

-- An element with its sender, the first sight of a message, or a silence.
pub data Signal {ℓ} (A : Type ℓ) : Type ℓ where
  element : Coord → StreamElement A → Signal A
  opened : Signal A
  silent : Signal A

pub data Step {ℓ} (A : Type ℓ) : Type ℓ where
  gave : StreamElement A → Start A → List (Signal A) → Step A
  idle : Start A → Step A
  failed : Step A

module _ {ℓ} {A : Type ℓ} where
  -- The signals of a batch, of the arrivals, and all that a state has not read yet.
  abbrev pub pending : Option (Coord × List (StreamElement A)) → List (Signal A)
  pending none = []
  pending (some b) = map (element b.0) b.1

  abbrev pub signals : List (Arrival A) → List (Signal A)
  signals [] = []
  signals (message sender batch ∷ net) = opened ∷ (map (element sender) batch ++ signals net)
  signals (silence ∷ net) = silent ∷ signals net

  abbrev pub unread : Start A → List (Arrival A) → List (Signal A)
  unread s net = pending s.batch_iter ++ signals net

  abbrev pub core : Start A → Start A
  core s = record s { batch_iter = none }

  abbrev pub take_silent : Bool → Start A → Handled A
  take_silent true k = handle (record k { already_timed_out = true }) default_coord flush_batch
  take_silent false k = some (none, k)

  unfoldable pub take_signal : Start A → Signal A → Handled A
  take_signal k (element sender e) = handle k sender e
  take_signal k opened = some (none, record k { already_timed_out = false })
  take_signal k silent = take_silent (not k.already_timed_out && k.max_delay) k

  abbrev pub flat_enter :
      Option (StreamElement A × Start A) → Start A → List (Signal A) → (Start A → Step A) → Step A
  flat_enter (some r) k todo f = gave r.0 r.1 todo
  flat_enter none k todo f = f (awake k)

  abbrev pub flat_top : Start A → List (Signal A) → (Start A → Step A) → Step A
  flat_top k todo f = flat_enter (ending k) k todo f

  abbrev pub flat_after : Handled A → List (Signal A) → (Start A → Step A) → Step A
  flat_after none todo f = failed
  flat_after (some (some e, k)) todo f = gave e k todo
  flat_after (some (none, k)) todo f = f k

  -- What follows the top of the loop, for the rest `f` of the call.
  abbrev pub flat_body : (Start A → List (Signal A) → Step A) → Start A → List (Signal A) → Step A
  flat_body f k [] = idle k
  flat_body f k (x ∷ todo) = flat_after (take_signal k x) todo (λ t. f t todo)

  unfoldable pub flat_next : Start A → List (Signal A) → Step A
  flat_next k [] = flat_top k [] idle
  flat_next k (x ∷ todo) =
      flat_top k (x ∷ todo) (λ k'. flat_after (take_signal k' x) todo (λ t. flat_next t todo))

  -- What a call comes to when batches are forgotten.
  abbrev pub flatten : Outcome A → Step A
  flatten (returns e s net) = gave e (core s) (unread s net)
  flatten (waits s) = idle (core s)
  flatten panics = failed

  abbrev pub core_handled : Handled A → Handled A
  core_handled none = none
  core_handled (some (o, s)) = some (o, core s)

  safe_watermark-core :
      (s : Start A) (o : Option (Option Timestamp × WatermarkFrontier))
      → safe_watermark (core s) o ≡ core_handled (safe_watermark s o)
  safe_watermark-core s none = refl
  safe_watermark-core s (some (none, f)) = refl
  safe_watermark-core s (some (some ts, f)) = refl

  replica_ended-core :
      (s : Start A) (o : Option (Option Timestamp × WatermarkFrontier))
      → replica_ended (core s) o ≡ core_handled (replica_ended s o)
  replica_ended-core s none = refl
  replica_ended-core s (some (o, f)) = refl

  flush-core :
      (s : Start A) (b : Bool)
      → (if b
          then some (none, core s)
          else some (some flush_batch, record (core s) { flushed_batch = true }))
        ≡ core_handled (
            if b
            then some (none, s)
            else some (some flush_batch, record s { flushed_batch = true }))
  flush-core s true = refl
  flush-core s false = refl

  pub handle-core :
      (s : Start A) (sender : Coord) (e : StreamElement A)
      → handle (core s) sender e ≡ core_handled (handle s sender e)
  unfolding handle
  handle-core s sender (item x) = refl
  handle-core s sender (timestamped x ts) = refl
  handle-core s sender (watermark ts) = safe_watermark-core s _
  handle-core s sender flush_batch = flush-core s s.flushed_batch
  handle-core s sender terminate = refl
  handle-core s sender flush_and_restart = replica_ended-core s _
