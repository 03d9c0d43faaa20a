-- ===== src/Block/Batcher.antt =====
-- src/block/batcher.rs: the messages to one receiver, which are sent in batches. `sent` is what the
-- sender was given; a time is compared by the environment.
pub mod Order
pub mod Events
pub mod Tests
use renoir.Prelude.{
  ℕ, Bool, true, false, Option, none, some, List, [], ◌∷◌, ◌++◌, length, leb, ◌||◌, if◌then◌else◌,
}
use renoir.Stream.{StreamElement}

-- The sizes are over zero.
pub data BatchMode : Type 0 where
  fixed : ℕ → BatchMode
  adaptive : ℕ → ℕ → BatchMode
  timed : ℕ → ℕ → BatchMode
  single : BatchMode

abbrev pub max_size : BatchMode → ℕ
max_size (fixed s) = s
max_size (adaptive s delay) = s
max_size (timed s interval) = s
max_size single = 1

abbrev pub interval : BatchMode → Option ℕ
interval (adaptive s delay) = some delay
interval (timed s t) = some t
interval _ = none

pub record BatcherInner {ℓ} (Out : Type ℓ) : Type ℓ where
  pub mode : BatchMode
  pub buffer : List (StreamElement Out)
  pub sent : List (List (StreamElement Out))
  pub finished : Bool

pub data TrySend : Type 0 where
  ok full disconnected : TrySend

module _ {ℓ} {Out : Type ℓ} where
  abbrev pub new : BatchMode → BatcherInner Out
  new mode = record { mode = mode; buffer = []; sent = []; finished = false }

  abbrev pub send : List (StreamElement Out) → BatcherInner Out → BatcherInner Out
  send batch b = record b { sent = b.sent ++ batch ∷ [] }

  -- `flush`, for a buffer.
  abbrev pub flush_buffer : List (StreamElement Out) → BatcherInner Out → BatcherInner Out
  flush_buffer [] b = b
  flush_buffer (m ∷ ms) b = send (m ∷ ms) (record b { buffer = [] })

  abbrev pub flush : BatcherInner Out → BatcherInner Out
  flush b = flush_buffer b.buffer b

  -- `try_flush`, for a buffer, given what `try_send` answers; a disconnected receiver panics.
  abbrev pub try_flush_buffer :
      List (StreamElement Out) → TrySend → BatcherInner Out → Option (Bool × BatcherInner Out)
  try_flush_buffer [] answer b = some (false, b)
  try_flush_buffer (m ∷ ms) ok b = some (true, send (m ∷ ms) (record b { buffer = [] }))
  try_flush_buffer (m ∷ ms) full b = some (false, b)
  try_flush_buffer (m ∷ ms) disconnected b = none

  abbrev pub try_flush : TrySend → BatcherInner Out → Option (Bool × BatcherInner Out)
  try_flush answer b = try_flush_buffer b.buffer answer b

  abbrev pub push : StreamElement Out → BatcherInner Out → BatcherInner Out
  push message b = record b { buffer = b.buffer ++ message ∷ [] }

  abbrev pub flush_if : Bool → BatcherInner Out → BatcherInner Out
  flush_if due b = if due then flush b else b

  -- `enqueue`; `elapsed` is whether `last_send` is longer ago than the delay.
  abbrev pub enqueue_in : BatchMode → Bool → StreamElement Out → BatcherInner Out → BatcherInner Out
  enqueue_in (adaptive n delay) elapsed message b =
      flush_if (leb n (length (push message b).buffer) || elapsed) (push message b)
  enqueue_in (fixed n) elapsed message b =
      flush_if (leb n (length (push message b).buffer)) (push message b)
  enqueue_in (timed n t) elapsed message b =
      flush_if (leb n (length (push message b).buffer)) (push message b)
  enqueue_in single elapsed message b = send (message ∷ []) b

  unfoldable pub enqueue : Bool → StreamElement Out → BatcherInner Out → BatcherInner Out
  enqueue elapsed message b = enqueue_in b.mode elapsed message b

  abbrev pub end_buffer : List (StreamElement Out) → BatcherInner Out → BatcherInner Out
  end_buffer [] b = record b { finished = true }
  end_buffer (m ∷ ms) b = send (m ∷ ms) (record b { buffer = []; finished = true })

  abbrev pub end : BatcherInner Out → BatcherInner Out
  end b = end_buffer b.buffer b
