-- ===== src/Window/LastK.antt =====
-- src/operator/window/descr/last_k.rs: a window over the last items, for each item. Its slots are
-- those of the count window, with the same code.
pub mod Run
use renoir.Prelude.{ℕ, ◌+◌, Option, none, some, List, [], ◌∷◌, ◌==◌, if◌then◌else◌}
use renoir.Stream.{Timestamp, StreamElement, item, timestamped, terminate, flush_and_restart}
use renoir.Window.Feed.{Outcome}
use renoir.Window.Count.{Slot, pad, update_slots, result_of}

pub record LastKWindowManager {ℓ} (S : Type ℓ) : Type ℓ where
  pub init : S
  pub idx : ℕ
  pub size : ℕ
  pub ws : List (Slot S)

module _ {ℓ} {In Out S : Type ℓ} (process : S → In → S) (output : S → Out) where
  -- The front slot is returned, and it is removed when it is full.
  abbrev pub emit_front : LastKWindowManager S → List (Slot S) → Outcome Out (LastKWindowManager S)
  emit_front m [] = none
  emit_front m (r ∷ ws) =
      if r.count == m.size
      then some (some (result_of process output r), record m { idx = m.idx + 1; ws = ws })
      else some (some (result_of process output r), record m { idx = m.idx + 1; ws = r ∷ ws })

  abbrev pub after_update :
      LastKWindowManager S → Option (List (Slot S)) → Outcome Out (LastKWindowManager S)
  after_update m none = none
  after_update m (some ws) = emit_front m ws

  abbrev pub update_front :
      LastKWindowManager S
      → List (Slot S)
      → In
      → Option Timestamp
      → Outcome Out (LastKWindowManager S)
  update_front m [] el ts = none
  update_front m (w ∷ ws) el ts =
      after_update m (update_slots process output (w.count + 1) (w ∷ ws) el ts)

  unfoldable pub process_item :
      LastKWindowManager S → In → Option Timestamp → Outcome Out (LastKWindowManager S)
  process_item m el ts = update_front m (pad process output m.size m.init m.ws) el ts

  unfoldable pub process_element :
      LastKWindowManager S → StreamElement In → Outcome Out (LastKWindowManager S)
  unfolding process_item
  process_element m (item x) = process_item m x none
  process_element m (timestamped x ts) = process_item m x (some ts)
  process_element m flush_and_restart = some (none, record m { ws = [] })
  process_element m terminate = some (none, record m { ws = [] })
  process_element m _ = some (none, m)

  abbrev pub build : S → ℕ → LastKWindowManager S
  build accumulator size = record { init = accumulator; idx = 0; size = size; ws = [] }
