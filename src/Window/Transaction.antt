-- ===== src/Window/Transaction.antt =====
-- src/operator/window/descr/transaction.rs: a window that the user's function opens and closes.
pub mod Items
use mathlib.Core.Option
use renoir.Prelude.{
  ◌≡◌, refl, sym, ap, ◌∙◌, Bool, Option, none, some, List, [], ◌∷◌, ◌++◌, foldl, ltb, not, is_some,
  if◌then◌else◌, Bool-cases, inl, inr,
}
use renoir.Stream.{
  Timestamp, StreamElement, item, timestamped, watermark, flush_batch, terminate, flush_and_restart,
}
use renoir.Window.{WindowResult, plain}
use renoir.Window.Feed.{Outcome, Fed, cons_some, then_feed, feed}

pub data TransactionOp : Type 0 where
  continue commit : TransactionOp
  commit_after : Timestamp → TransactionOp
  discard : TransactionOp

pub record Slot {ℓ} (S : Type ℓ) : Type ℓ where
  pub acc : S
  pub close : Option Timestamp

pub record TransactionWindowManager {ℓ} (S : Type ℓ) : Type ℓ where
  pub init : S
  pub w : Option (Slot S)

module _ {ℓ} {In Out S : Type ℓ} (process : S → In → S) (output : S → Out)
    (logic : In → TransactionOp) where
  abbrev pub current : S → Option (Slot S) → Slot S
  current init none = record { acc = init; close = none }
  current init (some slot) = slot

  abbrev pub Outcomes : Type ℓ
  Outcomes = Outcome Out (TransactionWindowManager S)

  -- The macro `return_current!`, on a window that is there.
  abbrev pub return_current : TransactionWindowManager S → Slot S → Outcomes
  return_current m slot = some (some (plain (output slot.acc)), record m { w = none })

  abbrev pub command : TransactionWindowManager S → Slot S → TransactionOp → Outcomes
  command m slot commit = return_current m slot
  command m slot (commit_after t) =
      some (none, record m { w = some (record slot { close = some t }) })
  command m slot discard = some (none, record m { w = none })
  command m slot continue = some (none, record m { w = some slot })

  abbrev pub add_item : Slot S → In → Slot S
  add_item slot x = record slot { acc = process slot.acc x }

  -- A watermark over the commit time.
  abbrev pub commit_before :
      TransactionWindowManager S → Slot S → Option Timestamp → Timestamp → Outcomes
  commit_before m slot none ts = some (none, m)
  commit_before m slot (some close) ts =
      if ltb close ts then return_current m slot else some (none, m)

  abbrev pub close_before : TransactionWindowManager S → Option (Slot S) → Timestamp → Outcomes
  close_before m none ts = some (none, m)
  close_before m (some slot) ts = commit_before m slot slot.close ts

  -- The end of an iteration, which leaves a window without a commit time open.
  abbrev pub commit_at_end : TransactionWindowManager S → Slot S → Option Timestamp → Outcomes
  commit_at_end m slot none = some (none, m)
  commit_at_end m slot (some close) = return_current m slot

  abbrev pub close_at_end : TransactionWindowManager S → Option (Slot S) → Outcomes
  close_at_end m none = some (none, m)
  close_at_end m (some slot) = commit_at_end m slot slot.close

  -- `none` is the panic on an item without a timestamp.
  unfoldable pub process_element : TransactionWindowManager S → StreamElement In → Outcomes
  process_element m (timestamped x ts) = command m (add_item (current m.init m.w) x) (logic x)
  process_element m (watermark ts) = close_before m m.w ts
  process_element m terminate = close_at_end m m.w
  process_element m flush_and_restart = close_at_end m m.w
  process_element m (item x) = none
  process_element m flush_batch = some (none, m)

  abbrev pub recycle : TransactionWindowManager S → Bool
  recycle m = not (is_some m.w)

  abbrev pub build : S → TransactionWindowManager S
  build accumulator = record { init = accumulator; w = none }
