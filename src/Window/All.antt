-- ===== src/Window/All.antt =====
-- src/operator/window/descr/all.rs: one window for all the elements of an iteration.
use mathlib.Core.Option
use renoir.Prelude.{Option, none, some, List, [], ◌∷◌, min, foldl}
use renoir.Stream.{
  Timestamp, StreamElement, item, timestamped, terminate, flush_and_restart, timestamp,
}
use renoir.Window.{make_result}
use renoir.Window.Feed.{Outcome, Fed}

pub record AllWindowManager {ℓ} (S : Type ℓ) : Type ℓ where
  pub init : S
  pub accumulator : Option S
  pub tsmin : Option Timestamp

abbrev pub meet_ts : Option Timestamp → Option Timestamp → Option Timestamp
meet_ts (some a) (some b) = some (min a b)
meet_ts (some a) none = some a
meet_ts none t = t

module _ {ℓ} {In Out S : Type ℓ} (process : S → In → S) (output : S → Out) where
  -- `get_or_insert_with`, then `process`.
  abbrev pub add_item : Option S → S → In → S
  add_item none init x = process init x
  add_item (some a) init x = process a x

  -- The end of an iteration, where `take().unwrap()` panics on a missing accumulator.
  abbrev pub flush : Option S → AllWindowManager S → Outcome Out (AllWindowManager S)
  flush none m = none
  flush (some a) m =
      some (some (make_result (output a) m.tsmin), record m { accumulator = none; tsmin = none })

  abbrev pub finish : Option S → AllWindowManager S → Outcome Out (AllWindowManager S)
  finish none m = some (none, m)
  finish (some a) m =
      some (some (make_result (output a) m.tsmin), record m { accumulator = none; tsmin = none })

  abbrev pub process_on : AllWindowManager S → StreamElement In → Outcome Out (AllWindowManager S)
  process_on m (item x) =
      some (none, record m { accumulator = some (add_item m.accumulator m.init x) })
  process_on m (timestamped x ts) =
      some (none, record m { accumulator = some (add_item m.accumulator m.init x) })
  process_on m flush_and_restart = flush m.accumulator m
  process_on m terminate = finish m.accumulator m
  process_on m _ = some (none, m)

  unfoldable pub process_element :
      AllWindowManager S → StreamElement In → Outcome Out (AllWindowManager S)
  process_element m e = process_on (record m { tsmin = meet_ts (timestamp e) m.tsmin }) e

  abbrev pub build : S → AllWindowManager S
  build accumulator = record { init = accumulator; accumulator = none; tsmin = none }

  -- The lowest timestamp of the items and of the watermarks.
  abbrev pub earliest : Option Timestamp → List (StreamElement In) → Option Timestamp
  earliest t [] = t
  earliest t (e ∷ es) = earliest (meet_ts (timestamp e) t) es

  -- The fold of the items, from an accumulator that may be missing.
  abbrev pub gathered : S → Option S → List In → Option S
  gathered init acc [] = acc
  gathered init acc (x ∷ xs) = gathered init (some (add_item acc init x)) xs

  -- What an iteration comes to: its single result, or a panic if it has no item.
  abbrev pub whole : S → Option S → Option Timestamp → Fed Out (AllWindowManager S)
  whole init none t = none
  whole init (some a) t = some (make_result (output a) t ∷ [], build init)

  -- The fold of the items, with the lowest timestamp; a panic for no item at all.
  abbrev pub all_result : S → List In → Option Timestamp → Fed Out (AllWindowManager S)
  all_result init [] t = none
  all_result init (x ∷ xs) t =
      some (make_result (output (foldl process init (x ∷ xs))) t ∷ [], build init)
