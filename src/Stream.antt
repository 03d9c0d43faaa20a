-- ===== src/Stream.antt =====
-- src/operator/mod.rs: the elements of a stream and the functions on one element.
pub mod Run
pub mod Fallible
use renoir.Prelude.{ℕ, ◌-◌, ◌^◌, Option, none, some}

-- A `Timestamp` (an i64) is kept as its distance from i64::MIN: order and equality are the same.
abbrev pub Timestamp : Type 0
Timestamp = ℕ

abbrev pub timestamp_max : Timestamp
timestamp_max = 2 ^ 64 - 1

pub data StreamElement {ℓ} (Out : Type ℓ) : Type ℓ where
  item : Out → StreamElement Out
  timestamped : Out → Timestamp → StreamElement Out
  watermark : Timestamp → StreamElement Out
  flush_batch terminate flush_and_restart : StreamElement Out

module _ {ℓ κ} {Out : Type ℓ} {NewOut : Type κ} where
  -- `StreamElement::map`
  abbrev pub map_element : (Out → NewOut) → StreamElement Out → StreamElement NewOut
  map_element f (item x) = item (f x)
  map_element f (timestamped x ts) = timestamped (f x) ts
  map_element f (watermark w) = watermark w
  map_element f terminate = terminate
  map_element f flush_and_restart = flush_and_restart
  map_element f flush_batch = flush_batch

module _ {ℓ} {Out : Type ℓ} where
  abbrev pub variant : StreamElement Out → StreamElement (Unit {0})
  variant (item x) = item tt
  variant (timestamped x ts) = item tt
  variant (watermark w) = watermark w
  variant terminate = terminate
  variant flush_and_restart = flush_and_restart
  variant flush_batch = flush_batch

  abbrev pub timestamp : StreamElement Out → Option Timestamp
  timestamp (timestamped x ts) = some ts
  timestamp (watermark ts) = some ts
  timestamp _ = none

  abbrev pub value : StreamElement Out → Option Out
  value (item v) = some v
  value (timestamped v ts) = some v
  value (watermark w) = none
  value flush_batch = none
  value terminate = none
  value flush_and_restart = none

module _ {ℓ} {Key Out : Type ℓ} where
  abbrev pub add_key : Key → StreamElement Out → StreamElement (Key × Out)
  add_key k (item v) = item (k, v)
  add_key k (timestamped v ts) = timestamped (k, v) ts
  add_key k (watermark w) = watermark w
  add_key k terminate = terminate
  add_key k flush_and_restart = flush_and_restart
  add_key k flush_batch = flush_batch

  abbrev pub take_key : StreamElement (Key × Out) → Option Key × StreamElement Out
  take_key (item (k, v)) = (some k, item v)
  take_key (timestamped (k, v) ts) = (some k, timestamped v ts)
  take_key (watermark w) = (none, watermark w)
  take_key terminate = (none, terminate)
  take_key flush_and_restart = (none, flush_and_restart)
  take_key flush_batch = (none, flush_batch)
