-- ===== src/Window.antt =====
-- src/operator/window: what the window managers share.
pub mod Feed
pub mod Count
pub mod All
pub mod Session
pub mod Transaction
pub mod Aggregate
pub mod LastK
mod Tests
use renoir.Prelude.{Option, none, some}
use renoir.Stream.{Timestamp, StreamElement, item, timestamped}

pub data WindowResult {ℓ} (T : Type ℓ) : Type ℓ where
  plain : T → WindowResult T
  stamped : T → Timestamp → WindowResult T

module _ {ℓ} {T : Type ℓ} where
  -- `WindowResult::new`
  abbrev pub make_result : T → Option Timestamp → WindowResult T
  make_result x (some ts) = stamped x ts
  make_result x none = plain x

  abbrev pub result_item : WindowResult T → T
  result_item (plain x) = x
  result_item (stamped x ts) = x

  -- `From<WindowResult<T>> for StreamElement<T>`
  abbrev pub to_element : WindowResult T → StreamElement T
  to_element (plain x) = item x
  to_element (stamped x ts) = timestamped x ts
