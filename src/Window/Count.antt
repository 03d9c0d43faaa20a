-- ===== src/Window/Count.antt =====
-- src/operator/window/descr/count.rs
pub mod Refine
pub mod Run
use mathlib.Core.Option
use renoir.Prelude.{
  ℕ, zero, suc, ◌+◌, ◌-◌, ◌/◌, Bool, true, false, Option, none, some, List, [], ◌∷◌, ◌++◌, max,
  length, replicate, ◌==◌, ltb, if◌then◌else◌,
}
use renoir.Stream.{
  Timestamp, StreamElement, item, timestamped, watermark, flush_batch, terminate, flush_and_restart,
}
use renoir.Window.{WindowResult, make_result}
use renoir.Window.Feed.{Outcome}

pub record Slot {ℓ} (S : Type ℓ) : Type ℓ where
  pub count : ℕ
  pub acc : S
  pub ts : Option Timestamp

pub record CountWindowManager {ℓ} (S : Type ℓ) : Type ℓ where
  pub init : S
  pub size : ℕ
  pub slide : ℕ
  pub exact : Bool
  pub ws : List (Slot S)

pub record CountWindow : Type 0 where
  pub size : ℕ
  pub slide : ℕ
  pub exact : Bool

-- `CountWindow::new`, `sliding` and `tumbling`; `none` is a failed assertion.
abbrev pub count_window : ℕ → ℕ → Bool → CountWindow
count_window size slide exact = record { size = size; slide = slide; exact = exact }

abbrev pub sliding : ℕ → ℕ → Option CountWindow
sliding zero slide = none
sliding (suc size) zero = none
sliding (suc size) (suc slide) = some (count_window (suc size) (suc slide) true)

abbrev pub tumbling : ℕ → Option CountWindow
tumbling zero = none
tumbling (suc size) = some (count_window (suc size) (suc size) true)

-- `self.size.div_ceil(self.slide)`; the division by zero panics.
abbrev pub div_ceil : ℕ → ℕ → Option ℕ
div_ceil a zero = none
div_ceil a (suc b) = some ((a + b) / suc b)

abbrev pub join_ts : Option Timestamp → Option Timestamp → Option Timestamp
join_ts (some a) (some b) = some (max a b)
join_ts (some t) none = some t
join_ts none t = t

module _ {ℓ} {In Out S : Type ℓ} (process : S → In → S) (output : S → Out) where
  abbrev pub new_slot : S → Slot S
  new_slot acc = record { count = 0; acc = acc; ts = none }

  abbrev pub update_slot : Slot S → In → Option Timestamp → Slot S
  update_slot w el ts = record { count = w.count + 1; acc = process w.acc el; ts = join_ts w.ts ts }

  -- `for i in 0..k { self.update_slot(i, …) }`; an index past the end panics.
  unfoldable pub update_slots : ℕ → List (Slot S) → In → Option Timestamp → Option (List (Slot S))
  update_slots zero ws el ts = some ws
  update_slots (suc k) [] el ts = none
  update_slots (suc k) (w ∷ ws) el ts =
      Option.map (λ rest. update_slot w el ts ∷ rest) (update_slots k ws el ts)

  -- The loop that pushes empty slots until there are `n`.
  abbrev pub pad : ℕ → S → List (Slot S) → List (Slot S)
  pad n init ws = ws ++ replicate (n - length ws) (new_slot init)

  abbrev pub result_of : Slot S → WindowResult Out
  result_of r = make_result (output r.acc) r.ts

  -- The front slot is returned when it is full.
  abbrev pub close : CountWindowManager S → List (Slot S) → Outcome Out (CountWindowManager S)
  close m [] = none
  close m (r ∷ ws) =
      if r.count == m.size
      then some (some (result_of r), record m { ws = ws })
      else some (none, record m { ws = r ∷ ws })

  abbrev pub close_front :
      CountWindowManager S → Option (List (Slot S)) → Outcome Out (CountWindowManager S)
  close_front m none = none
  close_front m (some ws) = close m ws

  abbrev pub update_front :
      CountWindowManager S
      → List (Slot S)
      → In
      → Option Timestamp
      → Outcome Out (CountWindowManager S)
  update_front m [] el ts = none
  update_front m (w ∷ ws) el ts =
      close_front m (update_slots (w.count / m.slide + 1) (w ∷ ws) el ts)

  -- The arm for an item; `none` is a panic.
  unfoldable pub process_item :
      CountWindowManager S → In → Option Timestamp → Outcome Out (CountWindowManager S)
  process_item m el ts = elim (div_ceil m.size m.slide) [
    | none ↦ none
    | some n ↦ update_front m (pad n m.init m.ws) el ts
  ]

  -- The arm for the end of an iteration: the first incomplete window, unless only full ones count.
  abbrev pub first_incomplete : Bool → List (Slot S) → Option (WindowResult Out)
  first_incomplete true ws = none
  first_incomplete false [] = none
  first_incomplete false (r ∷ ws) = if ltb 0 r.count then some (result_of r) else none

  unfoldable pub process_element :
      CountWindowManager S → StreamElement In → Outcome Out (CountWindowManager S)
  unfolding process_item
  process_element m (item x) = process_item m x none
  process_element m (timestamped x ts) = process_item m x (some ts)
  process_element m flush_and_restart = some (first_incomplete m.exact m.ws, record m { ws = [] })
  process_element m terminate = some (first_incomplete m.exact m.ws, record m { ws = [] })
  process_element m _ = some (none, m)

  abbrev pub build : S → CountWindow → CountWindowManager S
  build accumulator window = record {
    init = accumulator;
    size = window.size;
    slide = window.slide;
    exact = window.exact;
    ws = [];
  }
