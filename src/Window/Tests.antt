-- ===== src/Window/Tests.antt =====
-- Runs of the window managers, and their theorems at concrete inputs.
use renoir.Prelude.{
  ltb, All, Any, ℕ, zero, suc, ◌≢◌, ◌≡◌, false, none, some, List, [], ◌∷◌, ◌++◌, arith,
}
use renoir.Stream.{item, timestamped, watermark, flush_and_restart}
use renoir.Window.{plain, stamped}
use renoir.Window.Feed.{feed}
use renoir.Window.Count.{build, count_window, process_element}
use renoir.Window.All.{build as all_build, process_element as all_process_element}
use renoir.Window.Session.{
  build as session_build, process_element as session_process_element, session_window-iteration,
}
use renoir.Window.Transaction.{
  TransactionOp, continue, commit, commit_after, discard, build as transaction_build,
  process_element as transaction_process_element,
}
use renoir.Window.Transaction.Items.{Keeps, transaction_window-Keeps}
use renoir.Window.Aggregate.{aggregate, max, min}
use renoir.Window.Aggregate.Best.{max-min-Best}
use renoir.Window.LastK.{build as last_k_build, process_element as last_k_process_element}
use renoir.Window.LastK.Run.{last_k_window-iteration}
use renoir.Window.Count.Run.{count_window-iteration}

abbrev append_item : List ℕ → ℕ → List ℕ
append_item xs x = xs ++ x ∷ []

abbrev whole : List ℕ → List ℕ
whole xs = xs

-- Windows of three items, one every two.
count_window-iteration_example :
    feed
      (process_element append_item whole)
      (build append_item whole [] (count_window 3 2 false))
      (item 1 ∷ item 2 ∷ item 3 ∷ timestamped 4 7 ∷ item 5 ∷ item 6 ∷ flush_and_restart ∷ [])
    ≡ some (
      plain (1 ∷ 2 ∷ 3 ∷ []) ∷ stamped (3 ∷ 4 ∷ 5 ∷ []) 7 ∷ plain (5 ∷ 6 ∷ []) ∷ [],
      build append_item whole [] (count_window 3 2 false),
    )
count_window-iteration_example =
    count_window-iteration append_item whole [] 3 1 false
      ((1, none) ∷ (2, none) ∷ (3, none) ∷ (4, some 7) ∷ (5, none) ∷ (6, none) ∷ []) (omega arith)

last_k_window-iteration_example :
    feed
      (last_k_process_element append_item whole)
      (last_k_build append_item whole [] 2)
      (item 1 ∷ timestamped 2 7 ∷ item 3 ∷ item 4 ∷ flush_and_restart ∷ [])
    ≡ some (
      plain (1 ∷ []) ∷ stamped (1 ∷ 2 ∷ []) 7 ∷ stamped (2 ∷ 3 ∷ []) 7 ∷ plain (3 ∷ 4 ∷ []) ∷ [],
      record (last_k_build append_item whole [] 2) { idx = 4 },
    )
last_k_window-iteration_example =
    last_k_window-iteration append_item whole [] 1
      ((1, none) ∷ (2, some 7) ∷ (3, none) ∷ (4, none) ∷ [])

-- Two items close to each other, and one long after.
session_window-iteration_example :
    feed
      (session_process_element append_item whole)
      (session_build append_item whole [] 10)
      ((0, item 1) ∷ (4, item 2) ∷ (20, item 3) ∷ (50, flush_and_restart) ∷ [])
    ≡ some (plain (1 ∷ 2 ∷ []) ∷ plain (3 ∷ []) ∷ [], session_build append_item whole [] 10)
session_window-iteration_example =
    session_window-iteration append_item whole [] 10 ((0, 1) ∷ (4, 2) ∷ (20, 3) ∷ []) 50

-- A window that commits at 0, and at 1 once the watermark is over 5.
abbrev logic : ℕ → TransactionOp
logic zero = commit
logic (suc zero) = commit_after 5
logic (suc (suc n)) = continue

logic-keeps : (n : ℕ) → logic n ≢ discard
logic-keeps zero = λ e. absurd (ground arith)
logic-keeps (suc zero) = λ e. absurd (ground arith)
logic-keeps (suc (suc n)) = λ e. absurd (ground arith)

-- Two results, and a window that is still open.
transaction_window-Keeps_example :
    Keeps logic (transaction_build append_item whole logic []) (2 ∷ 0 ∷ 1 ∷ 3 ∷ []) (
      some (
        plain (2 ∷ 0 ∷ []) ∷ plain (1 ∷ []) ∷ [],
        record { init = []; w = some (record { acc = 3 ∷ []; close = none }) },
      ))
unfolding feed transaction_process_element
transaction_window-Keeps_example =
    transaction_window-Keeps logic
      (timestamped 2 1 ∷ timestamped 0 3 ∷ timestamped 1 5 ∷ watermark 6 ∷ timestamped 3 7 ∷ [])
      logic-keeps (omega arith)

max-min-Best_example :
    ((aggregate (max (λ a b. ltb b a)) (2 ∷ 5 ∷ 3 ∷ []) ≡ some 5)
      × Any (λ (y : ℕ). 5 ≡ y) (2 ∷ 5 ∷ 3 ∷ [])
      × All (λ (y : ℕ). ltb 5 y ≡ false) (2 ∷ 5 ∷ 3 ∷ []))
    × ((aggregate (min ltb) (2 ∷ 5 ∷ 3 ∷ []) ≡ some 2)
        × Any (λ (y : ℕ). 2 ≡ y) (2 ∷ 5 ∷ 3 ∷ [])
        × All (λ (y : ℕ). ltb y 2 ≡ false) (2 ∷ 5 ∷ 3 ∷ []))
max-min-Best_example =
    max-min-Best (λ a b. ltb b a) 2 (5 ∷ 3 ∷ []) (λ a. ground arith) (λ a b h. ground arith)
      (λ a b c h k. ground arith)
