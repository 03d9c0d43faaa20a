-- ===== src/Operator/LimitSorted/Tests.antt =====
-- `LimitSorted` at a concrete stream of two iterations, after which it ends a third, empty one.
use mathlib.Core.List.{Perm}
use mathlib.Core.List.Perm
use renoir.Prelude.{ℕ, List, [], ◌∷◌, leb, if◌then◌else◌}
use renoir.Stream.{StreamElement, item, timestamped, watermark, flush_batch, flush_and_restart}

abbrev insert : ℕ → List ℕ → List ℕ
insert x [] = x ∷ []
insert x (y ∷ ys) = if leb x y then x ∷ y ∷ ys else y ∷ insert x ys

abbrev sort : List ℕ → List ℕ
sort [] = []
sort (x ∷ xs) = insert x (sort xs)

-- The second iteration has no watermark and older items.
abbrev two_iterations : List (List (StreamElement ℕ))
two_iterations =
    (timestamped 7 20
      ∷ timestamped 3 30
      ∷ flush_batch
      ∷ timestamped 9 25
      ∷ item 5
      ∷ watermark 18
      ∷ [])
    ∷ (timestamped 8 21 ∷ timestamped 2 22 ∷ [])
    ∷ []

-- The timestamp and the watermark of the first iteration are in the second, too.
abbrev limited_two : List (StreamElement ℕ)
limited_two =
    timestamped 5 30
    ∷ timestamped 7 30
    ∷ watermark 18
    ∷ flush_and_restart
    ∷ timestamped 8 30
    ∷ watermark 18
    ∷ flush_and_restart
    ∷ flush_and_restart
    ∷ []
