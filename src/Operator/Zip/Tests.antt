-- ===== src/Operator/Zip/Tests.antt =====
-- `Zip` at a concrete iteration.
use renoir.Prelude.{ℕ, ◌≡◌, true, some, List, [], ◌∷◌, All, arith}
use renoir.Stream.{StreamElement, timestamped, watermark, flush_batch, item}
use renoir.Stream.Run.{stream}
use renoir.Stream.Fallible.{work}
use renoir.Join.{BinaryElement, left, right, left_end}
use renoir.Operator.Reorder.Order.{IsInOrder}
use renoir.Operator.Zip.{new, zip_next}
use renoir.Operator.Zip.Iteration.{zipped}
use renoir.Operator.Zip.Late.{all_items}
use renoir.Operator.Zip.Correct.{lefts, rights, zip_all, work-zipped, work-IsInOrder}

abbrev two_sides : List (StreamElement (BinaryElement ℕ ℕ))
two_sides =
    timestamped (left 1) 10
    ∷ timestamped (left 2) 20
    ∷ watermark 15
    ∷ timestamped (right 3) 17
    ∷ flush_batch
    ∷ item left_end
    ∷ timestamped (right 4) 16
    ∷ timestamped (right 5) 30
    ∷ []

abbrev two_pairs : List (StreamElement (ℕ × ℕ))
two_pairs = watermark 15 ∷ timestamped (1, 3) 17 ∷ flush_batch ∷ timestamped (2, 4) 20 ∷ []

work-zipped_example :
    (work zip_next 9 (new, stream (two_sides ∷ [])) ≡ some (stream (two_pairs ∷ [])))
    × All (λ es. all_items (zipped [] [] es) ≡ zip_all (lefts es) (rights es)) (two_sides ∷ [])
work-zipped_example = work-zipped true 9 (two_sides ∷ []) (tt, tt) (omega arith)

work-IsInOrder_example :
    (work zip_next 9 (new, stream (two_sides ∷ [])) ≡ some (stream (two_pairs ∷ [])))
    × All (λ es. IsInOrder 0 (zipped [] [] es)) (two_sides ∷ [])
work-IsInOrder_example = work-IsInOrder true 9 (two_sides ∷ []) (tt, tt) (omega arith) (omega arith)
