-- ===== src/Operator/RichMap/Tests.antt =====
-- `RichMap` with a running sum for each key.
use renoir.Prelude.{map, ℕ, ◌+◌, ◌≡◌, some, List, [], ◌∷◌, arith}
use renoir.Prelude.Keys.{nat_key}
use renoir.Stream.{StreamElement, item, timestamped, watermark, flush_and_restart}
use renoir.Stream.Run.{do_work}
use renoir.Operator.Fold.Summary.{values}
use renoir.Operator.RichMap.{rich_map_next}
use renoir.Operator.RichMap.Isolation.{
  without_value, of_key, one_by_one, rich_mapped, do_work-rich_map,
}

abbrev running_sum : ℕ → ℕ → ℕ → ℕ × ℕ
running_sum c k v = (c + v, c + v)

-- Two keys, and the sum of the first goes on in the second iteration.
abbrev two_keys : List (StreamElement (ℕ × ℕ))
two_keys =
    item (1, 10)
    ∷ timestamped (2, 5) 7
    ∷ item (1, 20)
    ∷ watermark 8
    ∷ flush_and_restart
    ∷ item (2, 1)
    ∷ item (1, 3)
    ∷ flush_and_restart
    ∷ []

abbrev summed : List (StreamElement (ℕ × ℕ))
summed =
    item (1, 10)
    ∷ timestamped (2, 5) 7
    ∷ item (1, 30)
    ∷ watermark 8
    ∷ flush_and_restart
    ∷ item (2, 6)
    ∷ item (1, 33)
    ∷ flush_and_restart
    ∷ []

do_work-rich_map_example :
    (do_work (rich_map_next running_sum 0) 9 ([], two_keys) ≡ some summed)
    × (map without_value summed ≡ map without_value two_keys)
    × ((k : ℕ)
        → of_key k (values (rich_mapped running_sum 0 [] two_keys))
          ≡ one_by_one running_sum 0 k 0 (of_key k (values two_keys)))
do_work-rich_map_example = do_work-rich_map running_sum 0 9 two_keys (omega arith) (omega arith)
