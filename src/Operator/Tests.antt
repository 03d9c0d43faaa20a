-- ===== src/Operator/Tests.antt =====
-- Runs of the operators, and their theorems at concrete inputs.
use mathlib.Core.List.{Perm}
use mathlib.Core.List.Perm
use renoir.Prelude.{
  ℕ, ◌+◌, ◌≤◌, ◌≡◌, none, some, List, [], ◌∷◌, map, All, arith, ltb, leb, ◌==◌, if◌then◌else◌,
  Option, ◌*◌, ◌++◌, foldl,
}
use renoir.Stream.{
  Timestamp, StreamElement, item, timestamped, watermark, flush_batch, terminate, flush_and_restart,
}
use renoir.Stream.Run.{do_work, stream, Emits}
use renoir.Operator.Filter.{filter_next, do_work-filter}
use renoir.Operator.FilterMap.{filter_map_next, results, chosen, do_work-filter_map}
use renoir.Operator.Inspect.{inspect_next, do_work-inspect}
use renoir.Operator.Fold.Summary.{values}
use renoir.Operator.Fold.Iteration.{do_work-fold}
use renoir.Operator.DropTimestamp.{drop_timestamp_next, untimed, do_work-drop_timestamp}
use renoir.Stream.Fallible.{work}
use renoir.Operator.AddTimestamp.{new as add_new, add_timestamp_next, work-stamped}
use renoir.Operator.FlatMap.{flat_map_next, expanded, do_work-flat_map}
use renoir.Operator.KeyedFlatMap.{
  KeyedFlatMap, keyed_flat_map_next, unkeyed_result, paired, keyed_flat_map-flat_map,
}
use renoir.Operator.Fold.{new as fold_new, fold_next}
use renoir.Operator.Reorder.{TimestampedItem, new, reorder_next}
use renoir.Operator.Reorder.Iteration.{reordered, do_work-reorder}
use renoir.Operator.Reorder.Order.{
  From, IsSorted, IsAscending, timestamped_items, do_work-IsAscending, do_work-Perm,
}

-- Two iterations: plain items, and timestamped ones with a watermark.
abbrev input : List (List (StreamElement ℕ))
input =
    (item 5 ∷ flush_batch ∷ item 1 ∷ [])
    ∷ (timestamped 3 30 ∷ timestamped 4 10 ∷ watermark 20 ∷ [])
    ∷ []

do_work-fold_example :
    do_work (fold_next ◌+◌) 9 (fold_new ◌+◌ 0, stream input)
    ≡ some (item 6 ∷ flush_and_restart ∷ timestamped 7 30 ∷ watermark 20 ∷ flush_and_restart ∷ [])
do_work-fold_example = do_work-fold ◌+◌ 0 9 input (omega arith) (omega arith)

do_work-flat_map_example :
    do_work
      (flat_map_next (λ n. n ∷ n ∷ []))
      20
      (record { frontiter = none; timestamp = none }, stream input)
    ≡ some (stream (map (expanded (λ n. n ∷ n ∷ [])) input))
do_work-flat_map_example = do_work-flat_map (λ n. n ∷ n ∷ []) 20 input (omega arith) (omega arith)

do_work-drop_timestamp_example :
    do_work drop_timestamp_next 9 (tt, stream (input)) ≡ some (stream (map untimed input))
do_work-drop_timestamp_example = do_work-drop_timestamp 9 input (omega arith) (omega arith)

abbrev twice : ℕ × ℕ → List ℕ
twice (key, x) = x ∷ x ∷ []

-- A state with an item left, before a keyed item.
abbrev half_read : KeyedFlatMap ℕ ℕ
half_read = record { frontiter = some (7, 1 ∷ []); timestamp = some 4 }

keyed_flat_map-flat_map_example :
    unkeyed_result twice (keyed_flat_map_next twice (half_read, item (8, 2) ∷ []))
    ≡ flat_map_next
        (paired twice)
        (record { frontiter = some ((7, 1) ∷ []); timestamp = some 4 }, item (8, 2) ∷ [])
keyed_flat_map-flat_map_example = keyed_flat_map-flat_map twice half_read (item (8, 2) ∷ [])

do_work-filter_example :
    do_work (filter_next (ltb 3)) 9 (tt, stream input)
    ≡ some (
        item 5
        ∷ flush_batch
        ∷ flush_and_restart
        ∷ timestamped 4 10
        ∷ watermark 20
        ∷ flush_and_restart
        ∷ [])
do_work-filter_example = do_work-filter (ltb 3) 9 input (omega arith) (omega arith)

-- A closure that answers for some items.
abbrev scale_large : ℕ → Option ℕ
scale_large n = if ltb 3 n then some (n * 10) else none

do_work-filter_map_example :
    (do_work (filter_map_next scale_large) 9 (tt, stream input)
      ≡ some (stream (map (results scale_large) input)))
    × All (λ xs. values (results scale_large xs) ≡ chosen scale_large xs) input
do_work-filter_map_example = do_work-filter_map scale_large 9 input (omega arith) (omega arith)

do_work-inspect_example :
    (do_work (inspect_next (λ n x. n + x)) 20 (0, stream input) ≡ some (stream input))
    × Emits
        (inspect_next (λ n x. n + x))
        (0, stream input)
        (stream input ++ terminate ∷ [])
        (foldl (λ n x. n + x) 0 (values (stream input)), [])
do_work-inspect_example =
    do_work-inspect (λ n x. n + x) 20 0 (stream input) (omega arith) (omega arith)

-- Insertion sort, for the sort that `Reorder` is given.
abbrev insert : TimestampedItem ℕ → List (TimestampedItem ℕ) → List (TimestampedItem ℕ)
insert e [] = e ∷ []
insert e (f ∷ fs) = if leb e.timestamp f.timestamp then e ∷ f ∷ fs else f ∷ insert e fs

abbrev sort : List (TimestampedItem ℕ) → List (TimestampedItem ℕ)
sort [] = []
sort (e ∷ es) = insert e (sort es)

insert-perm : (e : TimestampedItem ℕ) (es : List (TimestampedItem ℕ)) → Perm (insert e es) (e ∷ es)
insert-perm e [] = Perm.refl (e ∷ [])
insert-perm e (f ∷ fs) =
    let later : Perm (f ∷ insert e fs) (e ∷ f ∷ fs) =
      Perm.trans (Perm.cons f (insert-perm e fs)) (Perm.swap e f fs) in
    ground (arith, later, Perm.refl (e ∷ f ∷ fs))

sort-perm : (es : List (TimestampedItem ℕ)) → Perm (sort es) es
sort-perm [] = Perm.refl []
sort-perm (e ∷ es) = Perm.trans (insert-perm e (sort es)) (Perm.cons e (sort-perm es))

From-insert :
    (low : Timestamp) (e : TimestampedItem ℕ) (es : List (TimestampedItem ℕ))
    → low ≤ e.timestamp
    → From low es
    → From low (insert e es)
From-insert low e [] h f = (h, tt)
From-insert low e (x ∷ es) h f = ground (arith, From-insert low e es)

From-below :
    (low high : Timestamp) (es : List (TimestampedItem ℕ)) → low ≤ high → From high es → From low es
From-below low high [] h f = tt
From-below low high (e ∷ es) h f = (omega arith, From-below low high es h f.1)

insert-IsSorted :
    (e : TimestampedItem ℕ) (es : List (TimestampedItem ℕ)) → IsSorted es → IsSorted (insert e es)
insert-IsSorted e [] s = (tt, tt)
insert-IsSorted e (f ∷ fs) s = ground (
  arith,
  insert-IsSorted e fs,
  From-insert f.timestamp e fs,
  From-below e.timestamp f.timestamp fs,
)

sort-IsSorted : (es : List (TimestampedItem ℕ)) → IsSorted (sort es)
sort-IsSorted [] = tt
sort-IsSorted (e ∷ es) = insert-IsSorted e (sort es) (sort-IsSorted es)

-- The stream of the unit test of reorder.rs.
abbrev late : List (StreamElement ℕ)
late =
    timestamped 1 1
    ∷ timestamped 3 3
    ∷ timestamped 2 2
    ∷ watermark 3
    ∷ timestamped 6 6
    ∷ timestamped 4 4
    ∷ timestamped 5 5
    ∷ []

do_work-reorder_example :
    do_work (reorder_next sort) 20 (new, stream (late ∷ []))
    ≡ some (
        timestamped 1 1
        ∷ timestamped 2 2
        ∷ timestamped 3 3
        ∷ watermark 3
        ∷ timestamped 4 4
        ∷ timestamped 5 5
        ∷ timestamped 6 6
        ∷ flush_and_restart
        ∷ [])
do_work-reorder_example = do_work-reorder sort 20 (late ∷ []) (omega arith) (omega arith)

abbrev in_turn : List (StreamElement ℕ)
in_turn =
    timestamped 1 1
    ∷ timestamped 2 2
    ∷ timestamped 3 3
    ∷ watermark 3
    ∷ timestamped 4 4
    ∷ timestamped 5 5
    ∷ timestamped 6 6
    ∷ []

do_work-IsAscending_example :
    (do_work (reorder_next sort) 20 (new, stream (late ∷ [])) ≡ some (stream (in_turn ∷ [])))
    × All (IsAscending 0) (in_turn ∷ [])
do_work-IsAscending_example =
    do_work-IsAscending sort sort-IsSorted sort-perm 20 (late ∷ []) (omega arith) (omega arith)
      (omega arith)

do_work-Perm_example :
    (do_work (reorder_next sort) 20 (new, stream (late ∷ [])) ≡ some (stream (in_turn ∷ [])))
    × All (λ xs. Perm (timestamped_items (reordered sort [] xs)) (timestamped_items xs)) (late ∷ [])
do_work-Perm_example =
    do_work-Perm sort sort-IsSorted sort-perm 20 (late ∷ []) (omega arith) (omega arith)

-- The timestamps count up, and every second item comes with a watermark.
abbrev count_ts : ℕ → ℕ → ℕ × ℕ
count_ts x g = (g, g + 1)

abbrev odd_watermark : ℕ → ℕ → ℕ → Option ℕ × ℕ
odd_watermark x ts g = (if ts == 1 then some ts else none, g)

abbrev plain_items : List (StreamElement ℕ)
plain_items = item 7 ∷ flush_batch ∷ item 8 ∷ flush_and_restart ∷ []

abbrev stamped_items : List (StreamElement ℕ)
stamped_items =
    timestamped 7 0 ∷ flush_batch ∷ timestamped 8 1 ∷ watermark 1 ∷ flush_and_restart ∷ []

work-stamped_example :
    (work
        (add_timestamp_next count_ts odd_watermark)
        9
        (add_new count_ts odd_watermark 0, plain_items)
      ≡ some stamped_items)
    × (do_work drop_timestamp_next 9 (tt, stamped_items) ≡ some plain_items)
work-stamped_example =
    work-stamped count_ts odd_watermark 9 0 plain_items (tt, (tt, (tt, (tt, tt)))) (omega arith)
