-- ===== src/Lib.antt =====
-- Renoir: a model of the operators of the streaming engine.
--
-- A Renoir job is a graph of blocks; a block is a chain of operators that a worker drives by calling
-- `next` on the last one until it returns `Terminate` (src/worker.rs). Each operator pulls elements
-- from the previous one; an element is an item, with or without a timestamp, a watermark, a request
-- to flush, or the end of an iteration or of the stream (src/operator/mod.rs).
--
-- The parts:
--   Stream        the elements of a stream, the operator that replays a list of them (src/test.rs)
--                 and the loop of a worker (src/worker.rs): `do_work` for operators that do not panic,
--                 `work` (Fallible) for those that may. `Transforms` and `Reworks` are what an
--                 operator promises in each case: it turns each iteration into another one.
--   Frontier      src/operator/start/watermark_frontier.rs, the merge of the watermarks of the
--                 previous replicas: Map is its map of coordinates, Best and Safety what it means.
--   Start         src/operator/start/mod.rs, the operator that reads the network: its state and its
--                 calls; Flat is the same loop without batches, Ledger what has been read.
--   Operator      the operators of a chain, one module each: Filter (filter.rs), Map (map.rs,
--                 key_by.rs), FilterMap (filter_map.rs), Inspect (inspect.rs), FlatMap and
--                 KeyedFlatMap (flat_map.rs, flatten.rs), Fold (fold.rs), Reorder (reorder.rs),
--                 AddTimestamp and DropTimestamp (add_timestamps.rs), Zip (zip.rs, over the two sides
--                 that Start merges), LimitSorted (limit_sorted.rs), and End (end.rs), which sends the
--                 elements of a block to the next blocks. RichMap (rich_map.rs) keeps a closure for
--                 each key, and keeps it when an iteration ends, although the doc of
--                 `FlushAndRestart` (mod.rs) says that no state should be retained: the program has
--                 the call that clears the closures in a comment.
--   Block         src/block: Batcher (batcher.rs), the batches of an End and the thread that flushes
--                 them, and NextStrategy (next_strategy.rs), the choice of a replica.
--   Join          src/operator/join: the two sides of a join (mod.rs, and start/binary.rs) and the
--                 hash join (local_hash.rs): Spec is the join of two lists, Correct its refinement.
--   Source        src/operator/source: File (file.rs), whose replicas share the lines of a file, and
--                 ParallelIterator (parallel_iterator.rs), whose replicas share a range.
--   Window        src/operator/window: the results of windows, Feed (a manager fed elements), Count
--                 (descr/count.rs), LastK (descr/last_k.rs), All (descr/all.rs), Session
--                 (descr/session.rs), Transaction (descr/transaction.rs), and the accumulators in
--                 Aggregate (aggr).
--   Prelude       what the parts share: lists, keys, an association list for a HashMap, sums over
--                 lists.
--
-- State is passed explicitly: `next` takes and returns the operator's own fields and the elements
-- that the previous operator still returns. A loop that asks the previous operator again is recursion
-- on that list, whose end is a previous operator that has terminated; the loops over the bytes of a
-- file and over the values of a range are recursion on these. The loop of a worker runs on fuel; the
-- theorems give it more fuel than the stream that it passes on has elements (a source: than its bytes
-- or values, and two more), and conclude that it ends. A panic is the result `none`.
--
-- Timestamps, which are i64, are kept as their distance from i64::MIN, so that their order, their
-- equality and their maxima are those of the program. Counters are unbounded: no run counts to 2 ^ 64
-- elements. The ranges of ParallelIterator are u64 with their saturating and wrapping operations
-- written out; its plain product wraps, as in a release build, where a debug build would panic.
--
-- Parameters stand for the code of libraries and of users. The sorts (of `Reorder`, `LimitSorted` and
-- the senders of `End`) are parameters, with hypotheses, where a theorem needs them, that they permute
-- their input and that they sort it. The comparison of `max` and `min` is one with the laws of a strict
-- order, the equality of keys one that decides equality (KeyEq). The order in which a HashMap is drained
-- is a parameter that permutes its entries. The test for UTF-8 is a parameter, and so are the functions
-- that a user gives (predicates, folds, keyers, window accumulators). The random choice of a replica,
-- the clock and what the network delivers are inputs of the calls. A batcher keeps the log of what it
-- has given to its channel.
--
-- Not modelled: the network (src/network: channels, multiplexers), the scheduler and the runner, the
-- other sources (csv, kafka, parquet, avro, channel, iterator), the sinks, the caches and the
-- asynchronous operators, which are input and output or glue around libraries; the iterations, the
-- sort-merge and interval joins, the keyed fold, the route, the custom rich map and the memo, the
-- receivers of Start, and the windows by time.
pub mod Prelude
pub mod Stream
pub mod Frontier
pub mod Start
pub mod Operator
pub mod Window
pub mod Join
pub mod Source
pub mod Block
