-- ===== src/Block/Batcher/Tests.antt =====
-- The batcher at concrete calls.
use mathlib.Core.List.{flatten}
use renoir.Prelude.{ℕ, ◌<◌, ◌≡◌, ◌++◌, true, false, some, List, [], ◌∷◌, length, arith}
use renoir.Stream.{StreamElement, item, flush_and_restart}
use renoir.Block.Batcher.{BatcherInner, adaptive, max_size, full, ok, new, end}
use renoir.Block.Batcher.Events.{Event, enqueued, flushed, ticked, run, batcher-messages}

abbrev calls : List (Event ℕ)
calls =
    enqueued false (item 1)
    ∷ ticked full
    ∷ enqueued false (item 2)
    ∷ enqueued true (item 3)
    ∷ flushed
    ∷ enqueued false (item 4)
    ∷ ticked ok
    ∷ enqueued false flush_and_restart
    ∷ []

abbrev four_items : List (StreamElement ℕ)
four_items = item 1 ∷ item 2 ∷ item 3 ∷ item 4 ∷ flush_and_restart ∷ []

batcher-messages_example :
    (b : BatcherInner ℕ) × (run calls (new (adaptive 2 50)) ≡ some b)
    × (length b.buffer < max_size b.mode)
    × (flatten b.sent ++ b.buffer ≡ four_items)
    × (flatten (end b).sent ≡ four_items)
batcher-messages_example = batcher-messages (adaptive 2 50) calls (omega arith) tt
