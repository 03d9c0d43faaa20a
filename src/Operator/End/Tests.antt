-- ===== src/Operator/End/Tests.antt =====
-- `End` with three receivers, two of them replicas of one block.
use mathlib.Core.List.{Perm, flatten}
use mathlib.Core.List.Perm
use renoir.Prelude.{ℕ, ◌≡◌, ◌++◌, refl, false, some, List, [], ◌∷◌, arith}
use renoir.Stream.{StreamElement, item, watermark, flush_and_restart, terminate}
use renoir.Block.NextStrategy.{group_by}
use renoir.Block.Batcher as Batcher
use renoir.Block.Batcher.{fixed}
use renoir.Operator.End.{BlockId, Sender, End, Surroundings, get_elem?}
use renoir.Operator.End.Delivery.{sent_of}
use renoir.Operator.End.Calls.{run}
use renoir.Operator.End.Received.{run-received}
use renoir.Operator.End.Setup.{IsServed, setup_senders-IsServed}

abbrev to_block : BlockId → Sender ℕ
to_block b = record { block_id = b; batcher = Batcher.new (fixed 2) }

abbrev unsorted : End ℕ
unsorted = record {
  next_strategy = group_by (λ x. x);
  block_senders = [];
  senders = to_block 5 ∷ to_block 5 ∷ to_block 8 ∷ [];
  feedback_id = some 8;
  ignore_block_ids = [];
  closed = [];
}

abbrev ready : End ℕ
ready = record unsorted { block_senders = (0 ∷ 1 ∷ []) ∷ (2 ∷ []) ∷ [] }

abbrev quiet : Surroundings
quiet = record { generated = 0; elapsed = λ i. false }

abbrev calls : List (Surroundings × StreamElement ℕ)
calls =
    (quiet, item 4)
    ∷ (quiet, item 7)
    ∷ (quiet, watermark 3)
    ∷ (quiet, item 9)
    ∷ (quiet, flush_and_restart)
    ∷ []

-- The second replica of block 5 gets the odd items.
run-received_example :
    (t : End ℕ) × (run (calls ++ (quiet, terminate) ∷ []) ready ≡ some t)
    × (t.senders ≡ [])
    × (sent_of (get_elem? t.closed 1)
        ≡ item 7 ∷ watermark 3 ∷ item 9 ∷ flush_and_restart ∷ terminate ∷ [])
unfolding flatten
run-received_example =
    run-received ready (5 ∷ 5 ∷ 8 ∷ []) calls quiet 1 refl refl (omega arith)
      (
        record { size = omega arith; room = omega arith },
        (
          record { size = omega arith; room = omega arith },
          (record { size = omega arith; room = omega arith }, tt),
        ),
      )
      (tt, (tt, (tt, (tt, (tt, tt)))))

abbrev same_senders : List (Sender ℕ) → List (Sender ℕ)
same_senders senders = senders

abbrev same_order : List (BlockId × List ℕ) → List (BlockId × List ℕ)
same_order m = m

same_order-perm : (m : List (BlockId × List ℕ)) → Perm (same_order m) m
same_order-perm m = Perm.refl m

setup_senders-IsServed_example : IsServed quiet 3 7 1 ready
setup_senders-IsServed_example =
    setup_senders-IsServed same_order same_order-perm same_senders quiet 3 7 1 unsorted ready refl
      (omega arith)
