-- ===== src/Operator/End.antt =====
-- src/operator/end.rs: the last operator of a block, which hands each element to the replicas of the
-- next blocks.
pub mod Delivery
pub mod Calls
pub mod Received
pub mod Senders
pub mod Rivals
pub mod Setup
pub mod Tests
use renoir.Prelude.{
  ℕ, zero, suc, ◌%◌, Bool, true, false, Option, none, some, List, [], ◌∷◌, ◌++◌, map, length, ◌==◌,
  ◌&&◌, if◌then◌else◌,
}
use mathlib.Core.List.{flatten}
use renoir.Prelude.Keys.{nat_key}
use renoir.Prelude.HashMap.{push, contains}
use renoir.Stream.{
  StreamElement, item, timestamped, watermark, flush_batch, terminate, flush_and_restart,
}
use renoir.Block.NextStrategy.{NextStrategy, only_one, random, all_replicas, group_by, index}
use renoir.Block.Batcher.{BatcherInner, enqueue, flush, end}

abbrev pub BlockId : Type 0
BlockId = ℕ

-- A receiver, by its block, and the batcher of the messages to it.
pub record Sender {ℓ} (Out : Type ℓ) : Type ℓ where
  pub block_id : BlockId
  pub batcher : BatcherInner Out

-- `closed` are the senders that were drained.
pub record End {ℓ} (Out : Type ℓ) : Type ℓ where
  pub next_strategy : NextStrategy Out
  pub block_senders : List (List ℕ)
  pub senders : List (Sender Out)
  pub feedback_id : Option BlockId
  pub ignore_block_ids : List BlockId
  pub closed : List (Sender Out)

-- What a call takes from its environment: a random number, and for each sender whether its delay has
-- elapsed.
pub record Surroundings : Type 0 where
  pub generated : ℕ
  pub elapsed : ℕ → Bool

-- The index of each sender is put into the group of its block.
abbrev pub group_from : ℕ → List BlockId → List (BlockId × List ℕ) → List (BlockId × List ℕ)
group_from i [] m = m
group_from i (b ∷ blocks) m = group_from (suc i) blocks (push b i m)

abbrev pub singletons : ℕ → List BlockId → List (List ℕ)
singletons i [] = []
singletons i (b ∷ blocks) = (i ∷ []) ∷ singletons (suc i) blocks

abbrev pub into_values : List (BlockId × List ℕ) → List (List ℕ)
into_values = map (λ entry. entry.1)

abbrev pub all_single : List (List ℕ) → Bool
all_single [] = true
all_single (g ∷ groups) = if length g == 1 then all_single groups else false

-- The element of a slice, which panics out of bounds.
abbrev pub get_elem? {ℓ} : {A : Type ℓ} → List A → ℕ → Option A
get_elem? [] i = none
get_elem? (x ∷ xs) zero = some x
get_elem? (x ∷ xs) (suc i) = get_elem? xs i

-- `block.indexes[index % block.indexes.len()]`; the remainder by zero panics.
abbrev pub pick : ℕ → List ℕ → Option ℕ
pick n [] = none
pick n (i ∷ group) = get_elem? (i ∷ group) (n % length (i ∷ group))

abbrev pub cons_some {ℓ} : {A : Type ℓ} → Option A → Option (List A) → Option (List A)
cons_some (some x) (some xs) = some (x ∷ xs)
cons_some _ _ = none

abbrev pub pick_each : ℕ → List (List ℕ) → Option (List ℕ)
pick_each n [] = some []
pick_each n (g ∷ groups) = cons_some (pick n g) (pick_each n groups)

module _ {ℓ} {Out : Type ℓ} where
  abbrev pub grouped :
      NextStrategy Out
      → (List (BlockId × List ℕ) → List (BlockId × List ℕ))
      → List BlockId
      → List (List ℕ)
  grouped all_replicas order blocks = singletons 0 blocks
  grouped _ order blocks = into_values (order (group_from 0 blocks []))

  -- The assertion for `OnlyOne`.
  abbrev pub is_allowed : NextStrategy Out → List (List ℕ) → Bool
  is_allowed only_one groups = all_single groups
  is_allowed _ groups = true

  abbrev pub new : NextStrategy Out → End Out
  new strategy = record {
    next_strategy = strategy;
    block_senders = [];
    senders = [];
    feedback_id = none;
    ignore_block_ids = [];
    closed = [];
  }

  abbrev pub mark_feedback : BlockId → End Out → End Out
  mark_feedback b s = record s { feedback_id = some b }

  abbrev pub ignore_destination : BlockId → End Out → End Out
  ignore_destination b s = record s { ignore_block_ids = s.ignore_block_ids ++ b ∷ [] }

  -- `setup_senders`; `sort` puts the senders in the order of their endpoints, and `order` is that in
  -- which the map gives its values.
  abbrev pub setup_senders :
      (List (Sender Out) → List (Sender Out))
      → (List (BlockId × List ℕ) → List (BlockId × List ℕ))
      → End Out
      → Option (End Out)
  setup_senders sort order s =
      let sorted = sort s.senders in
      let groups = grouped s.next_strategy order (map (λ e. e.block_id) sorted) in
      if is_allowed s.next_strategy groups
      then some (record s { senders = sorted; block_senders = groups })
      else none

  -- The senders that the network gives, less those to ignored blocks.
  abbrev pub not_ignored : List BlockId → List (Sender Out) → List (Sender Out)
  not_ignored ignored [] = []
  not_ignored ignored (e ∷ senders) =
      if contains e.block_id ignored
      then not_ignored ignored senders
      else e ∷ not_ignored ignored senders

  abbrev pub setup :
      (List (Sender Out) → List (Sender Out))
      → (List (BlockId × List ℕ) → List (BlockId × List ℕ))
      → List (Sender Out)
      → End Out
      → Option (End Out)
  setup sort order network s =
      setup_senders sort order (record s { senders = not_ignored s.ignore_block_ids network })

  -- `enqueue` on one of the senders, from the `i`th on.
  abbrev pub enqueue_at :
      (ℕ → Bool) → StreamElement Out → ℕ → ℕ → List (Sender Out) → Option (List (Sender Out))
  enqueue_at elapsed e i k [] = none
  enqueue_at elapsed e i zero (s ∷ senders) =
      some (record s { batcher = enqueue (elapsed i) e s.batcher } ∷ senders)
  enqueue_at elapsed e i (suc k) (s ∷ senders) =
      cons_some (some s) (enqueue_at elapsed e (suc i) k senders)

  -- Whether the sender is the destination of the feedback loop.
  abbrev pub is_feedback : Option BlockId → Sender Out → Bool
  is_feedback none s = false
  is_feedback (some b) s = s.block_id == b

  abbrev pub is_terminate : StreamElement Out → Bool
  is_terminate terminate = true
  is_terminate _ = false

  -- The body of the loops: a `Terminate` is not sent to the feedback.
  abbrev pub send_to :
      Option BlockId
      → (ℕ → Bool)
      → StreamElement Out
      → List (Sender Out)
      → ℕ
      → Option (Sender Out)
      → Option (List (Sender Out))
  send_to feedback elapsed e senders i none = none
  send_to feedback elapsed e senders i (some s) =
      if is_terminate e && is_feedback feedback s
      then some senders
      else enqueue_at elapsed e 0 i senders

  abbrev pub then_send :
      Option (List (Sender Out))
      → (List (Sender Out) → Option (List (Sender Out)))
      → Option (List (Sender Out))
  then_send none k = none
  then_send (some senders) k = k senders

  abbrev pub send_all :
      Option BlockId
      → (ℕ → Bool)
      → StreamElement Out
      → List ℕ
      → List (Sender Out)
      → Option (List (Sender Out))
  send_all feedback elapsed e [] senders = some senders
  send_all feedback elapsed e (i ∷ is) senders =
      then_send (send_to feedback elapsed e senders i (get_elem? senders i))
        (send_all feedback elapsed e is)

  -- The indexes of the senders for an element.
  abbrev pub targets : NextStrategy Out → List (List ℕ) → ℕ → StreamElement Out → Option (List ℕ)
  targets strategy groups generated (item x) = pick_each (index strategy generated x) groups
  targets strategy groups generated (timestamped x ts) =
      pick_each (index strategy generated x) groups
  targets strategy groups generated flush_batch = some []
  targets strategy groups generated e = some (flatten groups)

  -- The second `match`: the batchers are flushed, or end.
  abbrev pub flush_sender : Sender Out → Sender Out
  flush_sender s = record s { batcher = flush s.batcher }

  abbrev pub end_sender : Sender Out → Sender Out
  end_sender s = record s { batcher = end s.batcher }

  abbrev pub flush_stage : StreamElement Out → End Out → End Out
  flush_stage flush_and_restart s = record s { senders = map flush_sender s.senders }
  flush_stage flush_batch s = record s { senders = map flush_sender s.senders }
  flush_stage terminate s = record s { senders = []; closed = s.closed ++ map end_sender s.senders }
  flush_stage e s = s

  abbrev pub sent_stage :
      StreamElement Out → End Out → Option (List (Sender Out)) → Option (End Out)
  sent_stage e s none = none
  sent_stage e s (some senders) = some (flush_stage e (record s { senders = senders }))

  abbrev pub targets_stage :
      Surroundings → StreamElement Out → End Out → Option (List ℕ) → Option (End Out)
  targets_stage env e s none = none
  targets_stage env e s (some is) =
      sent_stage e s (send_all s.feedback_id env.elapsed e is s.senders)

  -- `next`, for the element that the previous operator returned.
  unfoldable pub end_next : Surroundings → StreamElement Out → End Out → Option (End Out)
  end_next env e s = targets_stage env e s (targets s.next_strategy s.block_senders env.generated e)
