-- ===== src/Operator/End/Calls.antt =====
-- `End` over a whole stream.
use mathlib.Core.List.{flatten}
use renoir.Prelude.{
  ℕ, zero, suc, ◌%◌, ◌<◌, ◌≡◌, refl, ap, Option, none, some, List, [], ◌∷◌, ◌++◌, map, length,
  arith, All, All-append,
}
use renoir.Stream.{
  StreamElement, item, timestamped, watermark, flush_batch, terminate, flush_and_restart,
}
use renoir.Block.NextStrategy.{NextStrategy, index}
use renoir.Block.Batcher.Order.{flush-passed, flush-IsReady}
use renoir.Block.Batcher.Events.{end-sent}
use renoir.Operator.End.Delivery.{AreReady, passed_of, sent_of, blocks, copies_at}
use renoir.Operator.End.{
  BlockId, Sender, End, Surroundings, get_elem?, pick, pick_each, targets, flush_sender, end_sender,
  end_next,
}

module _ {ℓ} {A : Type ℓ} where
  get_elem?-All :
      (P : A → Type 0) (xs : List A) (i : ℕ)
      → i < length xs
      → All P xs
      → (x : A) × (get_elem? xs i ≡ some x) × P x
  get_elem?-All P [] i h a = absurd (omega arith)
  get_elem?-All P (x ∷ xs) zero h a = (x, refl, a.0)
  get_elem?-All P (x ∷ xs) (suc i) h a = get_elem?-All P xs i (omega arith) a.1

-- Each group has a sender, and each is one of `n`.
abbrev pub AreGroups : ℕ → List (List ℕ) → Type 0
AreGroups n = All (λ g. (0 < length g) × All (λ i. i < n) g)

pub pick-some :
    (n k : ℕ) (g : List ℕ)
    → 0 < length g
    → All (λ i. i < n) g
    → (i : ℕ) × (pick k g ≡ some i) × (i < n)
pick-some n k [] h a = absurd (omega arith)
pick-some n k (i ∷ g) h a = get_elem?-All (λ i. i < n) (i ∷ g) (k % length (i ∷ g)) (omega arith) a

pick_each-some :
    (n k : ℕ) (groups : List (List ℕ))
    → AreGroups n groups
    → (is : List ℕ) × (pick_each k groups ≡ some is) × All (λ i. i < n) is
pick_each-some n k [] a = ([], refl, tt)
pick_each-some n k (g ∷ groups) a =
    let (i, p, h) = pick-some n k g a.0.0 a.0.1 in
    let (is, q, hs) = pick_each-some n k groups a.1 in (i ∷ is, rw (p, q) refl, (h, hs))

flatten-below :
    (n : ℕ) (groups : List (List ℕ)) → AreGroups n groups → All (λ i. i < n) (flatten groups)
unfolding flatten
flatten-below n [] a = tt
flatten-below n (g ∷ groups) a =
    All-append (λ i. i < n) g (flatten groups) a.0.1 (flatten-below n groups a.1)

module _ {ℓ} {Out : Type ℓ} where
  pub targets-some :
      (strategy : NextStrategy Out) (n k : ℕ) (groups : List (List ℕ)) (e : StreamElement Out)
      → AreGroups n groups
      → (is : List ℕ) × (targets strategy groups k e ≡ some is) × All (λ i. i < n) is
  targets-some strategy n k groups (item x) a = pick_each-some n (index strategy k x) groups a
  targets-some strategy n k groups (timestamped x ts) a =
      pick_each-some n (index strategy k x) groups a
  targets-some strategy n k groups flush_batch a = ([], refl, tt)
  targets-some strategy n k groups (watermark w) a =
      (flatten groups, refl, flatten-below n groups a)
  targets-some strategy n k groups terminate a = (flatten groups, refl, flatten-below n groups a)
  targets-some strategy n k groups flush_and_restart a =
      (flatten groups, refl, flatten-below n groups a)

  -- What the sender `j` is given for an element.
  abbrev pub copies_for :
      Option BlockId
      → StreamElement Out
      → List BlockId
      → ℕ
      → Option (List ℕ)
      → List (StreamElement Out)
  copies_for feedback e bs j none = []
  copies_for feedback e bs j (some is) = copies_at feedback e bs is j

  -- `bs` are the blocks of the senders.
  abbrev pub received :
      End Out → List BlockId → ℕ → Surroundings × StreamElement Out → List (StreamElement Out)
  received s bs j (env, e) =
      copies_for s.feedback_id e bs j (targets s.next_strategy s.block_senders env.generated e)

  abbrev pub all_received :
      End Out
      → List BlockId
      → ℕ
      → List (Surroundings × StreamElement Out)
      → List (StreamElement Out)
  all_received s bs j [] = []
  all_received s bs j (c ∷ calls) = received s bs j c ++ all_received s bs j calls

  -- The calls for a whole stream.
  abbrev pub after_next : Option (End Out) → (End Out → Option (End Out)) → Option (End Out)
  after_next none k = none
  after_next (some s) k = k s

  abbrev pub run : List (Surroundings × StreamElement Out) → End Out → Option (End Out)
  run [] s = some s
  run ((env, e) ∷ calls) s = after_next (end_next env e s) (run calls)

  pub flush_all-ready :
      (senders : List (Sender Out)) → AreReady senders → AreReady (map flush_sender senders)
  flush_all-ready [] r = tt
  flush_all-ready (s ∷ senders) r = (flush-IsReady s.batcher r.0, flush_all-ready senders r.1)

  pub flush_all-blocks :
      (senders : List (Sender Out)) → blocks (map flush_sender senders) ≡ blocks senders
  flush_all-blocks [] = refl
  flush_all-blocks (s ∷ senders) = ap (λ z. s.block_id ∷ z) (flush_all-blocks senders)

  pub flush_all-passed :
      (senders : List (Sender Out)) (j : ℕ)
      → passed_of (get_elem? (map flush_sender senders) j) ≡ passed_of (get_elem? senders j)
  flush_all-passed [] j = refl
  flush_all-passed (s ∷ senders) zero = flush-passed s.batcher
  flush_all-passed (s ∷ senders) (suc j) = flush_all-passed senders j

  pub end_all-sent :
      (senders : List (Sender Out)) (j : ℕ)
      → sent_of (get_elem? (map end_sender senders) j) ≡ passed_of (get_elem? senders j)
  end_all-sent [] j = refl
  end_all-sent (s ∷ senders) zero = end-sent s.batcher.buffer s.batcher refl
  end_all-sent (s ∷ senders) (suc j) = end_all-sent senders j
