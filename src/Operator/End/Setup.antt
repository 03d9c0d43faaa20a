-- ===== src/Operator/End/Setup.antt =====
-- What `setup_senders` makes of the receivers: one of each block for an item, all for the rest.
use mathlib.Core.List.{flatten, Perm}
use renoir.Prelude.{
  ℕ, ◌≤◌, ◌<◌, ◌≡◌, refl, sym, ap, ◌∙◌, Bool, true, false, Option, none, some, List, [], ◌∷◌,
  length, arith, ◌==◌, if◌then◌else◌, Bool-cases, inl, inr,
}
use renoir.Prelude.Keys.{nat_key}
use renoir.Prelude.Sums.{total, total-append}
use renoir.Stream.{StreamElement, item, watermark, flush_and_restart}
use renoir.Block.NextStrategy.{NextStrategy, index}
use renoir.Operator.End.{
  BlockId, Sender, End, Surroundings, grouped, is_allowed, setup_senders, pick_each, targets,
  get_elem?, is_terminate,
}
use renoir.Operator.End.Delivery.{blocks, copies, withheld, is_withheld}
use renoir.Operator.End.Calls.{AreGroups, received, pick-some}
use renoir.Operator.End.Senders.{hit, grouped-groups, grouped-once}
use renoir.Operator.End.Rivals.{OneOf, grouped-one, pick-total}
use mathlib.Core.Path.{subst}

module _ {ℓ} {Out : Type ℓ} where
  length-copies :
      (e : StreamElement Out) (j : ℕ) (is : List ℕ)
      → length (copies false e j is) ≡ total (hit j) is
  length-copies e j [] = refl
  length-copies e j (i ∷ is) = elim (Bool-cases (i == j)) [
    | inl h ↦ rw h (omega (arith, length-copies e j is))
    | inr n ↦ rw n (omega (arith, length-copies e j is))
  ]

  -- Copies are of the element.
  copies-none :
      (e : StreamElement Out) (j : ℕ) (is : List ℕ)
      → total (hit j) is ≡ 0
      → copies false e j is ≡ []
  copies-none e j [] h = refl
  copies-none e j (i ∷ is) h = elim (Bool-cases (i == j)) [
    | inl eq ↦ absurd (ground arith)
    | inr n ↦ rw n (copies-none e j is (ground arith))
  ]

  copies-one :
      (e : StreamElement Out) (j : ℕ) (is : List ℕ)
      → total (hit j) is ≡ 1
      → copies false e j is ≡ e ∷ []
  copies-one e j [] h = absurd (omega arith)
  copies-one e j (i ∷ is) h = elim (Bool-cases (i == j)) [
    | inl eq ↦ rw eq (ap (λ z. e ∷ z) (copies-none e j is (ground arith)))
    | inr n ↦ rw n (copies-one e j is (ground arith))
  ]

abbrev Picks : ℕ → List (List ℕ) → Type 0
Picks k groups =
    (is : List ℕ) × (pick_each k groups ≡ some is)
    × (length is ≡ length groups)
    × ((j : ℕ) → total (hit j) is ≤ total (hit j) (flatten groups))

-- One sender of each group is picked.
picks : (n k : ℕ) (groups : List (List ℕ)) → AreGroups n groups → Picks k groups
unfolding flatten
picks n k [] a = ([], refl, refl, λ j. omega arith)
picks n k (g ∷ groups) a =
    let (i, p, h) = pick-some n k g a.0.0 a.0.1 in
    let (is, q, l, hs) = picks n k groups a.1 in
    (
      i ∷ is,
      rw (p, q) refl,
      omega (arith, l),
      λ j. omega (arith, pick-total (hit j) k i g p, hs j, total-append (hit j) g (flatten groups)),
    )

module _ {ℓ} {Out : Type ℓ} where
  chosen : (b : Bool) (s t : End Out) → (if b then some s else none) ≡ some t → s ≡ t
  chosen true s t p = ap (λ o. elim o [ none ↦ s | some z ↦ z ]) p
  chosen false s t p = absurd (ground arith)

  -- The `j`th sender, of as many as there are, for each kind of element.
  abbrev pub IsServed : Surroundings → ℕ → Out → ℕ → End Out → Type ℓ
  IsServed env w x j t =
      (received t (blocks t.senders) j (env, watermark w) ≡ watermark w ∷ [])
      × (received t (blocks t.senders) j (env, flush_and_restart) ≡ flush_and_restart ∷ [])
      × (length (received t (blocks t.senders) j (env, item x)) ≤ 1)
      × ((is : List ℕ) × (targets t.next_strategy t.block_senders env.generated (item x) ≡ some is)
          × (length is ≡ length t.block_senders)
          × OneOf t.next_strategy (blocks t.senders) j is)

  never_withheld :
      (feedback : Option BlockId) (e : StreamElement Out) (o : Option BlockId)
      → is_terminate e ≡ false
      → is_withheld feedback e o ≡ false
  never_withheld feedback e none h = refl
  never_withheld none e (some b) h = refl
  never_withheld (some f) e (some b) h = rw h refl

module _ {ℓ} {Out : Type ℓ} (order : List (BlockId × List ℕ) → List (BlockId × List ℕ))
    (order-perm : (m : List (BlockId × List ℕ)) → Perm (order m) m) where
  broadcast-once :
      (feedback : Option BlockId) (strategy : NextStrategy Out) (e : StreamElement Out)
      (bs : List BlockId) (j : ℕ)
      → j < length bs
      → is_terminate e ≡ false
      → copies (withheld feedback e bs j) e j (flatten (grouped strategy order bs)) ≡ e ∷ []
  broadcast-once feedback strategy e bs j h n = rw (never_withheld feedback e (get_elem? bs j) n) (
      copies-one e j (flatten (grouped strategy order bs))
        (grouped-once order order-perm strategy bs j h))

  grouped-IsServed :
      (env : Surroundings) (w : ℕ) (x : Out) (j : ℕ) (t : End Out)
      → t.block_senders ≡ grouped t.next_strategy order (blocks t.senders)
      → j < length (blocks t.senders)
      → IsServed env w x j t
  grouped-IsServed env w x j t g h =
      let bs = blocks t.senders in
      let (is, p, l, hs) =
        picks (length bs) (index t.next_strategy env.generated x) (grouped t.next_strategy order bs)
          (grouped-groups order order-perm t.next_strategy bs) in
      let (is', q, one) =
        grouped-one order order-perm t.next_strategy bs j (index t.next_strategy env.generated x)
          h in
      let agree : is' ≡ is = ap (λ o. elim o [ none ↦ is | some z ↦ z ]) (sym q ∙ p) in
      let free : withheld t.feedback_id (item x) bs j ≡ false =
        never_withheld t.feedback_id (item x) (get_elem? bs j) refl in
      rw g (
        broadcast-once t.feedback_id t.next_strategy (watermark w) bs j h refl,
        broadcast-once t.feedback_id t.next_strategy flush_and_restart bs j h refl,
        rw (p, free)
            (omega (
              arith,
              length-copies (item x) j is,
              hs j,
              grouped-once order order-perm t.next_strategy bs j h,
            )),
        (is, p, l, subst (OneOf t.next_strategy bs j) agree one),
      )

  -- When `setup_senders` does not panic, for any strategy, any sort and any order of its map, then
  -- for each sender that it has grouped: a watermark and a `FlushAndRestart` are given to it
  -- exactly once, an item at most once, and an item has as many targets as there are groups,
  -- exactly one of which is a receiver of the same block, or, if the strategy is all replicas, is
  -- the sender itself.
  pub setup_senders-IsServed :
      (sort : List (Sender Out) → List (Sender Out)) (env : Surroundings) (w : ℕ) (x : Out) (j : ℕ)
      (s t : End Out)
      → setup_senders sort order s ≡ some t
      → j < length (blocks t.senders)
      → IsServed env w x j t
  setup_senders-IsServed sort env w x j s t p h =
      let sorted = sort s.senders in
      let groups = grouped s.next_strategy order (blocks sorted) in
      let made : End Out = record s { senders = sorted; block_senders = groups } in
      let same : made ≡ t = chosen (is_allowed s.next_strategy groups) made t p in
      let h' : j < length (blocks sorted) =
        subst (λ (z : End Out). j < length (blocks z.senders)) (sym same) h in
      subst (IsServed env w x j) same (grouped-IsServed env w x j made refl h')
