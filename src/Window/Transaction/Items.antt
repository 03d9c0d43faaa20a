-- ===== src/Window/Transaction/Items.antt =====
-- Where the items of a transaction window go, with lists of items for the accumulators.
use mathlib.Core.Option
use renoir.Prelude.{
  ◌≡◌, ◌≢◌, refl, sym, ap, ◌∙◌, Option, none, some, List, [], ◌∷◌, ◌++◌, append_assoc, append-nil,
  ltb, Bool-cases, Option-cases, inl, inr, All,
}
use renoir.Stream.{
  Timestamp, StreamElement, item, timestamped, watermark, flush_batch, terminate, flush_and_restart,
}
use renoir.Window.{WindowResult, plain, result_item}
use renoir.Window.Feed.{Outcome, Fed, cons_some, then_feed, feed}
use renoir.Window.Transaction.{
  TransactionOp, continue, commit, commit_after, discard, Slot, TransactionWindowManager, current,
  command, add_item, close_before, close_at_end, process_element, build,
}

module _ {ℓ} {In : Type ℓ} (logic : In → TransactionOp) where
  abbrev pub append_item : List In → In → List In
  append_item xs x = xs ++ x ∷ []

  abbrev pub whole : List In → List In
  whole xs = xs

  abbrev Manager : Type ℓ
  Manager = TransactionWindowManager (List In)

  abbrev pub step : Manager → StreamElement In → Outcome (List In) Manager
  step = process_element append_item whole logic

  -- The items that the open window holds.
  abbrev pub held : Option (Slot (List In)) → List In
  held none = []
  held (some slot) = slot.acc

  -- An element with a timestamp, or with no item.
  abbrev pub IsTimed : StreamElement In → Type 0
  IsTimed (item x) = ⊥
  IsTimed _ = Unit

  abbrev pub item_of : StreamElement In → List In
  item_of (timestamped x ts) = x ∷ []
  item_of _ = []

  abbrev pub items : List (StreamElement In) → List In
  items [] = []
  items (e ∷ es) = item_of e ++ items es

  abbrev pub committed : List (WindowResult (List In)) → List In
  committed [] = []
  committed (r ∷ rs) = result_item r ++ committed rs

  abbrev StepKeeps : Manager → List In → Outcome (List In) Manager → Type ℓ
  StepKeeps m xs none = ⊥ × Unit {ℓ}
  StepKeeps m xs (some (r, m')) =
      (committed (cons_some r []) ++ held m'.w ≡ held m.w ++ xs) × (m'.init ≡ [])

  -- What a manager that was fed the items `xs` has done with them.
  abbrev pub Keeps : Manager → List In → Fed (List In) Manager → Type ℓ
  Keeps m xs none = ⊥ × Unit {ℓ}
  Keeps m xs (some (rs, m')) = committed rs ++ held m'.w ≡ held m.w ++ xs

  command-Keeps :
      (m : Manager) (slot : Slot (List In)) (op : TransactionOp) (xs : List In)
      → op ≢ discard
      → m.init ≡ []
      → slot.acc ≡ held m.w ++ xs
      → StepKeeps m xs (command append_item whole logic m slot op)
  command-Keeps m slot continue xs n i h = (h, i)
  command-Keeps m slot commit xs n i h = (append-nil (slot.acc ++ []) ∙ append-nil slot.acc ∙ h, i)
  command-Keeps m slot (commit_after t) xs n i h = (h, i)
  command-Keeps m slot discard xs n i h = absurd (n refl)

  current_lem :
      (init : List In) (w : Option (Slot (List In))) (x : In)
      → init ≡ []
      → (add_item append_item whole logic (current append_item whole logic init w) x).acc
        ≡ held w ++ x ∷ []
  current_lem init none x i = ap (λ l. l ++ x ∷ []) i
  current_lem init (some slot) x i = refl

  -- An element that changes nothing, and one that commits the open window.
  stay-Keeps : (m : Manager) → m.init ≡ [] → StepKeeps m [] (some (none, m))
  stay-Keeps m i = (sym (append-nil (held m.w)), i)

  commit-Keeps :
      (m : Manager) (slot : Slot (List In))
      → m.init ≡ []
      → m.w ≡ some slot
      → StepKeeps m [] (some (some (plain slot.acc), record m { w = none }))
  commit-Keeps m slot i e = (append-nil (slot.acc ++ []) ∙ ap (λ w. held w ++ []) (sym e), i)

  close_before-Keeps :
      (m : Manager) (w : Option (Slot (List In))) (ts : Timestamp)
      → m.init ≡ []
      → m.w ≡ w
      → StepKeeps m [] (close_before append_item whole logic m w ts)
  close_before-Keeps m none ts i e = stay-Keeps m i
  close_before-Keeps m (some slot) ts i e = elim (Option-cases slot.close) [
    | inl never ↦ rw never (stay-Keeps m i)
    | inr (close, at) ↦ elim (Bool-cases (ltb close ts)) [
      | inl past ↦ rw (at, past) (commit-Keeps m slot i e)
      | inr early ↦ rw (at, early) (stay-Keeps m i)
    ]
  ]

  close_at_end-Keeps :
      (m : Manager) (w : Option (Slot (List In)))
      → m.init ≡ []
      → m.w ≡ w
      → StepKeeps m [] (close_at_end append_item whole logic m w)
  close_at_end-Keeps m none i e = stay-Keeps m i
  close_at_end-Keeps m (some slot) i e = elim (Option-cases slot.close) [
    | inl never ↦ rw never (stay-Keeps m i)
    | inr (close, at) ↦ rw at (commit-Keeps m slot i e)
  ]

  module _ (keeps : (x : In) → logic x ≢ discard) where
    step-Keeps :
        (m : Manager) (e : StreamElement In)
        → m.init ≡ []
        → IsTimed e
        → StepKeeps m (item_of e) (step m e)
    unfolding process_element
    step-Keeps m (timestamped x ts) i d =
        command-Keeps m _ (logic x) (x ∷ []) (keeps x) i (current_lem m.init m.w x i)
    step-Keeps m (watermark ts) i d = close_before-Keeps m m.w ts i refl
    step-Keeps m flush_batch i d = stay-Keeps m i
    step-Keeps m terminate i d = close_at_end-Keeps m m.w i refl
    step-Keeps m flush_and_restart i d = close_at_end-Keeps m m.w i refl
    step-Keeps m (item x) i d = absurd d

    committed-cons_some :
        (r : Option (WindowResult (List In))) (rs : List (WindowResult (List In)))
        → committed (cons_some r rs) ≡ committed (cons_some r []) ++ committed rs
    committed-cons_some none rs = refl
    committed-cons_some (some r) rs = ap (λ l. l ++ committed rs) (sym (append-nil (result_item r)))

    then-Keeps :
        (m m1 : Manager) (r : Option (WindowResult (List In))) (xs ys : List In)
        (o : Fed (List In) Manager)
        → committed (cons_some r []) ++ held m1.w ≡ held m.w ++ xs
        → Keeps m1 ys o
        → Keeps m (xs ++ ys) (Option.map (λ rest. (cons_some r rest.0, rest.1)) o)
    then-Keeps m m1 r xs ys none h k = k
    then-Keeps m m1 r xs ys (some (rs, m2)) h k =
        let first = committed (cons_some r []) in
        ap (λ l. l ++ held m2.w) (committed-cons_some r rs)
        ∙ append_assoc first (committed rs) (held m2.w)
        ∙ ap (λ l. first ++ l) k
        ∙ sym (append_assoc first (held m1.w) ys)
        ∙ ap (λ l. l ++ ys) h
        ∙ append_assoc (held m.w) xs ys

    then_feed-Keeps :
        (m : Manager) (xs ys : List In) (o : Outcome (List In) Manager)
        (k : Manager → Fed (List In) Manager)
        → StepKeeps m xs o
        → ((t : Manager) → t.init ≡ [] → Keeps t ys (k t))
        → Keeps m (xs ++ ys) (then_feed o k)
    then_feed-Keeps m xs ys none k h rest = h
    then_feed-Keeps m xs ys (some (r, m1)) k h rest =
        then-Keeps m m1 r xs ys (k m1) h.0 (rest m1 h.1)

    feed-Keeps :
        (m : Manager) (es : List (StreamElement In))
        → m.init ≡ []
        → All IsTimed es
        → Keeps m (items es) (feed step m es)
    unfolding feed
    feed-Keeps m [] i d = sym (append-nil (held m.w))
    feed-Keeps m (e ∷ es) i d =
        then_feed-Keeps m (item_of e) (items es) (step m e) _ (step-Keeps m e i d.0)
          (λ t ti. feed-Keeps t es ti d.1)

  -- If the user's function never discards, then a new transaction window that collects its items
  -- and is fed elements, none of them an item without a timestamp, never panics, and the items of
  -- its results, in order, followed by those of the window that is still open, are exactly the
  -- items that it was fed, in order.
  pub transaction_window-Keeps :
      (es : List (StreamElement In))
      → ((x : In) → logic x ≢ discard)
      → All IsTimed es
      → Keeps
          (build append_item whole logic [])
          (items es)
          (feed step (build append_item whole logic []) es)
  transaction_window-Keeps es keeps d =
      feed-Keeps keeps (build append_item whole logic []) es refl d
