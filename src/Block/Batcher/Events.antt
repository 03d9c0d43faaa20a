-- ===== src/Block/Batcher/Events.antt =====
-- A batcher over any calls of its block and its clock.
use mathlib.Core.List.{flatten}
use mathlib.Core.Option
use renoir.Prelude.{
  ◌<◌, ◌≡◌, refl, sym, ap, ◌∙◌, Bool, Option, none, some, List, [], ◌∷◌, ◌++◌, append-nil,
  append_assoc, length,
}
use renoir.Stream.{StreamElement}
use renoir.Block.Batcher.Order.{
  passed, IsReady, IsReady-new, enqueue-passed, enqueue-IsReady, flush-passed, flush-IsReady,
  flush_buffer-passed, flatten-snoc,
}
use renoir.Block.Batcher.{
  BatchMode, max_size, BatcherInner, TrySend, ok, full, disconnected, new, flush_buffer, flush,
  try_flush_buffer, try_flush, enqueue, end_buffer, end,
}

-- What is done to a batcher: the block enqueues and flushes, and the clock tries to flush.
pub data Event {ℓ} (Out : Type ℓ) : Type ℓ where
  enqueued : Bool → StreamElement Out → Event Out
  flushed : Event Out
  ticked : TrySend → Event Out

module _ {ℓ} {Out : Type ℓ} where
  abbrev pub after_tick : Option (Bool × BatcherInner Out) → Option (BatcherInner Out)
  after_tick = Option.map (λ r. r.1)

  abbrev pub react : Event Out → BatcherInner Out → Option (BatcherInner Out)
  react (enqueued elapsed m) b = some (enqueue elapsed m b)
  react flushed b = some (flush b)
  react (ticked answer) b = after_tick (try_flush answer b)

  abbrev pub then_run :
      Option (BatcherInner Out)
      → (BatcherInner Out → Option (BatcherInner Out))
      → Option (BatcherInner Out)
  then_run none k = none
  then_run (some b) k = k b

  abbrev pub run : List (Event Out) → BatcherInner Out → Option (BatcherInner Out)
  run [] b = some b
  run (e ∷ es) b = then_run (react e b) (run es)

  abbrev pub messages : List (Event Out) → List (StreamElement Out)
  messages [] = []
  messages (enqueued elapsed m ∷ es) = m ∷ messages es
  messages (_ ∷ es) = messages es

  -- The receiver is there as long as the batcher is.
  abbrev pub IsConnected : List (Event Out) → Type 0
  IsConnected [] = Unit
  IsConnected (ticked disconnected ∷ es) = ⊥
  IsConnected (_ ∷ es) = IsConnected es

  ticked-passed :
      (buf : List (StreamElement Out)) (b : BatcherInner Out)
      → b.buffer ≡ buf
      → IsReady b
      → (t : BatcherInner Out) × (after_tick (try_flush_buffer buf ok b) ≡ some t)
        × IsReady t
        × (passed t ≡ passed b)
  ticked-passed [] b p r = (b, refl, r, refl)
  ticked-passed (m ∷ ms) b p r = (
    flush_buffer (m ∷ ms) b,
    refl,
    record { size = r.size; room = r.size },
    flush_buffer-passed (m ∷ ms) b p,
  )

  full-passed :
      (buf : List (StreamElement Out)) (b : BatcherInner Out)
      → after_tick (try_flush_buffer buf full b) ≡ some b
  full-passed [] b = refl
  full-passed (m ∷ ms) b = refl

  abbrev Runs : List (Event Out) → BatcherInner Out → Type ℓ
  Runs es b =
      (t : BatcherInner Out) × (run es b ≡ some t)
      × IsReady t
      × (passed t ≡ passed b ++ messages es)

  -- After a step that passes `ms` on.
  runs-step :
      (e : Event Out) (es : List (Event Out)) (b t : BatcherInner Out)
      (ms : List (StreamElement Out))
      → react e b ≡ some t
      → passed t ≡ passed b ++ ms
      → Runs es t
      → (u : BatcherInner Out) × (run (e ∷ es) b ≡ some u)
        × IsReady u
        × (passed u ≡ passed b ++ (ms ++ messages es))
  runs-step e es b t ms p q (u, r, k, w) = (
    u,
    ap (λ z. then_run z (run es)) p ∙ r,
    k,
    w ∙ ap (λ z. z ++ messages es) q ∙ append_assoc (passed b) ms (messages es),
  )

  runs : (es : List (Event Out)) (b : BatcherInner Out) → IsConnected es → IsReady b → Runs es b
  unfolding enqueue
  runs [] b c r = (b, refl, r, sym (append-nil (passed b)))
  runs (enqueued elapsed m ∷ es) b c r =
      runs-step (enqueued elapsed m) es b (enqueue elapsed m b) (m ∷ []) refl
        (enqueue-passed b.mode elapsed m b refl r)
        (runs es (enqueue elapsed m b) c (enqueue-IsReady b.mode elapsed m b refl r))
  runs (flushed ∷ es) b c r =
      runs-step flushed es b (flush b) [] refl (flush-passed b ∙ sym (append-nil (passed b)))
        (runs es (flush b) c (flush-IsReady b r))
  runs (ticked ok ∷ es) b c r =
      let (t, p, k, q) = ticked-passed b.buffer b refl r in
      runs-step (ticked ok) es b t [] p (q ∙ sym (append-nil (passed b))) (runs es t c k)
  runs (ticked full ∷ es) b c r =
      runs-step (ticked full) es b b [] (full-passed b.buffer b) (sym (append-nil (passed b)))
        (runs es b c r)
  runs (ticked disconnected ∷ es) b c r = absurd c

  pub end-sent :
      (buf : List (StreamElement Out)) (b : BatcherInner Out)
      → b.buffer ≡ buf
      → flatten (end_buffer buf b).sent ≡ passed b
  end-sent [] b p = sym (append-nil (flatten b.sent)) ∙ ap (λ z. flatten b.sent ++ z) (sym p)
  end-sent (m ∷ ms) b p = flatten-snoc b.sent (m ∷ ms) ∙ ap (λ z. flatten b.sent ++ z) (sym p)

  -- In every mode with a size over zero, a new batcher on which elements are enqueued, and which is
  -- flushed and tries to flush at any times, with a receiver that may be full but not gone, never
  -- panics; its buffer stays below the size of the mode; the batches that it sent, in order,
  -- followed by the buffer, are the elements that were enqueued, in order, and after `end` the
  -- batches alone are.
  pub batcher-messages :
      (mode : BatchMode) (es : List (Event Out))
      → 0 < max_size mode
      → IsConnected es
      → (b : BatcherInner Out) × (run es (new mode) ≡ some b)
        × (length b.buffer < max_size b.mode)
        × (flatten b.sent ++ b.buffer ≡ messages es)
        × (flatten (end b).sent ≡ messages es)
  unfolding flatten
  batcher-messages mode es h c =
      let (b, p, r, q) = runs es (new mode) c (IsReady-new mode h) in
      (b, p, r.room, q, end-sent b.buffer b refl ∙ q)
