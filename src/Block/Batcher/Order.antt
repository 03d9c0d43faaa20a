-- ===== src/Block/Batcher/Order.antt =====
-- A batcher loses nothing and keeps the order.
use mathlib.Core.List.{flatten}
use mathlib.Core.Path.{subst}
use renoir.Prelude.{
  ℕ, ◌<◌, ◌≡◌, refl, sym, ap, ◌∙◌, Bool, true, false, List, [], ◌∷◌, ◌++◌, append-nil, append_assoc,
  length, arith, leb, ◌||◌,
}
use renoir.Stream.{StreamElement}
use renoir.Block.Batcher.{
  BatchMode, fixed, adaptive, timed, single, max_size, BatcherInner, new, send, flush_buffer, flush,
  push, flush_if, enqueue_in,
}

module _ {ℓ} {A : Type ℓ} where
  pub flatten-snoc :
      (xss : List (List A)) (xs : List A) → flatten (xss ++ xs ∷ []) ≡ flatten xss ++ xs
  unfolding flatten
  flatten-snoc [] xs = append-nil xs
  flatten-snoc (ys ∷ xss) xs =
      ap (λ z. ys ++ z) (flatten-snoc xss xs) ∙ sym (append_assoc ys (flatten xss) xs)

room_left : (n l : ℕ) (elapsed : Bool) → (leb n l || elapsed) ≡ false → l < n
room_left n l elapsed h = ground arith

not_full : (n l : ℕ) → leb n l ≡ false → l < n
not_full n l h = ground arith

module _ {ℓ} {Out : Type ℓ} where
  -- What the receiver was sent, and what waits to be sent to it.
  abbrev pub passed : BatcherInner Out → List (StreamElement Out)
  passed b = flatten b.sent ++ b.buffer

  -- The buffer is not full, and it is not used for single messages.
  pub record IsReady (b : BatcherInner Out) : Type ℓ where
    pub size : 0 < max_size b.mode
    pub room : length b.buffer < max_size b.mode

  pub IsReady-new : (mode : BatchMode) → 0 < max_size mode → IsReady (new mode)
  IsReady-new mode h = record { size = h; room = h }

  pub flush_buffer-passed :
      (buf : List (StreamElement Out)) (b : BatcherInner Out)
      → b.buffer ≡ buf
      → passed (flush_buffer buf b) ≡ passed b
  flush_buffer-passed [] b p = refl
  flush_buffer-passed (m ∷ ms) b p =
      append-nil (flatten (b.sent ++ (m ∷ ms) ∷ []))
      ∙ flatten-snoc b.sent (m ∷ ms)
      ∙ ap (λ z. flatten b.sent ++ z) (sym p)

  flush_buffer-empty :
      (buf : List (StreamElement Out)) (b : BatcherInner Out)
      → b.buffer ≡ buf
      → (flush_buffer buf b).buffer ≡ []
  flush_buffer-empty [] b p = p
  flush_buffer-empty (m ∷ ms) b p = refl

  flush_buffer-mode :
      (buf : List (StreamElement Out)) (b : BatcherInner Out) → (flush_buffer buf b).mode ≡ b.mode
  flush_buffer-mode [] b = refl
  flush_buffer-mode (m ∷ ms) b = refl

  -- One step of `enqueue` in a mode that fills the buffer.
  flush_if-passed : (due : Bool) (b : BatcherInner Out) → passed (flush_if due b) ≡ passed b
  flush_if-passed true b = flush_buffer-passed b.buffer b refl
  flush_if-passed false b = refl

  flush_if-IsReady :
      (due : Bool) (b : BatcherInner Out)
      → 0 < max_size b.mode
      → (due ≡ false → length b.buffer < max_size b.mode)
      → IsReady (flush_if due b)
  flush_if-IsReady true b s h = record {
    size = rw (flush_buffer-mode b.buffer b) s;
    room = rw (flush_buffer-mode b.buffer b, flush_buffer-empty b.buffer b refl) s;
  }
  flush_if-IsReady false b s h = record { size = s; room = h refl }

  push-passed :
      (m : StreamElement Out) (b : BatcherInner Out) → passed (push m b) ≡ passed b ++ m ∷ []
  push-passed m b = sym (append_assoc (flatten b.sent) b.buffer (m ∷ []))

  single-passed :
      (buf : List (StreamElement Out)) (m : StreamElement Out) (b : BatcherInner Out)
      → b.buffer ≡ buf
      → length buf < 1
      → passed (send (m ∷ []) b) ≡ passed b ++ m ∷ []
  single-passed [] m b p h = rw p (
      append-nil (flatten (b.sent ++ (m ∷ []) ∷ []))
      ∙ flatten-snoc b.sent (m ∷ [])
      ∙ ap (λ z. z ++ m ∷ []) (sym (append-nil (flatten b.sent))))
  single-passed (x ∷ buf) m b p h = absurd (omega arith)

  pub enqueue-passed :
      (mode : BatchMode) (elapsed : Bool) (m : StreamElement Out) (b : BatcherInner Out)
      → b.mode ≡ mode
      → IsReady b
      → passed (enqueue_in mode elapsed m b) ≡ passed b ++ m ∷ []
  enqueue-passed (adaptive n d) elapsed m b p r = flush_if-passed _ (push m b) ∙ push-passed m b
  enqueue-passed (fixed n) elapsed m b p r = flush_if-passed _ (push m b) ∙ push-passed m b
  enqueue-passed (timed n t) elapsed m b p r = flush_if-passed _ (push m b) ∙ push-passed m b
  enqueue-passed single elapsed m b p r =
      single-passed b.buffer m b refl (subst (λ z. length b.buffer < max_size z) p r.room)

  -- The mode is kept, so a later call does the same.
  pub enqueue-IsReady :
      (mode : BatchMode) (elapsed : Bool) (m : StreamElement Out) (b : BatcherInner Out)
      → b.mode ≡ mode
      → IsReady b
      → IsReady (enqueue_in mode elapsed m b)
  enqueue-IsReady (adaptive n d) elapsed m b p r =
      flush_if-IsReady _ (push m b) r.size
        (λ h. rw p (room_left n (length (push m b).buffer) elapsed h))
  enqueue-IsReady (fixed n) elapsed m b p r =
      flush_if-IsReady _ (push m b) r.size (λ h. rw p (not_full n (length (push m b).buffer) h))
  enqueue-IsReady (timed n t) elapsed m b p r =
      flush_if-IsReady _ (push m b) r.size (λ h. rw p (not_full n (length (push m b).buffer) h))
  enqueue-IsReady single elapsed m b p r = record { size = r.size; room = r.room }

  pub flush-passed : (b : BatcherInner Out) → passed (flush b) ≡ passed b
  flush-passed b = flush_buffer-passed b.buffer b refl

  pub flush-IsReady : (b : BatcherInner Out) → IsReady b → IsReady (flush b)
  flush-IsReady b r = flush_if-IsReady true b r.size (λ h. r.room)
