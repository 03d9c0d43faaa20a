-- ===== src/Operator/AddTimestamp.antt =====
-- src/operator/add_timestamps.rs: `AddTimestamp`, whose generators may keep a state of their own.
use renoir.Prelude.{
  ℕ, ◌<◌, length, ◌≡◌, refl, ap, ◌∙◌, Option, none, some, List, [], ◌∷◌, ◌++◌, All,
}
use renoir.Stream.{
  Timestamp, StreamElement, item, timestamped, watermark, flush_batch, terminate, flush_and_restart,
}
use renoir.Stream.Run.{Upstream, IsGoing, do_work}
use renoir.Stream.Fallible.{Call, Yields, work, work-Yields}
use renoir.Operator.DropTimestamp.{drop_timestamp_next, untimed, do_work-untimed}

-- `G` is what the two closures capture.
pub record AddTimestamp {ℓ} (G : Type ℓ) : Type ℓ where
  pub generators : G
  pub pending_watermark : Option Timestamp

module _ {ℓ} {A : Type ℓ} where
  -- Items, flushes and ends of iterations.
  abbrev pub IsUntimed : StreamElement A → Type 0
  IsUntimed (item x) = Unit
  IsUntimed flush_batch = Unit
  IsUntimed flush_and_restart = Unit
  IsUntimed _ = ⊥

module _ {ℓ} {A G : Type ℓ} (timestamp_gen : A → G → Timestamp × G)
    (watermark_gen : A → Timestamp → G → Option Timestamp × G) where
  abbrev pub new : G → AddTimestamp G
  new g = record { generators = g; pending_watermark = none }

  -- The arm for an item.
  abbrev pub stamp_item : A → AddTimestamp G → StreamElement A × AddTimestamp G
  stamp_item x s =
      let (ts, g) = timestamp_gen x s.generators in
      let (w, h) = watermark_gen x ts g in
      (timestamped x ts, record { generators = h; pending_watermark = w })

  -- What `prev.next()` returned is answered; a timestamp or a watermark panics.
  abbrev pub answered :
      StreamElement A → AddTimestamp G → Upstream A → Call A (AddTimestamp G × Upstream A)
  answered (item x) s prev = let (e, s') = stamp_item x s in some (e, (s', prev))
  answered flush_and_restart s prev = some (flush_and_restart, (s, prev))
  answered flush_batch s prev = some (flush_batch, (s, prev))
  answered terminate s prev = some (terminate, (s, prev))
  answered _ s prev = none

  abbrev pub read_one : AddTimestamp G → Upstream A → Call A (AddTimestamp G × Upstream A)
  read_one s [] = answered terminate s []
  read_one s (e ∷ prev) = answered e s prev

  abbrev pub take_pending :
      Option Timestamp → AddTimestamp G → Upstream A → Call A (AddTimestamp G × Upstream A)
  take_pending (some ts) s prev = some (watermark ts, (record s { pending_watermark = none }, prev))
  take_pending none s prev = read_one s prev

  unfoldable pub add_timestamp_next :
      AddTimestamp G × Upstream A → Call A (AddTimestamp G × Upstream A)
  add_timestamp_next (s, prev) = take_pending s.pending_watermark s prev

  -- Each item with its timestamp, and then its watermark, if there is one; and what the closures
  -- capture then.
  abbrev pub watermarks : Option Timestamp → List (StreamElement A) → List (StreamElement A)
  watermarks none es = es
  watermarks (some ts) es = watermark ts ∷ es

  abbrev pub stamped : G → List (StreamElement A) → List (StreamElement A)
  stamped g [] = []
  stamped g (item x ∷ xs) =
      let (ts, h) = timestamp_gen x g in
      let (w, k) = watermark_gen x ts h in timestamped x ts ∷ watermarks w (stamped k xs)
  stamped g (e ∷ xs) = e ∷ stamped g xs

  watermarks-IsGoing :
      (w : Option Timestamp) (es : List (StreamElement A))
      → All IsGoing es
      → All IsGoing (watermarks w es)
  watermarks-IsGoing none es h = h
  watermarks-IsGoing (some ts) es h = (tt, h)

  stamped-IsGoing :
      (g : G) (xs : List (StreamElement A)) → All IsUntimed xs → All IsGoing (stamped g xs)
  stamped-IsGoing g [] v = tt
  stamped-IsGoing g (item x ∷ xs) v =
      let (ts, h) = timestamp_gen x g in
      let (w, k) = watermark_gen x ts h in (tt, watermarks-IsGoing w _ (stamped-IsGoing k xs v.1))
  stamped-IsGoing g (flush_batch ∷ xs) v = (tt, stamped-IsGoing g xs v.1)
  stamped-IsGoing g (flush_and_restart ∷ xs) v = (tt, stamped-IsGoing g xs v.1)
  stamped-IsGoing g (timestamped x ts ∷ xs) v = absurd v.0
  stamped-IsGoing g (watermark ts ∷ xs) v = absurd v.0
  stamped-IsGoing g (terminate ∷ xs) v = absurd v.0

  abbrev Stamps : AddTimestamp G → Upstream A → List (StreamElement A) → Type ℓ
  Stamps s prev es =
      (t : AddTimestamp G × Upstream A) × Yields add_timestamp_next (s, prev) (es ++ terminate ∷ [])
        t

  pending-Stamps :
      (w : Option Timestamp) (k : G) (prev : Upstream A) (es : List (StreamElement A))
      → Stamps (new k) prev es
      → Stamps (record { generators = k; pending_watermark = w }) prev (watermarks w es)
  unfolding add_timestamp_next
  pending-Stamps none k prev es y = y
  pending-Stamps (some ts) k prev es (t, y) = (t, ((new k, prev), refl, y))

  new-Stamps :
      (g : G) (xs : List (StreamElement A)) → All IsUntimed xs → Stamps (new g) xs (stamped g xs)
  unfolding add_timestamp_next
  new-Stamps g [] v = ((new g, []), ((new g, []), refl, refl))
  new-Stamps g (item x ∷ xs) v =
      let (ts, h) = timestamp_gen x g in
      let (w, k) = watermark_gen x ts h in
      let (t, y) = pending-Stamps w k xs (stamped k xs) (new-Stamps k xs v.1) in
      (t, ((record { generators = k; pending_watermark = w }, xs), refl, y))
  new-Stamps g (flush_batch ∷ xs) v =
      let (t, y) = new-Stamps g xs v.1 in (t, ((new g, xs), refl, y))
  new-Stamps g (flush_and_restart ∷ xs) v =
      let (t, y) = new-Stamps g xs v.1 in (t, ((new g, xs), refl, y))
  new-Stamps g (timestamped x ts ∷ xs) v = absurd v.0
  new-Stamps g (watermark ts ∷ xs) v = absurd v.0
  new-Stamps g (terminate ∷ xs) v = absurd v.0

  untimed-item :
      (x : A) (w : Option Timestamp) (es xs : List (StreamElement A))
      → untimed es ≡ xs
      → item x ∷ untimed (watermarks w es) ≡ item x ∷ xs
  untimed-item x none es xs p = ap (λ z. item x ∷ z) p
  untimed-item x (some ts) es xs p = ap (λ z. item x ∷ z) p

  untimed-stamped :
      (g : G) (xs : List (StreamElement A)) → All IsUntimed xs → untimed (stamped g xs) ≡ xs
  untimed-stamped g [] v = refl
  untimed-stamped g (item x ∷ xs) v =
      untimed-item x (watermark_gen x (timestamp_gen x g).0 (timestamp_gen x g).1).0 _ xs
        (untimed-stamped (watermark_gen x (timestamp_gen x g).0 (timestamp_gen x g).1).1 xs v.1)
  untimed-stamped g (flush_batch ∷ xs) v = ap (λ z. flush_batch ∷ z) (untimed-stamped g xs v.1)
  untimed-stamped g (flush_and_restart ∷ xs) v =
      ap (λ z. flush_and_restart ∷ z) (untimed-stamped g xs v.1)
  untimed-stamped g (timestamped x ts ∷ xs) v = absurd v.0
  untimed-stamped g (watermark ts ∷ xs) v = absurd v.0
  untimed-stamped g (terminate ∷ xs) v = absurd v.0

  -- On items, flushes and ends of iterations, a worker over a new `AddTimestamp` ends without a
  -- panic, given fuel for each element, whatever the two closures do; it passes on each item with
  -- its timestamp and then its watermark, if there is one; and a worker over `DropTimestamp` turns
  -- these elements back into what `AddTimestamp` had read.
  pub work-stamped :
      (fuel : ℕ) (g : G) (xs : List (StreamElement A))
      → All IsUntimed xs
      → length (stamped g xs) < fuel
      → (work add_timestamp_next fuel (new g, xs) ≡ some (stamped g xs))
        × (do_work drop_timestamp_next fuel (tt, stamped g xs) ≡ some xs)
  work-stamped fuel g xs v h =
      let (t, y) = new-Stamps g xs v in
      (
        work-Yields add_timestamp_next fuel (new g, xs) t (stamped g xs) h (stamped-IsGoing g xs v)
            y,
        do_work-untimed fuel (stamped g xs) (stamped-IsGoing g xs v) h
            ∙ ap some (untimed-stamped g xs v),
      )
