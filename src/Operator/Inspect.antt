-- ===== src/Operator/Inspect.antt =====
-- src/operator/inspect.rs: the closure carries a state of any type.
use renoir.Prelude.{ℕ, ◌<◌, length, some, ◌≡◌, refl, [], ◌∷◌, ◌++◌, foldl, All}
use renoir.Stream.{
  StreamElement, item, timestamped, watermark, flush_batch, terminate, flush_and_restart,
}
use renoir.Stream.Run.{Upstream, IsGoing, Emits, do_work, do_work-Emits}
use renoir.Operator.Fold.Summary.{values}

module _ {ℓ} {A C : Type ℓ} (f : C → A → C) where
  -- The call of the closure on one element.
  abbrev pub seen : C → StreamElement A → C
  seen c (item x) = f c x
  seen c (timestamped x ts) = f c x
  seen c _ = c

  unfoldable pub inspect_next : C × Upstream A → StreamElement A × (C × Upstream A)
  inspect_next (c, []) = (terminate, (seen c terminate, []))
  inspect_next (c, e ∷ prev) = (e, (seen c e, prev))

  inspect-Emits :
      (c : C) (up : Upstream A)
      → Emits inspect_next (c, up) (up ++ terminate ∷ []) (foldl f c (values up), [])
  unfolding inspect_next
  inspect-Emits c [] = (refl, refl)
  inspect-Emits c (item x ∷ up) = (refl, inspect-Emits (f c x) up)
  inspect-Emits c (timestamped x ts ∷ up) = (refl, inspect-Emits (f c x) up)
  inspect-Emits c (watermark w ∷ up) = (refl, inspect-Emits c up)
  inspect-Emits c (flush_batch ∷ up) = (refl, inspect-Emits c up)
  inspect-Emits c (terminate ∷ up) = (refl, inspect-Emits c up)
  inspect-Emits c (flush_and_restart ∷ up) = (refl, inspect-Emits c up)

  -- A worker over `Inspect` ends, given fuel for each element, on a stream without a `Terminate`;
  -- it passes on exactly the stream, and the closure has then been called once for each item, in
  -- order.
  pub do_work-inspect :
      (fuel : ℕ) (c : C) (up : Upstream A)
      → All IsGoing up
      → length up < fuel
      → (do_work inspect_next fuel (c, up) ≡ some up)
        × Emits inspect_next (c, up) (up ++ terminate ∷ []) (foldl f c (values up), [])
  do_work-inspect fuel c up g h =
      (do_work-Emits inspect_next fuel (c, up) _ up h g (inspect-Emits c up), inspect-Emits c up)
