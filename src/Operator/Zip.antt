-- ===== src/Operator/Zip.antt =====
-- src/operator/zip.rs: the pairs of the items of two streams, in the order in which they come. The
-- field `prev`, a `Start` over both streams, is a previous operator.
pub mod Iteration
pub mod Late
pub mod Tests
pub mod Correct
use renoir.Prelude.{max, Option, none, some, List, [], ◌∷◌, ◌++◌}
use renoir.Stream.{
  StreamElement, item, timestamped, watermark, flush_batch, terminate, flush_and_restart,
}
use renoir.Stream.Run.{Upstream}
use renoir.Stream.Fallible.{Call}
use renoir.Join.{BinaryElement, left, right, left_end, right_end}

pub record Zip {ℓ} (Out1 Out2 : Type ℓ) : Type ℓ where
  pub stash1 : List (StreamElement Out1)
  pub stash2 : List (StreamElement Out2)

module _ {ℓ} {Out1 Out2 : Type ℓ} where
  abbrev pub new : Zip Out1 Out2
  new = record { stash1 = []; stash2 = [] }

  abbrev pub push1 : StreamElement Out1 → Zip Out1 Out2 → Zip Out1 Out2
  push1 e s = record s { stash1 = s.stash1 ++ e ∷ [] }

  abbrev pub push2 : StreamElement Out2 → Zip Out1 Out2 → Zip Out1 Out2
  push2 e s = record s { stash2 = s.stash2 ++ e ∷ [] }

  -- The last `match`; a mixture panics.
  abbrev pub combine :
      StreamElement Out1 → StreamElement Out2 → Option (StreamElement (Out1 × Out2))
  combine (item x) (item y) = some (item (x, y))
  combine (timestamped x ts1) (timestamped y ts2) = some (timestamped (x, y) (max ts1 ts2))
  combine _ _ = none

  abbrev pub paired :
      Option (StreamElement (Out1 × Out2))
      → Zip Out1 Out2
      → Upstream (BinaryElement Out1 Out2)
      → Call (Out1 × Out2) (Zip Out1 Out2 × Upstream (BinaryElement Out1 Out2))
  paired none s prev = none
  paired (some e) s prev = some (e, (s, prev))

  -- A pair is returned when neither stash is empty; the loop runs only while one is.
  abbrev pub pop_pair :
      List (StreamElement Out1)
      → List (StreamElement Out2)
      → Upstream (BinaryElement Out1 Out2)
      → Call (Out1 × Out2) (Zip Out1 Out2 × Upstream (BinaryElement Out1 Out2))
      → Call (Out1 × Out2) (Zip Out1 Out2 × Upstream (BinaryElement Out1 Out2))
  pop_pair (x ∷ xs) (y ∷ ys) prev loop =
      paired (combine x y) (record { stash1 = xs; stash2 = ys }) prev
  pop_pair _ _ prev loop = loop

  unfoldable pub zip_step :
      Zip Out1 Out2
      → Upstream (BinaryElement Out1 Out2)
      → Call (Out1 × Out2) (Zip Out1 Out2 × Upstream (BinaryElement Out1 Out2))
  zip_step s [] = pop_pair s.stash1 s.stash2 [] (some (terminate, (s, [])))
  zip_step s (item (left x) ∷ prev) =
      pop_pair s.stash1 s.stash2 (item (left x) ∷ prev) (zip_step (push1 (item x) s) prev)
  zip_step s (timestamped (left x) ts ∷ prev) =
      pop_pair s.stash1 s.stash2 (timestamped (left x) ts ∷ prev)
        (zip_step (push1 (timestamped x ts) s) prev)
  zip_step s (item (right y) ∷ prev) =
      pop_pair s.stash1 s.stash2 (item (right y) ∷ prev) (zip_step (push2 (item y) s) prev)
  zip_step s (timestamped (right y) ts ∷ prev) =
      pop_pair s.stash1 s.stash2 (timestamped (right y) ts ∷ prev)
        (zip_step (push2 (timestamped y ts) s) prev)
  zip_step s (item left_end ∷ prev) =
      pop_pair s.stash1 s.stash2 (item left_end ∷ prev) (zip_step s prev)
  zip_step s (item right_end ∷ prev) =
      pop_pair s.stash1 s.stash2 (item right_end ∷ prev) (zip_step s prev)
  zip_step s (timestamped left_end ts ∷ prev) =
      pop_pair s.stash1 s.stash2 (timestamped left_end ts ∷ prev) (zip_step s prev)
  zip_step s (timestamped right_end ts ∷ prev) =
      pop_pair s.stash1 s.stash2 (timestamped right_end ts ∷ prev) (zip_step s prev)
  zip_step s (watermark w ∷ prev) =
      pop_pair s.stash1 s.stash2 (watermark w ∷ prev) (some (watermark w, (s, prev)))
  zip_step s (flush_and_restart ∷ prev) =
      pop_pair s.stash1 s.stash2 (flush_and_restart ∷ prev) (some (flush_and_restart, (new, prev)))
  zip_step s (flush_batch ∷ prev) =
      pop_pair s.stash1 s.stash2 (flush_batch ∷ prev) (some (flush_batch, (s, prev)))
  zip_step s (terminate ∷ prev) =
      pop_pair s.stash1 s.stash2 (terminate ∷ prev) (some (terminate, (s, prev)))

  abbrev pub zip_next :
      Zip Out1 Out2 × Upstream (BinaryElement Out1 Out2)
      → Call (Out1 × Out2) (Zip Out1 Out2 × Upstream (BinaryElement Out1 Out2))
  zip_next (s, prev) = zip_step s prev
