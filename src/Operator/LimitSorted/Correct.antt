-- ===== src/Operator/LimitSorted/Correct.antt =====
-- What a worker over `LimitSorted` passes on for a whole stream.
use mathlib.Core.List.{Perm}
use mathlib.Core.List.Perm
use renoir.Prelude.{ℕ, Bool, Option, List, [], ◌∷◌, ◌++◌, map}
use renoir.Stream.{Timestamp, StreamElement, flush_and_restart}
use renoir.Operator.Fold.Summary.{values, latest, last_watermark}
use renoir.Operator.Fold.Iteration.{stamped}
use renoir.Operator.LimitSorted.{LimitSorted}
use renoir.Operator.LimitSorted.Iteration.{carried, limited}

module _ {ℓ} {T : Type ℓ} (sort : List T → List T) (limit offset : Option ℕ) (sorted : Bool) where
  -- The stream that follows when the iterations before had these highest timestamp and watermark.
  abbrev pub limited_stream :
      Option Timestamp → Option Timestamp → List (List (StreamElement T)) → List (StreamElement T)
  limited_stream t w [] = flush_and_restart ∷ []
  limited_stream t w (xs ∷ its) =
      (map (stamped (latest t xs)) (limited sort limit offset sorted (values xs))
        ++ carried (last_watermark w xs))
      ++ flush_and_restart ∷ limited_stream (latest t xs) (last_watermark w xs) its
