-- ===== src/Join/LocalHash/Tests.antt =====
-- `JoinLocalHash` at concrete iterations.
use mathlib.Core.List.{Perm}
use mathlib.Core.List.Perm
use renoir.Prelude.{ℕ, ◌≡◌, refl, Bool, true, false, some, none, List, [], ◌∷◌, arith, ◌%◌, All}
use renoir.Prelude.Keys.{nat_key}
use renoir.Prelude.Sums.{count}
use renoir.Stream.{StreamElement, item, flush_batch, flush_and_restart}
use renoir.Stream.Run.{stream}
use renoir.Stream.Fallible.{work}
use renoir.Join.{BinaryElement, JoinVariant, left, right, left_end, right_end, OuterJoinTuple}
use renoir.Join.LocalHash.{new, join_step, join_next}
use renoir.Join.LocalHash.Spec.{joined, lefts, rights, tuples}
use renoir.Join.LocalHash.Iteration.{outputs}
use renoir.Join.LocalHash.Correct.{work-joined}

abbrev last_digit : ℕ → ℕ
last_digit n = n % 10

abbrev kept_order : List (ℕ × List ℕ) → List (ℕ × List ℕ)
kept_order m = m

kept_order-perm : (m : List (ℕ × List ℕ)) → Perm (kept_order m) m
kept_order-perm m = Perm.refl m

-- 11 and 21 meet 31; 12 has no match, nor has 43.
abbrev mixed : List (StreamElement (BinaryElement ℕ ℕ))
mixed =
    item (left 11)
    ∷ item (right 31)
    ∷ flush_batch
    ∷ item (left 12)
    ∷ item left_end
    ∷ item (right 43)
    ∷ item (right 41)
    ∷ item right_end
    ∷ []

abbrev mixed_joined : List (StreamElement (ℕ × OuterJoinTuple ℕ ℕ))
mixed_joined =
    item (1, (some 11, some 31))
    ∷ flush_batch
    ∷ item (3, (none, some 43))
    ∷ item (1, (some 11, some 41))
    ∷ item (2, (some 12, none))
    ∷ []

abbrev is_lone_left : ℕ × OuterJoinTuple ℕ ℕ → Bool
is_lone_left (k, (some x, none)) = true
is_lone_left _ = false

work-joined_example :
    (work
        (join_next last_digit last_digit kept_order kept_order)
        10
        (new JoinVariant.outer, stream (mixed ∷ []))
      ≡ some (stream (mixed_joined ∷ [])))
    × All
        (λ es.
          count is_lone_left (
            tuples (outputs last_digit last_digit kept_order kept_order (new JoinVariant.outer) es))
          ≡ count is_lone_left
              (joined last_digit last_digit JoinVariant.outer (lefts es) (rights es)))
        (mixed ∷ [])
work-joined_example =
    work-joined last_digit last_digit kept_order kept_order kept_order-perm kept_order-perm 10
      JoinVariant.outer (mixed ∷ []) is_lone_left (tt, tt) (omega arith)

-- A side that has not ended.
unended_panics :
    join_next last_digit last_digit kept_order kept_order
      (new JoinVariant.inner, flush_and_restart ∷ [])
    ≡ none
unfolding join_step
unended_panics = refl
