-- ===== src/Join/LocalHash/Invariant.antt =====
-- What `JoinLocalHash` keeps of the items that it received, in every arm of `next`.
use renoir.Prelude.{ℕ, ◌+◌, ◌≡◌, refl, Bool, true, false, List, [], ◌∷◌, ◌++◌, arith}
use mathlib.Core.List.{Perm}
use renoir.Prelude.Keys.{KeyEq}
use renoir.Prelude.Sums.{total}
use renoir.Join.{left, right, left_end, right_end, left_outer, right_outer, OuterJoinTuple}
use renoir.Join.LocalHash.{JoinLocalHash, receive, in_order, swapped}
use renoir.Join.LocalHash.Side.{Stored, Seen, Stored-push, Seen-insert}
use renoir.Join.LocalHash.Totals.{due, due-left, due-right, total-ended}

module _ {ℓ} {Key Out1 Out2 : Type ℓ} ⦃key : KeyEq Key⦄ (keyer1 : Out1 → Key)
    (keyer2 : Out2 → Key) where
  -- The state after the items `xs` on the left and `ys` on the right, when the left side has ended,
  -- or has not, and the right.
  pub record Holds (le re : Bool) (xs : List Out1) (ys : List Out2)
      (s : JoinLocalHash Key Out1 Out2) : Type ℓ where
    pub left_stored : Stored keyer1 re xs s.left_side.groups
    pub right_stored : Stored keyer2 le ys s.right_side.groups
    pub left_seen : Seen keyer1 le (right_outer s.variant) xs s.left_side.keys
    pub right_seen : Seen keyer2 re (left_outer s.variant) ys s.right_side.keys
    pub left_ended : s.left_side.ended ≡ le
    pub right_ended : s.right_side.ended ≡ re

module _ {ℓ} {Key Out1 Out2 : Type ℓ} ⦃key : KeyEq Key⦄ (keyer1 : Out1 → Key) (keyer2 : Out2 → Key)
    (drain1 : List (Key × List Out1) → List (Key × List Out1))
    (drain2 : List (Key × List Out2) → List (Key × List Out2)) where
  pub left-Holds :
      (re : Bool) (x : Out1) (xs : List Out1) (ys : List Out2) (s : JoinLocalHash Key Out1 Out2)
      → Holds keyer1 keyer2 false re xs ys s
      → Holds keyer1 keyer2 false re
          (xs ++ x ∷ [])
          ys
          (receive keyer1 keyer2 drain1 drain2 (left x) s)
  left-Holds re x xs ys s h = record {
    left_stored = rw (h.right_ended) (Stored-push keyer1 re x xs s.left_side.groups h.left_stored);
    right_stored = h.right_stored;
    left_seen = Seen-insert keyer1 (right_outer s.variant) x xs s.left_side.keys h.left_seen;
    right_seen = h.right_seen;
    left_ended = h.left_ended;
    right_ended = h.right_ended;
  }

  pub right-Holds :
      (le : Bool) (y : Out2) (xs : List Out1) (ys : List Out2) (s : JoinLocalHash Key Out1 Out2)
      → Holds keyer1 keyer2 le false xs ys s
      → Holds keyer1 keyer2 le false xs
          (ys ++ y ∷ [])
          (receive keyer1 keyer2 drain1 drain2 (right y) s)
  right-Holds le y xs ys s h = record {
    left_stored = h.left_stored;
    right_stored =
        rw (h.left_ended) (Stored-push keyer2 le y ys s.right_side.groups h.right_stored);
    left_seen = h.left_seen;
    right_seen = Seen-insert keyer2 (left_outer s.variant) y ys s.right_side.keys h.right_seen;
    left_ended = h.left_ended;
    right_ended = h.right_ended;
  }

  pub left_end-Holds :
      (re : Bool) (xs : List Out1) (ys : List Out2) (s : JoinLocalHash Key Out1 Out2)
      → Holds keyer1 keyer2 false re xs ys s
      → Holds keyer1 keyer2 true re xs ys (receive keyer1 keyer2 drain1 drain2 left_end s)
  left_end-Holds re xs ys s h = record {
    left_stored = h.left_stored;
    right_stored = refl;
    left_seen = refl;
    right_seen = h.right_seen;
    left_ended = refl;
    right_ended = h.right_ended;
  }

  pub right_end-Holds :
      (le : Bool) (xs : List Out1) (ys : List Out2) (s : JoinLocalHash Key Out1 Out2)
      → Holds keyer1 keyer2 le false xs ys s
      → Holds keyer1 keyer2 le true xs ys (receive keyer1 keyer2 drain1 drain2 right_end s)
  right_end-Holds le xs ys s h = record {
    left_stored = refl;
    right_stored = h.right_stored;
    left_seen = h.left_seen;
    right_seen = refl;
    left_ended = h.left_ended;
    right_ended = refl;
  }

  module _ (w : Key × OuterJoinTuple Out1 Out2 → ℕ)
      (drain1-perm : (m : List (Key × List Out1)) → Perm (drain1 m) m)
      (drain2-perm : (m : List (Key × List Out2)) → Perm (drain2 m) m)
      (s : JoinLocalHash Key Out1 Out2) (idle : s.buffer ≡ []) where
    -- What is due in the state `s`.
    abbrev pub due_in : Bool → Bool → List Out1 → List Out2 → ℕ
    due_in = due keyer1 keyer2 w (left_outer s.variant) (right_outer s.variant)

    -- Each arm pushes what becomes due.
    pub left-due :
        (re : Bool) (x : Out1) (xs : List Out1) (ys : List Out2)
        → Holds keyer1 keyer2 false re xs ys s
        → due_in false re xs ys + total w (receive keyer1 keyer2 drain1 drain2 (left x) s).buffer
          ≡ due_in false re (xs ++ x ∷ []) ys
    left-due re x xs ys h =
        rw (idle, h.right_ended, h.right_stored.0 (keyer1 x))
          (due-left keyer1 keyer2 w (left_outer s.variant) (right_outer s.variant) re x xs ys)

    pub right-due :
        (le : Bool) (y : Out2) (xs : List Out1) (ys : List Out2)
        → Holds keyer1 keyer2 le false xs ys s
        → due_in le false xs ys + total w (receive keyer1 keyer2 drain1 drain2 (right y) s).buffer
          ≡ due_in le false xs (ys ++ y ∷ [])
    right-due le y xs ys h =
        rw (idle, h.left_ended, h.left_stored.0 (keyer2 y))
          (due-right keyer1 keyer2 w (left_outer s.variant) (right_outer s.variant) le y xs ys)

    pub left_end-due :
        (re : Bool) (xs : List Out1) (ys : List Out2)
        → Holds keyer1 keyer2 false re xs ys s
        → due_in false re xs ys + total w (receive keyer1 keyer2 drain1 drain2 left_end s).buffer
          ≡ due_in true re xs ys
    left_end-due re xs ys h = rw idle (
        omega (
          arith,
          total-ended keyer1 keyer2 in_order w drain2 drain2-perm (right_outer s.variant) xs ys
              s.left_side.keys s.right_side.groups h.left_seen h.right_stored,
        ))

    pub right_end-due :
        (le : Bool) (xs : List Out1) (ys : List Out2)
        → Holds keyer1 keyer2 le false xs ys s
        → due_in le false xs ys + total w (receive keyer1 keyer2 drain1 drain2 right_end s).buffer
          ≡ due_in le true xs ys
    right_end-due le xs ys h = rw idle (
        omega (
          arith,
          total-ended keyer2 keyer1 swapped w drain1 drain1-perm (left_outer s.variant) ys xs
              s.right_side.keys s.left_side.groups h.right_seen h.left_stored,
        ))
