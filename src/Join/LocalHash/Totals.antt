-- ===== src/Join/LocalHash/Totals.antt =====
-- How the weight of the join of two lists grows with an item, and what the end of a side adds.
use renoir.Prelude.{
  ℕ, ◌+◌, ◌≡◌, refl, ap, ◌∙◌, Bool, true, false, not, ◌&&◌, Option, none, some, List, [], ◌∷◌, ◌++◌,
  map, arith, if◌then◌else◌, Bool-cases, inl, inr,
}
use mathlib.Core.List.{Perm}
use renoir.Prelude.Keys.{KeyEq, same, same_comm}
use renoir.Prelude.HashMap.{contains}
use renoir.Prelude.Sums.{total, total-append, total-map, total-perm}
use renoir.Join.{OuterJoinTuple}
use renoir.Join.LocalHash.{new_tuples, drained, is_empty, in_order, swapped}
use renoir.Join.LocalHash.Spec.{matching, only, pairs, left_only, right_only}
use renoir.Join.LocalHash.Side.{
  Stored, Seen, matching-snoc, group_of, total-new_tuples, total-drained,
}

module _ {ℓ} {Key A B T : Type ℓ} ⦃key : KeyEq Key⦄ (keyer : A → Key) (other_keyer : B → Key)
    (alone : A → T) (w : Key × T → ℕ) where
  total-only-snoc :
      (x : A) (xs : List A) (ys : List B)
      → total w (only keyer other_keyer alone (xs ++ x ∷ []) ys)
        ≡ total w (only keyer other_keyer alone xs ys)
          + total w
              (if is_empty (matching other_keyer (keyer x) ys) then (keyer x, alone x) ∷ [] else [])
  total-only-snoc x [] ys = omega (
    arith,
    total-append w
        (if is_empty (matching other_keyer (keyer x) ys) then (keyer x, alone x) ∷ [] else []) [],
  )
  total-only-snoc x (z ∷ xs) ys = omega (
    arith,
    total-only-snoc x xs ys,
    total-append w
        (if is_empty (matching other_keyer (keyer z) ys) then (keyer z, alone z) ∷ [] else [])
        (only keyer other_keyer alone (xs ++ x ∷ []) ys),
    total-append w
        (if is_empty (matching other_keyer (keyer z) ys) then (keyer z, alone z) ∷ [] else [])
        (only keyer other_keyer alone xs ys),
  )

  -- The same where the tuples are wanted only if `b`.
  pub total-only-grow :
      (b : Bool) (x : A) (xs : List A) (ys : List B)
      → total w (if b then only keyer other_keyer alone (xs ++ x ∷ []) ys else [])
        ≡ total w (if b then only keyer other_keyer alone xs ys else [])
          + total w (
              if b
              then (if is_empty (matching other_keyer (keyer x) ys)
                  then (keyer x, alone x) ∷ []
                  else [])
              else [])
  total-only-grow true x xs ys = total-only-snoc x xs ys
  total-only-grow false x xs ys = omega arith

  total-only-unseen :
      (xs : List A) (ys : List B) (seen : List Key)
      → ((k : Key) → contains k seen ≡ not (is_empty (matching other_keyer k ys)))
      → total (λ x. if contains (keyer x) seen then 0 else w (keyer x, alone x)) xs
        ≡ total w (only keyer other_keyer alone xs ys)
  total-only-unseen [] ys seen h = refl
  total-only-unseen (x ∷ xs) ys seen h =
      elim (Bool-cases (is_empty (matching other_keyer (keyer x) ys))) [
        | inl e ↦ rw (h (keyer x), e) (omega (arith, total-only-unseen xs ys seen h))
        | inr n ↦ rw (h (keyer x), n) (omega (arith, total-only-unseen xs ys seen h))
      ]

module _ {ℓ} {Key OutL OutR T : Type ℓ} ⦃key : KeyEq Key⦄ (keyer : OutL → Key)
    (other_keyer : OutR → Key) (mk : Option OutL → Option OutR → T) (w : Key × T → ℕ)
    (drain : List (Key × List OutR) → List (Key × List OutR))
    (drain-perm : (m : List (Key × List OutR)) → Perm (drain m) m) where
  -- What the end of a side pushes weighs as much as the items of the other that match none of it.
  pub total-ended :
      (outer : Bool) (xs : List OutL) (ys : List OutR) (seen : List Key)
      (groups : List (Key × List OutR))
      → Seen keyer false outer xs seen
      → Stored other_keyer false ys groups
      → total w (if outer then drained mk seen (drain groups) else [])
        ≡ total w (if outer then only other_keyer keyer (λ y. mk none (some y)) ys xs else [])
  total-ended false xs ys seen groups h st = refl
  total-ended true xs ys seen groups h (found, sums) =
      total-drained mk w seen (drain groups)
      ∙ total-perm _ (drain groups) groups (drain-perm groups)
      ∙ sums (λ k y. if contains k seen then 0 else w (k, mk none (some y)))
      ∙ total-only-unseen other_keyer keyer (λ y. mk none (some y)) w ys xs seen h

module _ {ℓ} {Key Out1 Out2 : Type ℓ} ⦃key : KeyEq Key⦄ (keyer1 : Out1 → Key) (keyer2 : Out2 → Key)
    (w : Key × OuterJoinTuple Out1 Out2 → ℕ) where
  total-pairs-cons :
      (x : Out1) (xs : List Out1) (ys : List Out2)
      → total w (pairs keyer1 keyer2 (x ∷ xs) ys)
        ≡ total (λ y. w (keyer1 x, (some x, some y))) (matching keyer2 (keyer1 x) ys)
          + total w (pairs keyer1 keyer2 xs ys)
  total-pairs-cons x xs ys = omega (
    arith,
    total-append w (map (λ y. (keyer1 x, (some x, some y))) (matching keyer2 (keyer1 x) ys))
        (pairs keyer1 keyer2 xs ys),
    total-map w (λ y. (keyer1 x, (some x, some y))) (matching keyer2 (keyer1 x) ys),
  )

  total-pairs-left :
      (x : Out1) (xs : List Out1) (ys : List Out2)
      → total w (pairs keyer1 keyer2 (xs ++ x ∷ []) ys)
        ≡ total w (pairs keyer1 keyer2 xs ys)
          + total (λ y. w (keyer1 x, (some x, some y))) (matching keyer2 (keyer1 x) ys)
  total-pairs-left x [] ys = omega (arith, total-pairs-cons x [] ys)
  total-pairs-left x (z ∷ xs) ys = omega (
    arith,
    total-pairs-left x xs ys,
    total-pairs-cons z (xs ++ x ∷ []) ys,
    total-pairs-cons z xs ys,
  )

  -- What one left item gets from one more right item.
  row-right :
      (x : Out1) (xs : List Out1) (y : Out2)
      → total
            (λ y. w (keyer1 x, (some x, some y)))
            (if same (keyer2 y) (keyer1 x) then y ∷ [] else [])
          + total (λ x. w (keyer2 y, (some x, some y))) (matching keyer1 (keyer2 y) xs)
        ≡ total (λ x. w (keyer2 y, (some x, some y))) (matching keyer1 (keyer2 y) (x ∷ xs))
  row-right x xs y = elim (Bool-cases (same (keyer2 y) (keyer1 x))) [
    | inl e ↦
        rw (same_comm (keyer1 x) (keyer2 y), e)
          (omega
            (arith, ap (λ k. w (k, (some x, some y))) ((key.same_iff (keyer2 y) (keyer1 x)).0 e)))
    | inr n ↦ rw (same_comm (keyer1 x) (keyer2 y), n) (omega arith)
  ]

  total-pairs-right :
      (y : Out2) (xs : List Out1) (ys : List Out2)
      → total w (pairs keyer1 keyer2 xs (ys ++ y ∷ []))
        ≡ total w (pairs keyer1 keyer2 xs ys)
          + total (λ x. w (keyer2 y, (some x, some y))) (matching keyer1 (keyer2 y) xs)
  total-pairs-right y [] ys = omega arith
  total-pairs-right y (x ∷ xs) ys = omega (
    arith,
    total-pairs-right y xs ys,
    total-pairs-cons x xs (ys ++ y ∷ []),
    total-pairs-cons x xs ys,
    ap (total (λ y. w (keyer1 x, (some x, some y)))) (matching-snoc keyer2 (keyer1 x) y ys),
    total-append (λ y. w (keyer1 x, (some x, some y))) (matching keyer2 (keyer1 x) ys)
        (if same (keyer2 y) (keyer1 x) then y ∷ [] else []),
    row-right x xs y,
  )

  -- The weight of the tuples that are due when these items have come, and these sides have ended.
  abbrev pub due : Bool → Bool → Bool → Bool → List Out1 → List Out2 → ℕ
  due lo ro le re xs ys =
      total w (pairs keyer1 keyer2 xs ys)
      + total w (if re && lo then left_only keyer1 keyer2 xs ys else [])
      + total w (if le && ro then right_only keyer1 keyer2 ys xs else [])

  pub due-left :
      (lo ro re : Bool) (x : Out1) (xs : List Out1) (ys : List Out2)
      → due lo ro false re xs ys
          + total w (
              new_tuples in_order
                (keyer1 x)
                x
                (group_of (matching keyer2 (keyer1 x) ys))
                (re && lo))
        ≡ due lo ro false re (xs ++ x ∷ []) ys
  due-left lo ro re x xs ys = omega (
    arith,
    total-new_tuples in_order w (keyer1 x) x (matching keyer2 (keyer1 x) ys) (re && lo),
    total-pairs-left x xs ys,
    total-only-grow keyer1 keyer2 (λ x. (some x, none)) w (re && lo) x xs ys,
  )

  pub due-right :
      (lo ro le : Bool) (y : Out2) (xs : List Out1) (ys : List Out2)
      → due lo ro le false xs ys
          + total w (
              new_tuples swapped (keyer2 y) y (group_of (matching keyer1 (keyer2 y) xs)) (le && ro))
        ≡ due lo ro le false xs (ys ++ y ∷ [])
  due-right lo ro le y xs ys = omega (
    arith,
    total-new_tuples swapped w (keyer2 y) y (matching keyer1 (keyer2 y) xs) (le && ro),
    total-pairs-right y xs ys,
    total-only-grow keyer2 keyer1 (λ y. (none, some y)) w (le && ro) y ys xs,
  )
