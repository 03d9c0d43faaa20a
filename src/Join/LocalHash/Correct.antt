-- ===== src/Join/LocalHash/Correct.antt =====
-- `JoinLocalHash` builds the join of its two sides.
use mathlib.Core.List.{Perm}
use renoir.Prelude.{
  ℕ, ◌+◌, ◌<◌, length, ◌≡◌, refl, sym, ap, ◌∙◌, Bool, true, false, some, List, [], ◌∷◌, ◌++◌, map,
  append_assoc, append-nil, arith, if◌then◌else◌, All, All-map,
}
use renoir.Prelude.Keys.{KeyEq}
use renoir.Prelude.Sums.{total, total-append, total-append3, count}
use renoir.Stream.{
  StreamElement, item, timestamped, watermark, flush_batch, terminate, flush_and_restart,
}
use renoir.Stream.Run.{Upstream, stream}
use renoir.Stream.Fallible.{Yields, Reworks, work, work-Reworks}
use renoir.Join.{
  BinaryElement, JoinVariant, left, right, left_end, right_end, left_outer, right_outer,
  OuterJoinTuple,
}
use renoir.Join.LocalHash.{JoinLocalHash, receive, new, join_step, join_next}
use renoir.Join.LocalHash.Spec.{
  joined, lefts, rights, IsBinary, IsIteration, tuples, tuples-append, pairs, left_only, right_only,
}
use renoir.Join.LocalHash.Side.{Seen}
use renoir.Join.LocalHash.Totals.{due}
use renoir.Join.LocalHash.Iteration.{
  emptied, outputs, outputs-IsGoing, iteration-Yields, Holds-emptied,
}
use renoir.Join.LocalHash.Invariant.{
  Holds, left-Holds, right-Holds, left_end-Holds, right_end-Holds, left-due, right-due,
  left_end-due, right_end-due,
}

module _ {ℓ} {Key Out1 Out2 : Type ℓ} ⦃key : KeyEq Key⦄ (keyer1 : Out1 → Key) (keyer2 : Out2 → Key)
    (drain1 : List (Key × List Out1) → List (Key × List Out1))
    (drain2 : List (Key × List Out2) → List (Key × List Out2)) where
  Seen-nil : {A : Type ℓ} (keyer : A → Key) (outer : Bool) → Seen keyer false outer [] []
  Seen-nil keyer true = λ k. refl
  Seen-nil keyer false = refl

  new-Holds : (v : JoinVariant) → Holds keyer1 keyer2 false false [] [] (new v)
  new-Holds v = record {
    left_stored = (λ k. refl, λ w. refl);
    right_stored = (λ k. refl, λ w. refl);
    left_seen = Seen-nil keyer1 (right_outer v);
    right_seen = Seen-nil keyer2 (left_outer v);
    left_ended = refl;
    right_ended = refl;
  }

  new_iteration :
      (v : JoinVariant) (s : JoinLocalHash Key Out1 Out2)
      (es : List (StreamElement (BinaryElement Out1 Out2)))
      (rest : Upstream (BinaryElement Out1 Out2))
      → s ≡ new v
      → IsIteration es
      → Yields
          (join_next keyer1 keyer2 drain1 drain2)
          (s, es ++ flush_and_restart ∷ rest)
          (outputs keyer1 keyer2 drain1 drain2 (new v) es ++ flush_and_restart ∷ [])
          (new v, rest)
  new_iteration v s es rest p b = rw p (
      iteration-Yields keyer1 keyer2 drain1 drain2 es false false [] [] (new v) rest refl
        (new-Holds v) b)

  new_ending :
      (v : JoinVariant)
      → join_next keyer1 keyer2 drain1 drain2 (new v, []) ≡ some (terminate, (new v, []))
  unfolding join_step
  new_ending v = refl

  join-Reworks :
      (v : JoinVariant)
      → Reworks
          (join_next keyer1 keyer2 drain1 drain2)
          (λ s. s ≡ new v)
          IsIteration
          (outputs keyer1 keyer2 drain1 drain2 (new v))
  join-Reworks v = record {
    iteration = λ s xs rest p b. (new v, refl, new_iteration v s xs rest p b);
    ending = λ s p. ((new v, []), rw p (new_ending v));
    data_only = λ es b. outputs-IsGoing keyer1 keyer2 drain1 drain2 (new v) es;
  }

  module _ (w : Key × OuterJoinTuple Out1 Out2 → ℕ)
      (drain1-perm : (m : List (Key × List Out1)) → Perm (drain1 m) m)
      (drain2-perm : (m : List (Key × List Out2)) → Perm (drain2 m) m) where
    -- What the arm for an item pushes, and then the rest of the iteration.
    total-received :
        (s : JoinLocalHash Key Out1 Out2) (e : BinaryElement Out1 Out2)
        (es : List (StreamElement (BinaryElement Out1 Out2)))
        → total w (tuples (outputs keyer1 keyer2 drain1 drain2 s (item e ∷ es)))
          ≡ total w (receive keyer1 keyer2 drain1 drain2 e s).buffer
            + total w (
                tuples (
                  outputs keyer1 keyer2 drain1 drain2
                    (emptied (receive keyer1 keyer2 drain1 drain2 e s))
                    es))
    total-received s e es =
        let s' : JoinLocalHash Key Out1 Out2 = receive keyer1 keyer2 drain1 drain2 e s in
        ap (total w) (tuples-append s'.buffer (outputs keyer1 keyer2 drain1 drain2 (emptied s') es))
        ∙ total-append w s'.buffer (tuples (outputs keyer1 keyer2 drain1 drain2 (emptied s') es))

    -- What is returned for the rest of an iteration is what becomes due in it.
    total-outputs :
        (es : List (StreamElement (BinaryElement Out1 Out2))) (le re : Bool) (xs : List Out1)
        (ys : List Out2) (s : JoinLocalHash Key Out1 Out2)
        → s.buffer ≡ []
        → Holds keyer1 keyer2 le re xs ys s
        → IsBinary es le re
        → due keyer1 keyer2 w (left_outer s.variant) (right_outer s.variant) le re xs ys
            + total w (tuples (outputs keyer1 keyer2 drain1 drain2 s es))
          ≡ due keyer1 keyer2 w
              (left_outer s.variant)
              (right_outer s.variant)
              true
              true
              (xs ++ lefts es)
              (ys ++ rights es)
    total-outputs [] true true xs ys s p h b = rw (append-nil xs, append-nil ys) (omega arith)
    total-outputs [] true false xs ys s p h b = absurd b
    total-outputs [] false re xs ys s p h b = absurd b
    total-outputs (flush_batch ∷ es) le re xs ys s p h b = total-outputs es le re xs ys s p h b
    total-outputs (item (left x) ∷ es) true re xs ys s p h b = absurd b
    total-outputs (item (left x) ∷ es) false re xs ys s p h b =
        let h' =
          Holds-emptied keyer1 keyer2 drain1 drain2 false re (xs ++ x ∷ []) ys _
            (left-Holds keyer1 keyer2 drain1 drain2 re x xs ys s h) in
        let rest = total-outputs es false re (xs ++ x ∷ []) ys _ refl h' b in
        omega (
          arith,
          total-received s (left x) es,
          left-due keyer1 keyer2 drain1 drain2 w drain1-perm drain2-perm s p re x xs ys h,
          simp append_assoc at rest,
        )
    total-outputs (item (right y) ∷ es) le true xs ys s p h b = absurd b
    total-outputs (item (right y) ∷ es) le false xs ys s p h b =
        let h' =
          Holds-emptied keyer1 keyer2 drain1 drain2 le false xs (ys ++ y ∷ []) _
            (right-Holds keyer1 keyer2 drain1 drain2 le y xs ys s h) in
        let rest = total-outputs es le false xs (ys ++ y ∷ []) _ refl h' b in
        omega (
          arith,
          total-received s (right y) es,
          right-due keyer1 keyer2 drain1 drain2 w drain1-perm drain2-perm s p le y xs ys h,
          simp append_assoc at rest,
        )
    total-outputs (item left_end ∷ es) true re xs ys s p h b = absurd b
    total-outputs (item left_end ∷ es) false re xs ys s p h b =
        let h' =
          Holds-emptied keyer1 keyer2 drain1 drain2 true re xs ys _
            (left_end-Holds keyer1 keyer2 drain1 drain2 re xs ys s h) in
        omega (
          arith,
          total-received s left_end es,
          left_end-due keyer1 keyer2 drain1 drain2 w drain1-perm drain2-perm s p re xs ys h,
          total-outputs es true re xs ys _ refl h' b,
        )
    total-outputs (item right_end ∷ es) le true xs ys s p h b = absurd b
    total-outputs (item right_end ∷ es) le false xs ys s p h b =
        let h' =
          Holds-emptied keyer1 keyer2 drain1 drain2 le true xs ys _
            (right_end-Holds keyer1 keyer2 drain1 drain2 le xs ys s h) in
        omega (
          arith,
          total-received s right_end es,
          right_end-due keyer1 keyer2 drain1 drain2 w drain1-perm drain2-perm s p le xs ys h,
          total-outputs es le true xs ys _ refl h' b,
        )
    total-outputs (timestamped e ts ∷ es) le re xs ys s p h b = absurd b
    total-outputs (watermark w ∷ es) le re xs ys s p h b = absurd b
    total-outputs (terminate ∷ es) le re xs ys s p h b = absurd b
    total-outputs (flush_and_restart ∷ es) le re xs ys s p h b = absurd b

    due-new :
        (v : JoinVariant) → due keyer1 keyer2 w (left_outer v) (right_outer v) false false [] [] ≡ 0
    due-new v = omega arith

    total-joined :
        (v : JoinVariant) (xs : List Out1) (ys : List Out2)
        → due keyer1 keyer2 w (left_outer v) (right_outer v) true true xs ys
          ≡ total w (joined keyer1 keyer2 v xs ys)
    total-joined v xs ys = sym (
        total-append3 w (pairs keyer1 keyer2 xs ys)
          (if left_outer v then left_only keyer1 keyer2 xs ys else [])
          (if right_outer v then right_only keyer1 keyer2 ys xs else []))

    total-new :
        (v : JoinVariant) (es : List (StreamElement (BinaryElement Out1 Out2)))
        → IsIteration es
        → total w (tuples (outputs keyer1 keyer2 drain1 drain2 (new v) es))
          ≡ total w (joined keyer1 keyer2 v (lefts es) (rights es))
    total-new v es b = omega (
      arith,
      total-outputs es false false [] [] (new v) refl (new-Holds v) b,
      due-new v,
      total-joined v (lefts es) (rights es),
    )

  module _ (drain1-perm : (m : List (Key × List Out1)) → Perm (drain1 m) m)
      (drain2-perm : (m : List (Key × List Out2)) → Perm (drain2 m) m) where
    -- For any keyers, any order in which the hash maps are drained and any variant, a worker over a
    -- new hash join ends without a panic, given fuel for each element, on iterations in which each
    -- side ends once and then has no item, with no timestamps and no watermarks; it passes on
    -- `outputs` for each iteration. Any test on tuples is passed by as many of the tuples in these
    -- outputs as of the join of the two lists of items: a tuple for each two items with one key,
    -- and, if the variant is outer on a side, one for each item of that side that matches none.
    pub work-joined :
        (fuel : ℕ) (v : JoinVariant) (its : List (List (StreamElement (BinaryElement Out1 Out2))))
        (p : Key × OuterJoinTuple Out1 Out2 → Bool)
        → All IsIteration its
        → length (stream (map (outputs keyer1 keyer2 drain1 drain2 (new v)) its)) < fuel
        → (work (join_next keyer1 keyer2 drain1 drain2) fuel (new v, stream its)
            ≡ some (stream (map (outputs keyer1 keyer2 drain1 drain2 (new v)) its)))
          × All
              (λ es.
                count p (tuples (outputs keyer1 keyer2 drain1 drain2 (new v) es))
                ≡ count p (joined keyer1 keyer2 v (lefts es) (rights es)))
              its
    work-joined fuel v its p b h = (
      work-Reworks (join-Reworks v) fuel (new v) its refl b h,
      All-map
          {Q = λ es.
            count p (tuples (outputs keyer1 keyer2 drain1 drain2 (new v) es))
            ≡ count p (joined keyer1 keyer2 v (lefts es) (rights es))}
          (total-new (λ t. if p t then 1 else 0) drain1-perm drain2-perm v) its b,
    )
