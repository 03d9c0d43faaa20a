-- ===== src/Join/LocalHash/Iteration.antt =====
-- `JoinLocalHash` over iterations of its two sides.
use renoir.Prelude.{
  ◌≡◌, refl, Bool, true, false, some, List, [], ◌∷◌, ◌++◌, map, append_assoc, All, All-append,
}
use renoir.Prelude.Keys.{KeyEq}
use renoir.Stream.{
  StreamElement, item, timestamped, watermark, flush_batch, terminate, flush_and_restart,
}
use renoir.Stream.Run.{Upstream, IsGoing}
use renoir.Stream.Fallible.{Yields, Yields-append, Yields-absorb}
use renoir.Join.{BinaryElement, left, right, left_end, right_end, OuterJoinTuple}
use renoir.Join.LocalHash.{JoinLocalHash, receive, new, join_step, join_next}
use renoir.Join.LocalHash.Spec.{IsBinary}
use renoir.Join.LocalHash.Invariant.{
  Holds, left-Holds, right-Holds, left_end-Holds, right_end-Holds,
}

module _ {ℓ} {Key Out1 Out2 : Type ℓ} where
  -- The state after the whole buffer was returned.
  abbrev pub emptied : JoinLocalHash Key Out1 Out2 → JoinLocalHash Key Out1 Out2
  emptied s = record s { buffer = [] }

  -- The state with another buffer.
  abbrev filled :
      JoinLocalHash Key Out1 Out2
      → List (Key × OuterJoinTuple Out1 Out2)
      → JoinLocalHash Key Out1 Out2
  filled s b = record s { buffer = b }

module _ {ℓ} {B : Type ℓ} where
  items-IsGoing : (ts : List B) → All IsGoing (map item ts)
  items-IsGoing [] = tt
  items-IsGoing (t ∷ ts) = (tt, items-IsGoing ts)

module _ {ℓ} {Key Out1 Out2 : Type ℓ} ⦃key : KeyEq Key⦄ (keyer1 : Out1 → Key) (keyer2 : Out2 → Key)
    (drain1 : List (Key × List Out1) → List (Key × List Out1))
    (drain2 : List (Key × List Out2) → List (Key × List Out2)) where
  -- What is returned from the state `s`: after each item what it put into the buffer.
  abbrev pub outputs :
      JoinLocalHash Key Out1 Out2
      → List (StreamElement (BinaryElement Out1 Out2))
      → List (StreamElement (Key × OuterJoinTuple Out1 Out2))
  outputs s [] = []
  outputs s (item e ∷ es) =
      map item (receive keyer1 keyer2 drain1 drain2 e s).buffer
      ++ outputs (emptied (receive keyer1 keyer2 drain1 drain2 e s)) es
  outputs s (flush_batch ∷ es) = flush_batch ∷ outputs s es
  outputs s (_ ∷ es) = outputs s es

  pub outputs-IsGoing :
      (s : JoinLocalHash Key Out1 Out2) (es : List (StreamElement (BinaryElement Out1 Out2)))
      → All IsGoing (outputs s es)
  outputs-IsGoing s [] = tt
  outputs-IsGoing s (item e ∷ es) =
      All-append IsGoing (map item (receive keyer1 keyer2 drain1 drain2 e s).buffer) _
        (items-IsGoing (receive keyer1 keyer2 drain1 drain2 e s).buffer)
        (outputs-IsGoing (emptied (receive keyer1 keyer2 drain1 drain2 e s)) es)
  outputs-IsGoing s (flush_batch ∷ es) = (tt, outputs-IsGoing s es)
  outputs-IsGoing s (timestamped e ts ∷ es) = outputs-IsGoing s es
  outputs-IsGoing s (watermark w ∷ es) = outputs-IsGoing s es
  outputs-IsGoing s (terminate ∷ es) = outputs-IsGoing s es
  outputs-IsGoing s (flush_and_restart ∷ es) = outputs-IsGoing s es

  filled-step :
      (t : Key × OuterJoinTuple Out1 Out2) (b : List (Key × OuterJoinTuple Out1 Out2))
      (s : JoinLocalHash Key Out1 Out2) (prev : Upstream (BinaryElement Out1 Out2))
      → join_next keyer1 keyer2 drain1 drain2 (filled s (t ∷ b), prev)
        ≡ some (item t, (filled s b, prev))
  unfolding join_step
  filled-step t b s [] = refl
  filled-step t b s (item e ∷ prev) = refl
  filled-step t b s (timestamped e ts ∷ prev) = refl
  filled-step t b s (watermark w ∷ prev) = refl
  filled-step t b s (flush_batch ∷ prev) = refl
  filled-step t b s (terminate ∷ prev) = refl
  filled-step t b s (flush_and_restart ∷ prev) = refl

  -- The buffer is returned before anything is read.
  filled-Yields :
      (b : List (Key × OuterJoinTuple Out1 Out2)) (s : JoinLocalHash Key Out1 Out2)
      (prev : Upstream (BinaryElement Out1 Out2))
      → Yields
          (join_next keyer1 keyer2 drain1 drain2)
          (filled s b, prev)
          (map item b)
          (emptied s, prev)
  filled-Yields [] s prev = refl
  filled-Yields (t ∷ b) s prev =
      ((filled s b, prev), filled-step t b s prev, filled-Yields b s prev)

  join_step-item :
      (s : JoinLocalHash Key Out1 Out2) (e : BinaryElement Out1 Out2)
      (prev : Upstream (BinaryElement Out1 Out2))
      → s.buffer ≡ []
      → join_next keyer1 keyer2 drain1 drain2 (s, item e ∷ prev)
        ≡ join_next keyer1 keyer2 drain1 drain2 (receive keyer1 keyer2 drain1 drain2 e s, prev)
  unfolding join_step
  join_step-item s e prev p = rw p refl

  join_step-flush_batch :
      (s : JoinLocalHash Key Out1 Out2) (prev : Upstream (BinaryElement Out1 Out2))
      → s.buffer ≡ []
      → join_next keyer1 keyer2 drain1 drain2 (s, flush_batch ∷ prev)
        ≡ some (flush_batch, (s, prev))
  unfolding join_step
  join_step-flush_batch s prev p = rw p refl

  received-Yields :
      (s : JoinLocalHash Key Out1 Out2) (e : BinaryElement Out1 Out2)
      (es : List (StreamElement (BinaryElement Out1 Out2)))
      (prev : Upstream (BinaryElement Out1 Out2))
      (t : JoinLocalHash Key Out1 Out2 × Upstream (BinaryElement Out1 Out2))
      → s.buffer ≡ []
      → Yields
          (join_next keyer1 keyer2 drain1 drain2)
          (emptied (receive keyer1 keyer2 drain1 drain2 e s), prev)
          (outputs (emptied (receive keyer1 keyer2 drain1 drain2 e s)) es ++ flush_and_restart ∷ [])
          t
      → Yields
          (join_next keyer1 keyer2 drain1 drain2)
          (s, item e ∷ prev)
          (outputs s (item e ∷ es) ++ flush_and_restart ∷ [])
          t
  received-Yields s e es prev t p y =
      let s' : JoinLocalHash Key Out1 Out2 = receive keyer1 keyer2 drain1 drain2 e s in
      Yields-absorb (join_next keyer1 keyer2 drain1 drain2) (s, item e ∷ prev) (s', prev) t
        flush_and_restart (outputs s (item e ∷ es)) (join_step-item s e prev p)
        (rw (append_assoc (map item s'.buffer) (outputs (emptied s') es) (flush_and_restart ∷ [])) (
          Yields-append (join_next keyer1 keyer2 drain1 drain2) (s', prev) (emptied s', prev) t
            (map item s'.buffer) _ (filled-Yields s'.buffer s' prev) y))

  -- The assertions hold at the end of an iteration, and nothing is left of it.
  restart-Yields :
      (xs : List Out1) (ys : List Out2) (s : JoinLocalHash Key Out1 Out2)
      (rest : Upstream (BinaryElement Out1 Out2))
      → s.buffer ≡ []
      → Holds keyer1 keyer2 true true xs ys s
      → join_next keyer1 keyer2 drain1 drain2 (s, flush_and_restart ∷ rest)
        ≡ some (flush_and_restart, (new s.variant, rest))
  unfolding join_step
  restart-Yields xs ys s rest p h =
      rw (p, h.left_ended, h.right_ended, h.left_stored, h.right_stored, h.left_seen, h.right_seen)
        refl

  pub Holds-emptied :
      (le re : Bool) (xs : List Out1) (ys : List Out2) (s : JoinLocalHash Key Out1 Out2)
      → Holds keyer1 keyer2 le re xs ys s
      → Holds keyer1 keyer2 le re xs ys (emptied s)
  Holds-emptied le re xs ys s h = record {
    left_stored = h.left_stored;
    right_stored = h.right_stored;
    left_seen = h.left_seen;
    right_seen = h.right_seen;
    left_ended = h.left_ended;
    right_ended = h.right_ended;
  }

  pub iteration-Yields :
      (es : List (StreamElement (BinaryElement Out1 Out2))) (le re : Bool) (xs : List Out1)
      (ys : List Out2) (s : JoinLocalHash Key Out1 Out2) (rest : Upstream (BinaryElement Out1 Out2))
      → s.buffer ≡ []
      → Holds keyer1 keyer2 le re xs ys s
      → IsBinary es le re
      → Yields
          (join_next keyer1 keyer2 drain1 drain2)
          (s, es ++ flush_and_restart ∷ rest)
          (outputs s es ++ flush_and_restart ∷ [])
          (new s.variant, rest)
  iteration-Yields [] true true xs ys s rest p h b =
      ((new s.variant, rest), restart-Yields xs ys s rest p h, refl)
  iteration-Yields [] true false xs ys s rest p h b = absurd b
  iteration-Yields [] false re xs ys s rest p h b = absurd b
  iteration-Yields (flush_batch ∷ es) le re xs ys s rest p h b = (
    (s, es ++ flush_and_restart ∷ rest),
    join_step-flush_batch s (es ++ flush_and_restart ∷ rest) p,
    iteration-Yields es le re xs ys s rest p h b,
  )
  iteration-Yields (item (left x) ∷ es) true re xs ys s rest p h b = absurd b
  iteration-Yields (item (left x) ∷ es) false re xs ys s rest p h b =
      received-Yields s (left x) es (es ++ flush_and_restart ∷ rest) (new s.variant, rest) p
        (iteration-Yields es false re (xs ++ x ∷ []) ys _ rest refl
          (Holds-emptied false re (xs ++ x ∷ []) ys _
            (left-Holds keyer1 keyer2 drain1 drain2 re x xs ys s h))
          b)
  iteration-Yields (item (right y) ∷ es) le true xs ys s rest p h b = absurd b
  iteration-Yields (item (right y) ∷ es) le false xs ys s rest p h b =
      received-Yields s (right y) es (es ++ flush_and_restart ∷ rest) (new s.variant, rest) p
        (iteration-Yields es le false xs (ys ++ y ∷ []) _ rest refl
          (Holds-emptied le false xs (ys ++ y ∷ []) _
            (right-Holds keyer1 keyer2 drain1 drain2 le y xs ys s h))
          b)
  iteration-Yields (item left_end ∷ es) true re xs ys s rest p h b = absurd b
  iteration-Yields (item left_end ∷ es) false re xs ys s rest p h b =
      received-Yields s left_end es (es ++ flush_and_restart ∷ rest) (new s.variant, rest) p
        (iteration-Yields es true re xs ys _ rest refl
          (Holds-emptied true re xs ys _ (left_end-Holds keyer1 keyer2 drain1 drain2 re xs ys s h))
          b)
  iteration-Yields (item right_end ∷ es) le true xs ys s rest p h b = absurd b
  iteration-Yields (item right_end ∷ es) le false xs ys s rest p h b =
      received-Yields s right_end es (es ++ flush_and_restart ∷ rest) (new s.variant, rest) p
        (iteration-Yields es le true xs ys _ rest refl
          (Holds-emptied le true xs ys _ (right_end-Holds keyer1 keyer2 drain1 drain2 le xs ys s h))
          b)
  iteration-Yields (timestamped e ts ∷ es) le re xs ys s rest p h b = absurd b
  iteration-Yields (watermark w ∷ es) le re xs ys s rest p h b = absurd b
  iteration-Yields (terminate ∷ es) le re xs ys s rest p h b = absurd b
  iteration-Yields (flush_and_restart ∷ es) le re xs ys s rest p h b = absurd b
