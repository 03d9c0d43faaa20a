-- ===== src/Join/LocalHash/Spec.antt =====
-- What a join of two lists is, with no hash maps and no order of arrival.
use renoir.Prelude.{
  Bool, true, false, none, some, List, [], ◌∷◌, ◌++◌, map, if◌then◌else◌, ◌≡◌, refl, ap,
}
use renoir.Prelude.Keys.{KeyEq, same}
use renoir.Stream.{StreamElement, item, flush_batch}
use renoir.Join.{
  BinaryElement, JoinVariant, left, right, left_end, right_end, left_outer, right_outer,
  OuterJoinTuple,
}
use renoir.Join.LocalHash.{is_empty}

module _ {ℓ} {Key A : Type ℓ} ⦃key : KeyEq Key⦄ (keyer : A → Key) where
  -- The items with the key `k`.
  abbrev pub matching : Key → List A → List A
  matching k [] = []
  matching k (x ∷ xs) = if same (keyer x) k then x ∷ matching k xs else matching k xs

module _ {ℓ} {Key A B T : Type ℓ} ⦃key : KeyEq Key⦄ (keyer : A → Key) (other_keyer : B → Key)
    (alone : A → T) where
  -- A tuple for each item that matches none of the others.
  abbrev pub only : List A → List B → List (Key × T)
  only [] ys = []
  only (x ∷ xs) ys =
      (if is_empty (matching other_keyer (keyer x) ys) then (keyer x, alone x) ∷ [] else [])
      ++ only xs ys

module _ {ℓ} {Key Out1 Out2 : Type ℓ} ⦃key : KeyEq Key⦄ (keyer1 : Out1 → Key)
    (keyer2 : Out2 → Key) where
  -- A tuple for each two items with one key.
  abbrev pub pairs : List Out1 → List Out2 → List (Key × OuterJoinTuple Out1 Out2)
  pairs [] ys = []
  pairs (x ∷ xs) ys =
      map (λ y. (keyer1 x, (some x, some y))) (matching keyer2 (keyer1 x) ys) ++ pairs xs ys

  abbrev pub left_only : List Out1 → List Out2 → List (Key × OuterJoinTuple Out1 Out2)
  left_only = only keyer1 keyer2 (λ x. (some x, none))

  abbrev pub right_only : List Out2 → List Out1 → List (Key × OuterJoinTuple Out1 Out2)
  right_only = only keyer2 keyer1 (λ y. (none, some y))

  abbrev pub joined : JoinVariant → List Out1 → List Out2 → List (Key × OuterJoinTuple Out1 Out2)
  joined v xs ys =
      pairs xs ys
      ++ (if left_outer v then left_only xs ys else [])
      ++ (if right_outer v then right_only ys xs else [])

module _ {ℓ} {Out1 Out2 : Type ℓ} where
  abbrev pub lefts : List (StreamElement (BinaryElement Out1 Out2)) → List Out1
  lefts [] = []
  lefts (item (left x) ∷ es) = x ∷ lefts es
  lefts (_ ∷ es) = lefts es

  abbrev pub rights : List (StreamElement (BinaryElement Out1 Out2)) → List Out2
  rights [] = []
  rights (item (right y) ∷ es) = y ∷ rights es
  rights (_ ∷ es) = rights es

  -- The rest of an iteration of the two sides, of which the left, or the right, has ended: items and
  -- flushes, and each side ends once and has no item after it.
  abbrev pub IsBinary : List (StreamElement (BinaryElement Out1 Out2)) → Bool → Bool → Type 0
  IsBinary [] true true = Unit
  IsBinary (flush_batch ∷ es) le re = IsBinary es le re
  IsBinary (item (left x) ∷ es) false re = IsBinary es false re
  IsBinary (item (right y) ∷ es) le false = IsBinary es le false
  IsBinary (item left_end ∷ es) false re = IsBinary es true re
  IsBinary (item right_end ∷ es) le false = IsBinary es le true
  IsBinary _ _ _ = ⊥

  abbrev pub IsIteration : List (StreamElement (BinaryElement Out1 Out2)) → Type 0
  IsIteration es = IsBinary es false false

module _ {ℓ} {T : Type ℓ} where
  -- The items of an iteration.
  abbrev pub tuples : List (StreamElement T) → List T
  tuples [] = []
  tuples (item t ∷ es) = t ∷ tuples es
  tuples (_ ∷ es) = tuples es

  pub tuples-append :
      (ts : List T) (es : List (StreamElement T)) → tuples (map item ts ++ es) ≡ ts ++ tuples es
  tuples-append [] es = refl
  tuples-append (t ∷ ts) es = ap (λ r. t ∷ r) (tuples-append ts es)
