-- ===== src/Join/LocalHash.antt =====
-- src/operator/join/local_hash.rs: the join of two streams whose sides are kept in hash maps.
pub mod Side
pub mod Spec
pub mod Totals
pub mod Invariant
pub mod Iteration
pub mod Correct
pub mod Tests
use renoir.Prelude.{
  ℕ, suc, Bool, true, false, ◌&&◌, Option, none, some, List, [], ◌∷◌, ◌++◌, map, if◌then◌else◌,
}
use renoir.Prelude.Keys.{KeyEq}
use renoir.Prelude.HashMap.{get, push, contains, insert}
use renoir.Stream.{
  StreamElement, item, timestamped, watermark, flush_batch, terminate, flush_and_restart,
}
use renoir.Stream.Run.{Upstream}
use renoir.Stream.Fallible.{Call}
use renoir.Join.{
  BinaryElement, JoinVariant, left, right, left_end, right_end, left_outer, right_outer,
  OuterJoinTuple,
}

-- `groups` is the field `data`.
pub record SideHashMap {ℓ} (Key Out : Type ℓ) : Type ℓ where
  pub groups : List (Key × List Out)
  pub keys : List Key
  pub ended : Bool
  pub count : ℕ

abbrev pub default_side {ℓ} : {Key Out : Type ℓ} → SideHashMap Key Out
default_side = record { groups = []; keys = []; ended = false; count = 0 }

pub record JoinLocalHash {ℓ} (Key Out1 Out2 : Type ℓ) : Type ℓ where
  pub left_side : SideHashMap Key Out1
  pub right_side : SideHashMap Key Out2
  pub variant : JoinVariant
  pub buffer : List (Key × OuterJoinTuple Out1 Out2)

module _ {ℓ} {Key Out1 Out2 : Type ℓ} where
  abbrev pub new : JoinVariant → JoinLocalHash Key Out1 Out2
  new v = record { left_side = default_side; right_side = default_side; variant = v; buffer = [] }

-- One of the two ways to see the operator: `OutL` is the side that received something. `Tuple` is the
-- `OuterJoinTuple` that `make_pair` builds.
module _ {ℓ} {Key OutL OutR Tuple : Type ℓ} ⦃key : KeyEq Key⦄
    (make_pair : Option OutL → Option OutR → Tuple) where
  abbrev pub matched : Key → OutL → List OutR → List (Key × Tuple)
  matched k x rhs = map (λ y. (k, make_pair (some x) (some y))) rhs

  abbrev pub unmatched : Key → List OutR → List (Key × Tuple)
  unmatched k rhs = map (λ y. (k, make_pair none (some y))) rhs

  -- The tuples that `add_item` pushes.
  abbrev pub new_tuples : Key → OutL → Option (List OutR) → Bool → List (Key × Tuple)
  new_tuples k x (some rhs) outer = matched k x rhs
  new_tuples k x none outer = if outer then (k, make_pair (some x) none) ∷ [] else []

  abbrev pub add_item :
      Key
      → OutL
      → SideHashMap Key OutL
      → SideHashMap Key OutR
      → Bool
      → Bool
      → List (Key × Tuple)
      → SideHashMap Key OutL × List (Key × Tuple)
  add_item k x this other this_outer other_outer buffer = (
    record {
      groups = if other.ended then this.groups else push k x this.groups;
      keys = if other_outer then insert k this.keys else this.keys;
      ended = this.ended;
      count = suc this.count;
    },
    buffer ++ new_tuples k x (get k other.groups) (other.ended && this_outer),
  )

  -- The tuples of the drained groups whose key was never seen on the side that ended.
  abbrev pub drained : List Key → List (Key × List OutR) → List (Key × Tuple)
  drained seen [] = []
  drained seen ((k, rhs) ∷ m) = (if contains k seen then [] else unmatched k rhs) ++ drained seen m

  -- `drain` puts the groups in the order in which the map gives them.
  abbrev pub side_ended :
      (List (Key × List OutR) → List (Key × List OutR))
      → Bool
      → SideHashMap Key OutL
      → SideHashMap Key OutR
      → List (Key × Tuple)
      → SideHashMap Key OutL × SideHashMap Key OutR × List (Key × Tuple)
  side_ended drain other_outer this other buffer = (
    record this { keys = []; ended = true },
    record other { groups = [] },
    buffer ++ (if other_outer then drained this.keys (drain other.groups) else []),
  )

module _ {ℓ} {A : Type ℓ} where
  abbrev pub is_empty : List A → Bool
  is_empty [] = true
  is_empty (x ∷ xs) = false

abbrev pub in_order {ℓ} : {A B : Type ℓ} → A → B → A × B
in_order x y = (x, y)

abbrev pub swapped {ℓ} : {A B : Type ℓ} → B → A → A × B
swapped y x = (x, y)

module _ {ℓ} {Key Out1 Out2 : Type ℓ} ⦃key : KeyEq Key⦄ (keyer1 : Out1 → Key) (keyer2 : Out2 → Key)
    (drain1 : List (Key × List Out1) → List (Key × List Out1))
    (drain2 : List (Key × List Out2) → List (Key × List Out2)) where
  -- The arms of `next` for an item.
  abbrev pub receive :
      BinaryElement Out1 Out2 → JoinLocalHash Key Out1 Out2 → JoinLocalHash Key Out1 Out2
  receive (left x) s =
      let (l, b) =
        add_item in_order (keyer1 x) x s.left_side s.right_side (left_outer s.variant)
          (right_outer s.variant) s.buffer in
      record s { left_side = l; buffer = b }
  receive (right y) s =
      let (r, b) =
        add_item swapped (keyer2 y) y s.right_side s.left_side (right_outer s.variant)
          (left_outer s.variant) s.buffer in
      record s { right_side = r; buffer = b }
  receive left_end s =
      let (l, r, b) =
        side_ended in_order drain2 (right_outer s.variant) s.left_side s.right_side s.buffer in
      record s { left_side = l; right_side = r; buffer = b }
  receive right_end s =
      let (r, l, b) =
        side_ended swapped drain1 (left_outer s.variant) s.right_side s.left_side s.buffer in
      record s { left_side = l; right_side = r; buffer = b }

module _ {ℓ} {Key Out1 Out2 : Type ℓ} where
  -- The assertions of the arm for a `FlushAndRestart`.
  abbrev pub may_restart : JoinLocalHash Key Out1 Out2 → Bool
  may_restart s =
      s.left_side.ended
      && s.right_side.ended
      && is_empty s.left_side.groups
      && is_empty s.right_side.groups
      && is_empty s.left_side.keys
      && is_empty s.right_side.keys

  abbrev pub restart : JoinLocalHash Key Out1 Out2 → JoinLocalHash Key Out1 Out2
  restart s = record s {
    left_side = record (s.left_side) { ended = false; count = 0 };
    right_side = record (s.right_side) { ended = false; count = 0 };
  }

module _ {ℓ} {Key Out1 Out2 : Type ℓ} ⦃key : KeyEq Key⦄ (keyer1 : Out1 → Key) (keyer2 : Out2 → Key)
    (drain1 : List (Key × List Out1) → List (Key × List Out1))
    (drain2 : List (Key × List Out2) → List (Key × List Out2)) where
  -- The head of the buffer is returned; the loop runs only while there is none.
  abbrev pub pop :
      List (Key × OuterJoinTuple Out1 Out2)
      → JoinLocalHash Key Out1 Out2
      → Upstream (BinaryElement Out1 Out2)
      → Call
          (Key × OuterJoinTuple Out1 Out2)
          (JoinLocalHash Key Out1 Out2 × Upstream (BinaryElement Out1 Out2))
      → Call
          (Key × OuterJoinTuple Out1 Out2)
          (JoinLocalHash Key Out1 Out2 × Upstream (BinaryElement Out1 Out2))
  pop [] s prev loop = loop
  pop (t ∷ buffer) s prev loop = some (item t, (record s { buffer = buffer }, prev))

  unfoldable pub join_step :
      JoinLocalHash Key Out1 Out2
      → Upstream (BinaryElement Out1 Out2)
      → Call
          (Key × OuterJoinTuple Out1 Out2)
          (JoinLocalHash Key Out1 Out2 × Upstream (BinaryElement Out1 Out2))
  join_step s [] = pop s.buffer s [] (some (terminate, (s, [])))
  join_step s (item e ∷ prev) =
      pop s.buffer s (item e ∷ prev) (join_step (receive keyer1 keyer2 drain1 drain2 e s) prev)
  join_step s (flush_and_restart ∷ prev) =
      pop s.buffer s (flush_and_restart ∷ prev)
        (if may_restart s then some (flush_and_restart, (restart s, prev)) else none)
  join_step s (terminate ∷ prev) = pop s.buffer s (terminate ∷ prev) (some (terminate, (s, prev)))
  join_step s (flush_batch ∷ prev) =
      pop s.buffer s (flush_batch ∷ prev) (some (flush_batch, (s, prev)))
  join_step s (watermark w ∷ prev) = pop s.buffer s (watermark w ∷ prev) none
  join_step s (timestamped e ts ∷ prev) = pop s.buffer s (timestamped e ts ∷ prev) none

  abbrev pub join_next :
      JoinLocalHash Key Out1 Out2 × Upstream (BinaryElement Out1 Out2)
      → Call
          (Key × OuterJoinTuple Out1 Out2)
          (JoinLocalHash Key Out1 Out2 × Upstream (BinaryElement Out1 Out2))
  join_next (s, prev) = join_step s prev
