-- ===== src/Join.antt =====
-- src/operator/join/mod.rs, and the elements that src/operator/start/binary.rs merges the two sides
-- into.
pub mod LocalHash
use renoir.Prelude.{Bool, true, false, Option}

pub data BinaryElement {ℓ} (OutL OutR : Type ℓ) : Type ℓ where
  left : OutL → BinaryElement OutL OutR
  right : OutR → BinaryElement OutL OutR
  left_end right_end : BinaryElement OutL OutR

pub data JoinVariant : Type 0 where
  inner left outer : JoinVariant

abbrev pub left_outer : JoinVariant → Bool
left_outer JoinVariant.inner = false
left_outer JoinVariant.left = true
left_outer JoinVariant.outer = true

abbrev pub right_outer : JoinVariant → Bool
right_outer JoinVariant.outer = true
right_outer _ = false

abbrev pub OuterJoinTuple {ℓ} : Type ℓ → Type ℓ → Type ℓ
OuterJoinTuple Out1 Out2 = Option Out1 × Option Out2
