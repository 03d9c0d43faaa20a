-- ===== src/Source/ParallelIterator.antt =====
-- src/operator/source/parallel_iterator.rs: each replica runs over its own iterator. An iterator is
-- the list of what it still yields.
pub mod Ranges
pub mod Replicas
use mathlib.Core.Option
use renoir.Prelude.{
  ℕ, zero, suc, ◌+◌, ◌-◌, ◌*◌, ◌/◌, ◌%◌, ◌^◌, min, max, Bool, true, false, Option, none, some, List,
  [], ◌∷◌, if◌then◌else◌,
}
use renoir.Stream.{StreamElement, item, terminate, flush_and_restart}
use renoir.Stream.Fallible.{Call}

-- The arithmetic of u64.
abbrev pub u64_max : ℕ
u64_max = 2 ^ 64 - 1

abbrev pub saturating_add : ℕ → ℕ → ℕ
saturating_add a b = min (a + b) u64_max

-- `index * chunk_size`, which wraps in a release build and panics in a debug build.
abbrev pub wrapping_mul : ℕ → ℕ → ℕ
wrapping_mul a b = (a * b) % 2 ^ 64

abbrev pub wrapping_sub : ℕ → ℕ → ℕ
wrapping_sub a b = (a + 2 ^ 64 - b) % 2 ^ 64

-- `n.div_ceil(peers)`, for `peers` over zero.
abbrev pub chunk_size : ℕ → ℕ → ℕ
chunk_size n peers = (n + peers - 1) / peers

-- The values of the range from `lo` to `hi`.
abbrev pub count_up : ℕ → ℕ → List ℕ
count_up lo zero = []
count_up lo (suc n) = lo ∷ count_up (suc lo) n

abbrev pub values : ℕ → ℕ → List ℕ
values lo hi = count_up lo (hi - lo)

-- `generate_iterator` of a `Range<u64>`: the bounds of the range of a replica.
abbrev pub range_from : ℕ → ℕ → ℕ → ℕ
range_from lo index chunk = saturating_add lo (wrapping_mul index chunk)

abbrev pub range_to : ℕ → ℕ → ℕ → ℕ → ℕ
range_to lo hi start chunk = max (min (saturating_add start chunk) hi) lo

abbrev pub range_of_chunk : ℕ → ℕ → ℕ → ℕ → List ℕ
range_of_chunk lo hi index chunk =
    let start = range_from lo index chunk in values start (range_to lo hi start chunk)

-- A division by zero peers panics.
abbrev pub range_iterator : ℕ → ℕ → ℕ → ℕ → Option (List ℕ)
range_iterator lo hi index zero = none
range_iterator lo hi index (suc p) =
    some (range_of_chunk lo hi index (chunk_size (wrapping_sub hi lo) (suc p)))

pub data IteratorGenerator {ℓ} (A : Type ℓ) : Type ℓ where
  generator : (ℕ → ℕ → Option (List A)) → IteratorGenerator A
  iterator : List A → IteratorGenerator A
  generating : IteratorGenerator A

pub record ParallelIteratorSource {ℓ} (A : Type ℓ) : Type ℓ where
  pub inner : IteratorGenerator A
  pub terminated : Bool

module _ {ℓ} {A : Type ℓ} where
  -- `generate`: the generator is called, which may panic; `none` also if it is not there.
  abbrev pub generate : ℕ → ℕ → IteratorGenerator A → Option (IteratorGenerator A)
  generate index peers (generator g) = Option.map (λ xs. iterator xs) (g index peers)
  generate index peers _ = none

  abbrev pub new : (ℕ → ℕ → Option (List A)) → ParallelIteratorSource A
  new g = record { inner = generator g; terminated = false }

  abbrev pub setup : ℕ → ℕ → ParallelIteratorSource A → Option (ParallelIteratorSource A)
  setup index peers s = Option.map (λ g. record s { inner = g }) (generate index peers s.inner)

  -- `IteratorGenerator::next`; any other variant is unreachable.
  abbrev pub next_inner : IteratorGenerator A → Option (Option A × IteratorGenerator A)
  next_inner (iterator (x ∷ xs)) = some (some x, iterator xs)
  next_inner (iterator []) = some (none, iterator [])
  next_inner _ = none

  abbrev pub after_inner :
      Option (Option A × IteratorGenerator A)
      → ParallelIteratorSource A
      → Call A (ParallelIteratorSource A)
  after_inner none s = none
  after_inner (some (some x, g)) s = some (item x, record s { inner = g })
  after_inner (some (none, g)) s =
      some (flush_and_restart, record s { inner = g; terminated = true })

  unfoldable pub source_next : ParallelIteratorSource A → Call A (ParallelIteratorSource A)
  source_next s = if s.terminated then some (terminate, s) else after_inner (next_inner s.inner) s
