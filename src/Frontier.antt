-- ===== src/Frontier.antt =====
-- src/operator/start/watermark_frontier.rs: the watermarks of the previous replicas.
pub mod Map
pub mod Best
pub mod Safety
mod Tests
use renoir.Prelude.{
  Bool, true, false, ◌&&◌, Option, none, some, List, [], ◌∷◌, min, ◌==◌, leb, is_some,
  if◌then◌else◌,
}
use renoir.Stream.{Timestamp}
use Map.{Coord, CoordMap, get, set, collect, clear}

pub record WatermarkFrontier : Type 0 where
  pub entries : CoordMap
  pub front : Option Timestamp

abbrev pub opt_join {ℓ} : {A : Type ℓ} → Option A → Option A → (A → A → A) → Option A
opt_join (some a) (some b) f = some (f a b)
opt_join (some a) none f = some a
opt_join none b f = b

unfoldable pub new : List Coord → WatermarkFrontier
unfolding collect
new prev_replicas = record { entries = collect prev_replicas; front = none }

-- The accumulator of the fold in `compute_frontier`.
abbrev pub scan : Bool → Option Timestamp → CoordMap → Bool × Option Timestamp
scan all low [] = (all, low)
scan all low ((c, x) ∷ entries) = scan (all && is_some x) (opt_join low x min) entries

unfoldable pub compute_frontier : CoordMap → Option Timestamp
compute_frontier entries = let r = scan true none entries in if r.0 then r.1 else none

-- The early break for an old watermark.
abbrev pub is_old : Option Timestamp → Timestamp → Bool
is_old none ts = false
is_old (some t) ts = leb ts t

abbrev pub announce : Option Timestamp → Option Timestamp → Option Timestamp
announce none (some new_front) = some new_front
announce (some old) (some new_front) = if old == new_front then none else some new_front
announce _ none = none

unfoldable pub advance :
    WatermarkFrontier → Coord → Timestamp → Option Timestamp × WatermarkFrontier
advance f coord ts =
    let entries = set coord (some ts) f.entries in
    let front = compute_frontier entries in
    (announce f.front front, record { entries = entries; front = front })

-- `none` is the panic of `self.map[&coord]` on a coordinate that is not in the map.
unfoldable pub update :
    WatermarkFrontier → Coord → Timestamp → Option (Option Timestamp × WatermarkFrontier)
update f coord ts = elim (get coord f.entries) [
  | none ↦ none
  | some t0 ↦ some (if is_old t0 ts then (none, f) else advance f coord ts)
]

unfoldable pub reset : WatermarkFrontier → WatermarkFrontier
unfolding clear
reset f = record { entries = clear f.entries; front = none }
