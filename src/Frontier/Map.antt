-- ===== src/Frontier/Map.antt =====
-- src/network/mod.rs: coordinates. The `IndexMap<Coord, Option<Timestamp>>` of the watermark
-- frontier is an association list in insertion order.
use mathlib.Core.Path.{subst}
use native.Mathlib.Decide.{ℕ_discrete}
use mathlib.Core.Logic.{ite, if_pos, if_neg}
use renoir.Prelude.{ℕ, ◌≡◌, refl, sym, ◌≢◌, ◌↔◌, Option, none, some, List, [], ◌∷◌, arith, All}
use renoir.Stream.{Timestamp}

pub record Coord : Type 0 where
  pub block_id : ℕ
  pub host_id : ℕ
  pub replica_id : ℕ

unfoldable pub Coord-discrete : Discrete Coord
unfolding ℕ_discrete
Coord-discrete = hlevel ℕ_discrete

abbrev pub CoordMap : Type 0
CoordMap = List (Coord × Option Timestamp)

unfoldable pub get : Coord → CoordMap → Option (Option Timestamp)
get c [] = none
get c ((d, x) ∷ m) = ite (Coord-discrete d c) (some x) (get c m)

-- A write to a coordinate that is in the map; elsewhere it changes nothing.
unfoldable pub set : Coord → Option Timestamp → CoordMap → CoordMap
set c v [] = []
set c v ((d, x) ∷ m) = ite (Coord-discrete d c) ((d, v) ∷ m) ((d, x) ∷ set c v m)

unfoldable pub insert : Coord → CoordMap → CoordMap
insert c [] = (c, none) ∷ []
insert c ((d, x) ∷ m) = ite (Coord-discrete d c) ((d, none) ∷ m) ((d, x) ∷ insert c m)

-- `prev_replicas.into_iter().map(|c| (c, None)).collect()`, each insertion at the end.
unfoldable pub collect_into : CoordMap → List Coord → CoordMap
unfolding insert
collect_into m [] = m
collect_into m (c ∷ cs) = collect_into (insert c m) cs

unfoldable pub collect : List Coord → CoordMap
unfolding collect_into
collect cs = collect_into [] cs

unfoldable pub clear : CoordMap → CoordMap
clear [] = []
clear ((c, x) ∷ m) = (c, none) ∷ clear m

-- A predicate of the keys.
abbrev pub Keys : (Coord → Type 0) → CoordMap → Type 0
Keys P = All (λ e. P e.0)

abbrev pub Absent : Coord → CoordMap → Type 0
Absent c = Keys (λ d. d ≢ c)

abbrev pub Distinct : CoordMap → Type 0
Distinct [] = Unit
Distinct ((c, x) ∷ m) = Absent c m × Distinct m

module _ (P : Coord → Type 0) where
  pub Keys-set : (c : Coord) (v : Option Timestamp) (m : CoordMap) → Keys P m ↔ Keys P (set c v m)
  unfolding set
  Keys-set c v [] = (λ h. h, λ h. h)
  Keys-set c v ((d, x) ∷ m) = ground (arith, Keys-set c v m)

  pub Keys-clear : (m : CoordMap) → Keys P m ↔ Keys P (clear m)
  unfolding clear
  Keys-clear [] = (λ h. h, λ h. h)
  Keys-clear ((d, x) ∷ m) = ground (arith, Keys-clear m)

  pub Keys-insert : (c : Coord) (m : CoordMap) → (P c × Keys P m) ↔ Keys P (insert c m)
  unfolding insert
  Keys-insert c [] = ground arith
  Keys-insert c ((d, x) ∷ m) = elim (Coord-discrete d c) [
    | yes e ↦ rw (if_pos _ e) (λ h. h.1, λ h. (subst P e h.0, h))
    | no n ↦ rw (if_neg _ n) (ground (arith, Keys-insert c m))
  ]

  pub Keys-collect_into :
      (m : CoordMap) (cs : List Coord) → (Keys P m × All P cs) ↔ Keys P (collect_into m cs)
  unfolding collect_into
  Keys-collect_into m [] = (λ h. h.0, λ h. (h, tt))
  Keys-collect_into m (c ∷ cs) =
      let step = Keys-insert c m in
      let rest = Keys-collect_into (insert c m) cs in
      (
        λ h. rest.0 (step.0 (h.1.0, h.0), h.1.1),
        λ h. let (hm, hcs) = rest.1 h in let (hc, hm') = step.1 hm in (hm', (hc, hcs)),
      )

  -- What holds of the replicas holds of the keys, and the other way round.
  pub Keys-collect : (cs : List Coord) → All P cs ↔ Keys P (collect cs)
  unfolding collect
  Keys-collect cs =
      (λ h. (Keys-collect_into [] cs).0 (tt, h), λ h. ((Keys-collect_into [] cs).1 h).1)

pub Distinct-set :
    (c : Coord) (v : Option Timestamp) (m : CoordMap) → Distinct m → Distinct (set c v m)
unfolding set
Distinct-set c v [] h = tt
Distinct-set c v ((d, x) ∷ m) h = ground (arith, Distinct-set c v m, Keys-set (λ e. e ≢ d) c v m)

pub Distinct-clear : (m : CoordMap) → Distinct m → Distinct (clear m)
unfolding clear
Distinct-clear [] h = tt
Distinct-clear ((d, x) ∷ m) h = ground (arith, Distinct-clear m, Keys-clear (λ e. e ≢ d) m)

Distinct-insert : (c : Coord) (m : CoordMap) → Distinct m → Distinct (insert c m)
unfolding insert
Distinct-insert c [] h = (tt, tt)
Distinct-insert c ((d, x) ∷ m) h = elim (Coord-discrete d c) [
  | yes e ↦ rw (if_pos _ e) h
  | no n ↦
      rw (if_neg _ n)
        ((Keys-insert (λ e. e ≢ d) c m).0 (λ e. n (sym e), h.0), Distinct-insert c m h.1)
]

Distinct-collect_into : (m : CoordMap) (cs : List Coord) → Distinct m → Distinct (collect_into m cs)
unfolding collect_into
Distinct-collect_into m [] h = h
Distinct-collect_into m (c ∷ cs) h = Distinct-collect_into (insert c m) cs (Distinct-insert c m h)

pub Distinct-collect : (cs : List Coord) → Distinct (collect cs)
unfolding collect
Distinct-collect cs = Distinct-collect_into [] cs tt

pub get-eq-none : (c : Coord) (m : CoordMap) → (get c m ≡ none) ↔ Absent c m
unfolding get
get-eq-none c [] = (λ _. tt, λ _. refl)
get-eq-none c ((d, x) ∷ m) = ground (arith, get-eq-none c m)
