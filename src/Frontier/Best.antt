-- ===== src/Frontier/Best.antt =====
-- When a watermark is safe: every previous replica has sent one that is at least as high.
use mathlib.Core.Logic.{ite}
use renoir.Prelude.{
  ◌≤◌, ◌≡◌, refl, ◌↔◌, Bool, true, false, Option, none, some, List, [], ◌∷◌, arith, All, Any, min,
  max, ◌&&◌, if◌then◌else◌,
}
use renoir.Stream.{Timestamp}
use renoir.Frontier.{opt_join, scan, compute_frontier, is_old}
use renoir.Frontier.Map.{
  Coord, Coord-discrete, CoordMap, get, set, insert, collect, collect_into, clear, Keys, Absent,
  Distinct,
}

abbrev pub History : Type 0
History = List (Coord × Timestamp)

-- The replica `c` has sent a watermark that is at least `ts`.
abbrev pub Sent : History → Timestamp → Coord → Type 0
Sent h ts c = Any (λ e. (e.0 ≡ c) × (ts ≤ e.1)) h

-- Every previous replica has.
abbrev pub Safe : List Coord → History → Timestamp → Type 0
Safe replicas h ts = All (Sent h ts) replicas

-- The highest watermark that `c` sent.
pub best : History → Coord → Option Timestamp
best [] c = none
best ((d, ts) ∷ h) c = ite (Coord-discrete d c) (opt_join (some ts) (best h c) max) (best h c)

abbrev pub AtLeast : Timestamp → Option Timestamp → Type 0
AtLeast ts none = ⊥
AtLeast ts (some t) = ts ≤ t

pub Sent-iff : (h : History) (ts : Timestamp) (c : Coord) → Sent h ts c ↔ AtLeast ts (best h c)
unfolding best
Sent-iff [] ts c = (λ s. s, λ s. s)
Sent-iff ((d, t) ∷ h) ts c = ground (arith, Sent-iff h ts c)

abbrev pub Holds : Timestamp → CoordMap → Type 0
Holds ts = All (λ e. AtLeast ts e.1)

abbrev selected : Bool × Option Timestamp → Option Timestamp
selected r = if r.0 then r.1 else none

pub scan-false : (low : Option Timestamp) (m : CoordMap) → (scan false low m).0 ≡ false
scan-false low [] = refl
scan-false low ((c, x) ∷ m) = scan-false (opt_join low x min) m

scan-some :
    (all : Bool) (l ts : Timestamp) (m : CoordMap)
    → AtLeast ts (selected (scan all (some l) m)) ↔ ((all ≡ true) × (ts ≤ l) × Holds ts m)
scan-some true l ts [] = ground arith
scan-some false l ts [] = ground arith
scan-some all l ts ((c, none) ∷ m) = ground (arith, scan-some (all && false) l ts m)
scan-some all l ts ((c, some x) ∷ m) = ground (arith, scan-some (all && true) (min l x) ts m)

-- The frontier of some replicas is the highest watermark that all of them have reached.
pub compute_frontier_iff :
    (ts : Timestamp) (e : Coord × Option Timestamp) (m : CoordMap)
    → AtLeast ts (compute_frontier (e ∷ m)) ↔ Holds ts (e ∷ m)
unfolding compute_frontier
compute_frontier_iff ts (c, none) m = ground (arith, scan-false none m)
compute_frontier_iff ts (c, some x) m = ground (arith, scan-some true x ts m)

-- Each entry is the highest watermark that its replica sent.
abbrev pub Tracks : History → CoordMap → Type 0
Tracks h = All (λ e. e.1 ≡ best h e.0)

Tracks-Absent :
    (c : Coord) (ts : Timestamp) (h : History) (m : CoordMap)
    → Absent c m
    → Tracks h m
    → Tracks ((c, ts) ∷ h) m
unfolding best
Tracks-Absent c ts h [] a t = tt
Tracks-Absent c ts h ((d, x) ∷ m) a t = ground (arith, Tracks-Absent c ts h m)

pub Tracks-old :
    (c : Coord) (ts : Timestamp) (h : History) (m : CoordMap) (t0 : Option Timestamp)
    → Distinct m
    → get c m ≡ some t0
    → is_old t0 ts ≡ true
    → Tracks h m
    → Tracks ((c, ts) ∷ h) m
unfolding best get
Tracks-old c ts h [] t0 d g old t = tt
Tracks-old c ts h ((e, x) ∷ m) t0 d g old t =
    ground (arith, Tracks-Absent c ts h m, Tracks-old c ts h m t0)

pub Tracks-set :
    (c : Coord) (ts : Timestamp) (h : History) (m : CoordMap) (t0 : Option Timestamp)
    → Distinct m
    → get c m ≡ some t0
    → is_old t0 ts ≡ false
    → Tracks h m
    → Tracks ((c, ts) ∷ h) (set c (some ts) m)
unfolding best get set
Tracks-set c ts h [] t0 d g young t = tt
Tracks-set c ts h ((e, x) ∷ m) t0 d g young t =
    ground (arith, Tracks-Absent c ts h m, Tracks-set c ts h m t0)

pub Tracks-clear : (m : CoordMap) → Tracks [] (clear m)
unfolding best clear
Tracks-clear [] = tt
Tracks-clear ((c, x) ∷ m) = (refl, Tracks-clear m)

Tracks-insert : (c : Coord) (m : CoordMap) → Tracks [] m → Tracks [] (insert c m)
unfolding best insert
Tracks-insert c [] t = (refl, tt)
Tracks-insert c ((d, x) ∷ m) t = ground (arith, Tracks-insert c m)

Tracks-collect_into : (m : CoordMap) (cs : List Coord) → Tracks [] m → Tracks [] (collect_into m cs)
unfolding collect_into
Tracks-collect_into m [] t = t
Tracks-collect_into m (c ∷ cs) t = Tracks-collect_into (insert c m) cs (Tracks-insert c m t)

pub Tracks-collect : (cs : List Coord) → Tracks [] (collect cs)
unfolding collect
Tracks-collect cs = Tracks-collect_into [] cs tt

pub Holds-iff :
    (ts : Timestamp) (h : History) (m : CoordMap) → Tracks h m → Holds ts m ↔ Keys (Sent h ts) m
Holds-iff ts h [] t = (λ u. u, λ u. u)
Holds-iff ts h ((c, x) ∷ m) t = ground (arith, Sent-iff h ts c, Holds-iff ts h m t.1)

pub clear-blank : (m : CoordMap) → Tracks [] m → clear m ≡ m
unfolding clear best
clear-blank [] t = refl
clear-blank ((c, x) ∷ m) t = ground (arith, clear-blank m)
