-- ===== src/Frontier/Safety.antt =====
-- The frontier after any history of watermarks, updates and resets.
use mathlib.Core.Path.{subst}
use renoir.Prelude.{
  ◌≤◌, ◌≡◌, refl, ◌≢◌, ◌↔◌, inl, inr, true, false, Option, none, some, List, [], ◌∷◌, arith, ap,
  sym, ◌∙◌, All, All-map, ◌==◌, Bool-cases, Option-cases,
}
use renoir.Stream.{Timestamp}
use renoir.Frontier.{
  WatermarkFrontier, new, compute_frontier, update, advance, announce, is_old, reset,
}
use renoir.Frontier.Map.{
  Coord, CoordMap, get, get-eq-none, collect, clear, Keys, Distinct, Keys-set, Keys-clear,
  Keys-collect, Distinct-set, Distinct-clear, Distinct-collect,
}
use renoir.Frontier.Best.{
  History, Sent, Safe, AtLeast, Tracks, Holds-iff, compute_frontier_iff, Tracks-old, Tracks-set,
  Tracks-clear, Tracks-collect, scan-false, clear-blank,
}

-- The states that a frontier over `replicas` reaches, with the watermarks received since the last
-- reset, the latest first.
pub data Reach (replicas : List Coord) : History → WatermarkFrontier → Type 0 where
  start : Reach replicas [] (new replicas)
  received :
      {h : History} {f g : WatermarkFrontier}
      → Reach replicas h f
      → (c : Coord) (ts : Timestamp) (o : Option Timestamp) → update f c ts ≡ some (o, g)
      → Reach replicas ((c, ts) ∷ h) g
  restarted :
      {h : History} {f : WatermarkFrontier} → Reach replicas h f → Reach replicas [] (reset f)

record Inv (replicas : List Coord) (h : History) (f : WatermarkFrontier) : Type 1 where
  distinct : Distinct f.entries
  tracks : Tracks h f.entries
  front : f.front ≡ compute_frontier f.entries
  keys : (P : Coord → Type 0) → All P replicas ↔ Keys P f.entries

compute_frontier-clear : (m : CoordMap) → none ≡ compute_frontier (clear m)
unfolding compute_frontier clear
compute_frontier-clear [] = refl
compute_frontier-clear ((c, x) ∷ m) = rw (scan-false none (clear m))

compute_frontier-collect : (cs : List Coord) → none ≡ compute_frontier (collect cs)
compute_frontier-collect cs =
    compute_frontier-clear (collect cs) ∙ ap compute_frontier (clear-blank _ (Tracks-collect cs))

Inv-new : (replicas : List Coord) → Inv replicas [] (new replicas)
unfolding new
Inv-new replicas = record {
  distinct = Distinct-collect replicas;
  tracks = Tracks-collect replicas;
  front = compute_frontier-collect replicas;
  keys = λ P. Keys-collect P replicas;
}

module _ {replicas : List Coord} {h : History} {f : WatermarkFrontier} (v : Inv replicas h f) where
  Inv-reset : Inv replicas [] (reset f)
  unfolding reset
  Inv-reset = record {
    distinct = Distinct-clear f.entries v.distinct;
    tracks = Tracks-clear f.entries;
    front = compute_frontier-clear f.entries;
    keys = λ P. (
      λ a. (Keys-clear P f.entries).0 ((v.keys P).0 a),
      λ a. (v.keys P).1 ((Keys-clear P f.entries).1 a),
    );
  }

  Inv-old :
      (c : Coord) (ts : Timestamp) (t0 : Option Timestamp)
      → get c f.entries ≡ some t0
      → is_old t0 ts ≡ true
      → Inv replicas ((c, ts) ∷ h) f
  Inv-old c ts t0 g old = record {
    distinct = v.distinct;
    tracks = Tracks-old c ts h f.entries t0 v.distinct g old v.tracks;
    front = v.front;
    keys = v.keys;
  }

  Inv-advance :
      (c : Coord) (ts : Timestamp) (t0 : Option Timestamp)
      → get c f.entries ≡ some t0
      → is_old t0 ts ≡ false
      → Inv replicas ((c, ts) ∷ h) (advance f c ts).1
  unfolding advance
  Inv-advance c ts t0 g young = record {
    distinct = Distinct-set c (some ts) f.entries v.distinct;
    tracks = Tracks-set c ts h f.entries t0 v.distinct g young v.tracks;
    front = refl;
    keys = λ P. (
      λ a. (Keys-set P c (some ts) f.entries).0 ((v.keys P).0 a),
      λ a. (v.keys P).1 ((Keys-set P c (some ts) f.entries).1 a),
    );
  }

  Inv-update :
      (c : Coord) (ts : Timestamp) (o : Option Timestamp) (g : WatermarkFrontier)
      → update f c ts ≡ some (o, g)
      → Inv replicas ((c, ts) ∷ h) g
  unfolding update
  Inv-update c ts o g e = elim (Option-cases (get c f.entries)) [
    | inl missing ↦ absurd (ground arith)
    | inr (t0, found) ↦ elim (Bool-cases (is_old t0 ts)) [
      | inl old ↦ subst (Inv replicas ((c, ts) ∷ h)) (ground arith) (Inv-old c ts t0 found old)
      | inr young ↦
          subst (Inv replicas ((c, ts) ∷ h)) (ground arith) (Inv-advance c ts t0 found young)
    ]
  ]

Reach-Inv :
    {replicas : List Coord} {h : History} {f : WatermarkFrontier}
    → Reach replicas h f
    → Inv replicas h f
Reach-Inv {replicas} start = Inv-new replicas
Reach-Inv (received r c ts o e) = Inv-update (Reach-Inv r) c ts o _ e
Reach-Inv (restarted r) = Inv-reset (Reach-Inv r)

module _ {r : Coord} {rs : List Coord} {h : History} {f : WatermarkFrontier} where
  frontier_iff : Inv (r ∷ rs) h f → (ts : Timestamp) → AtLeast ts f.front ↔ Safe (r ∷ rs) h ts
  frontier_iff v ts = rw v.front (go f.entries refl)
    where
      go : (m : CoordMap) → f.entries ≡ m → AtLeast ts (compute_frontier m) ↔ Safe (r ∷ rs) h ts
      go [] e = absurd ((v.keys (λ _. ⊥)).1 (subst (Keys (λ _. ⊥)) (sym e) tt)).0
      go (x ∷ m) e =
          let tr : Tracks h (x ∷ m) = subst (Tracks h) e v.tracks in
          let held = Holds-iff ts h (x ∷ m) tr in
          let front = compute_frontier_iff ts x m in
          let keys : Safe (r ∷ rs) h ts ↔ Keys (Sent h ts) (x ∷ m) =
            subst (λ z. Safe (r ∷ rs) h ts ↔ Keys (Sent h ts) z) e (v.keys (Sent h ts)) in
          (λ a. keys.1 (held.0 (front.0 a)), λ a. front.1 (held.1 (keys.0 a)))

-- What an update may say, given what it received: a new frontier is safe, was not safe before and
-- is the highest; silence leaves the safe timestamps as they were.
abbrev pub Announces : List Coord → History → History → Option Timestamp → Type 0
Announces replicas before after (some w) =
    Safe replicas after w
    × (Safe replicas before w → ⊥)
    × ((ts : Timestamp) → Safe replicas after ts → ts ≤ w)
Announces replicas before after none =
    (ts : Timestamp) → Safe replicas after ts ↔ Safe replicas before ts

announce-Announces :
    (a b : Option Timestamp) (before after : History) (replicas : List Coord)
    → ((ts : Timestamp) → AtLeast ts a ↔ Safe replicas before ts)
    → ((ts : Timestamp) → AtLeast ts b ↔ Safe replicas after ts)
    → ((ts : Timestamp) → Safe replicas before ts → Safe replicas after ts)
    → Announces replicas before after (announce a b)
announce-Announces none none before after replicas fa fb grow =
    λ ts. (λ s. absurd ((fb ts).1 s), λ s. absurd ((fa ts).1 s))
announce-Announces none (some w) before after replicas fa fb grow =
    ((fb w).0 (omega arith), (fa w).1, λ ts. (fb ts).1)
announce-Announces (some a) none before after replicas fa fb grow =
    λ ts. (λ s. absurd ((fb ts).1 s), λ s. absurd ((fb ts).1 (grow ts s)))
announce-Announces (some a) (some w) before after replicas fa fb grow =
    let rises : a ≤ w = (fb a).1 (grow a ((fa a).0 (omega arith))) in
    elim (Bool-cases (a == w)) [
      | inl same ↦ rw same λ ts.
          let e : a ≡ w = ground arith in (λ s. (fa ts).0 (rw e ((fb ts).1 s)), λ s. grow ts s)
      | inr moved ↦ rw moved (
        (fb w).0 (omega arith),
        λ s. let back : w ≤ a = (fa w).1 s in ground arith,
        λ ts. (fb ts).1,
      )
    ]

-- In any state that a frontier over one or more previous replicas reaches by updates and resets,
-- the front is at least `ts` exactly when every previous replica has sent, since the last reset, a
-- watermark that is at least `ts`.
pub front-iff-Safe :
    (r : Coord) (rs : List Coord) (h : History) (f : WatermarkFrontier) (ts : Timestamp)
    → Reach (r ∷ rs) h f
    → AtLeast ts f.front ↔ Safe (r ∷ rs) h ts
front-iff-Safe r rs h f ts reach = frontier_iff (Reach-Inv reach) ts

-- In any state that a frontier over one or more previous replicas reaches, an update that does not
-- panic returns a timestamp exactly when the safe timestamps grow: a returned one is safe, was not
-- safe before and is the highest safe one; if it returns none, the same timestamps are safe as
-- before.
pub update-Announces :
    (r : Coord) (rs : List Coord) (h : History) (f g : WatermarkFrontier) (c : Coord)
    (ts : Timestamp) (o : Option Timestamp)
    → Reach (r ∷ rs) h f
    → update f c ts ≡ some (o, g)
    → Announces (r ∷ rs) h ((c, ts) ∷ h) o
unfolding update advance
update-Announces r rs h f g c ts o reach e =
    let v = Reach-Inv reach in
    let grow : (t : Timestamp) → Safe (r ∷ rs) h t → Safe (r ∷ rs) ((c, ts) ∷ h) t =
      λ t. All-map (λ d. inr) (r ∷ rs) in
    elim (Option-cases (get c f.entries)) [
      | inl missing ↦ absurd (ground arith)
      | inr (t0, found) ↦ elim (Bool-cases (is_old t0 ts)) [
        | inl old ↦
            let silent : none ≡ o = ground arith in
            let after = Inv-old v c ts t0 found old in
            subst (Announces (r ∷ rs) h ((c, ts) ∷ h)) silent
              λ t. (λ s. (frontier_iff v t).0 ((frontier_iff after t).1 s), grow t)
        | inr young ↦
            let said : announce f.front (advance f c ts).1.front ≡ o = ground arith in
            subst (Announces (r ∷ rs) h ((c, ts) ∷ h)) said (
              announce-Announces f.front (advance f c ts).1.front h ((c, ts) ∷ h) (r ∷ rs)
                (frontier_iff v) (frontier_iff (Inv-advance v c ts t0 found young)) grow)
      ]
    ]

-- In any state that a frontier reaches, an update panics exactly on a coordinate that is not one of
-- the previous replicas.
pub update-eq-none :
    (replicas : List Coord) (h : History) (f : WatermarkFrontier) (c : Coord) (ts : Timestamp)
    → Reach replicas h f
    → (update f c ts ≡ none) ↔ All (λ r. r ≢ c) replicas
unfolding update
update-eq-none replicas h f c ts reach =
    let keys = (Reach-Inv reach).keys (λ d. d ≢ c) in
    let found = get-eq-none c f.entries in
    (λ e. keys.1 (found.0 (ground arith)), λ a. ground (arith, found.1 (keys.0 a)))
