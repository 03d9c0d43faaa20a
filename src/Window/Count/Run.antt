-- ===== src/Window/Count/Run.antt =====
-- A count window over one iteration.
use renoir.Prelude.{
  ℕ, zero, suc, ◌+◌, ◌-◌, ◌/◌, ◌<◌, ◌≡◌, refl, ap, ◌∙◌, Bool, Option, none, some, List, [], ◌∷◌,
  ◌++◌, arith, length, map, ltb, if◌then◌else◌,
}
use renoir.Stream.{Timestamp, StreamElement, item, timestamped, flush_and_restart}
use renoir.Window.{WindowResult}
use renoir.Window.Feed.{cons_some, Fed, then_feed, feed}
use renoir.Window.Count.{
  CountWindowManager, process_item, process_element, first_incomplete, count_window, build,
}
use renoir.Window.Count.Refine.{
  Items, window, push, holding, open_windows, slot_count, slots, Fits, process_item-push, push-Fits,
}

abbrev pub of_item {ℓ} : {In : Type ℓ} → In × Option Timestamp → StreamElement In
of_item (x, none) = item x
of_item (x, some t) = timestamped x t

quotient_pos : (size b : ℕ) → 0 < size → 0 < (size + b) / suc b
quotient_pos size b h = grind arith

module _ {ℓ} {In Out S : Type ℓ} (process : S → In → S) (output : S → Out) (init : S) (size b : ℕ)
    (exact : Bool) where
  abbrev hold : ℕ → Items process output init → CountWindowManager S
  hold = holding process output init size b exact

  abbrev Held : Type ℓ
  Held = Items process output init

  -- The abstract window over several items: the results, and the items that the oldest open window
  -- holds in the end.
  abbrev pub windows : Held → Held → List (WindowResult Out) × Held
  windows us [] = ([], us)
  windows us (p ∷ vs) =
      let (r, us') = push process output init size b exact us p in
      let (rs, left) = windows us' vs in (cons_some r rs, left)

  -- What the end of an iteration returns: nothing, or the oldest window if it is not empty.
  abbrev pub leftover : Held → Option (WindowResult Out)
  leftover us =
      if exact
      then none
      else if ltb 0 (length us)
      then some (window process output init us)
      else none

  element-item :
      (m : CountWindowManager S) (x : In) (t : Option Timestamp)
      → process_element process output m (of_item (x, t)) ≡ process_item process output m x t
  unfolding process_element
  element-item m x none = refl
  element-item m x (some t) = refl

  first-leftover :
      (m : ℕ) (us : Held)
      → Fits process output init size b exact m us
      → first_incomplete process output exact (slots process output init size b exact m us)
        ≡ leftover us
  first-leftover zero [] fits = ground arith
  first-leftover zero (u ∷ us) fits = absurd (omega (arith, fits.covered))
  first-leftover (suc m) us fits = ground arith

  feed-cons_some :
      (r : Option (WindowResult Out)) (m : CountWindowManager S)
      (k : CountWindowManager S → Fed Out (CountWindowManager S)) (rs zs : List (WindowResult Out))
      (m' : CountWindowManager S)
      → k m ≡ some (rs ++ zs, m')
      → then_feed (some (r, m)) k ≡ some (cons_some r rs ++ zs, m')
  feed-cons_some none m k rs zs m' e = rw e
  feed-cons_some (some r) m k rs zs m' e = rw e

  -- A manager fed one iteration, from any reachable state.
  feed-iteration :
      (m n : ℕ) (us vs : Held)
      → slot_count process output init size b exact ≡ suc n
      → Fits process output init size b exact m us
      → feed (process_element process output) (hold m us) (map of_item vs ++ flush_and_restart ∷ [])
        ≡ some (
          (windows us vs).0 ++ cons_some (leftover (windows us vs).1) [],
          build process output init (count_window size (suc b) exact),
        )
  unfolding feed process_element
  feed-iteration m n us [] e fits = rw (first-leftover m us fits)
  feed-iteration m n us ((x, t) ∷ vs) e fits =
      let p = push process output init size b exact us (x, t) in
      let k = open_windows process output init size b exact n (us ++ (x, t) ∷ []) in
      let go : CountWindowManager S → Fed Out (CountWindowManager S) =
        λ m'. feed (process_element process output) m' (map of_item vs ++ flush_and_restart ∷ []) in
      let step =
        element-item (hold m us) x t
        ∙ process_item-push process output init size b exact m n us x t fits e in
      ap (λ o. then_feed o go) step
      ∙ feed-cons_some p.0 (hold k p.1) go (windows p.1 vs).0
          (cons_some (leftover (windows p.1 vs).1) []) _
          (feed-iteration k n p.1 vs e
            (push-Fits process output init size b exact m n us (x, t) fits e))

  -- From a new manager of windows of `size` items, at least one, with a slide of `b + 1`, an
  -- iteration of items and its end never panics, returns the results of the abstract window over
  -- the items, then the leftover one, and leaves a new manager.
  pub count_window-iteration :
      (vs : Held)
      → 0 < size
      → feed
          (process_element process output)
          (build process output init (count_window size (suc b) exact))
          (map of_item vs ++ flush_and_restart ∷ [])
        ≡ some (
          (windows [] vs).0 ++ cons_some (leftover (windows [] vs).1) [],
          build process output init (count_window size (suc b) exact),
        )
  count_window-iteration vs h =
      feed-iteration 0 ((size + b) / suc b - 1) [] vs
        (let pos = quotient_pos size b h in omega arith)
        (record { few = omega arith; open_window = h; covered = omega arith })
