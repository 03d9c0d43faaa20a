-- ===== src/Window/Session.antt =====
-- src/operator/window/descr/session.rs: a window that ends when nothing has come for a while. The
-- clock (`Instant::now`) is read once for each element, so an element comes with the time that it
-- shows; the difference of two times stops at zero.
use renoir.Prelude.{
  ℕ, ◌-◌, ◌≡◌, refl, sym, Option, none, some, List, [], ◌∷◌, ◌++◌, map, foldl, ltb, if◌then◌else◌,
  Bool-cases, inl, inr,
}
use renoir.Stream.{StreamElement, item, timestamped, terminate, flush_and_restart}
use renoir.Window.{WindowResult, plain}
use renoir.Window.Feed.{Outcome, feed}

pub record Slot {ℓ} (S : Type ℓ) : Type ℓ where
  pub acc : S
  pub last : ℕ

pub record SessionWindowManager {ℓ} (S : Type ℓ) : Type ℓ where
  pub init : S
  pub gap : ℕ
  pub w : Option (Slot S)

module _ {ℓ} {In Out S : Type ℓ} (process : S → In → S) (output : S → Out) where
  -- The check for a window that has been silent for too long, which takes it.
  abbrev pub expire : ℕ → Option (Slot S) → ℕ → Option (WindowResult Out) × Option (Slot S)
  expire gap none now = (none, none)
  expire gap (some slot) now =
      if ltb gap (now - slot.last)
      then (some (plain (output slot.acc)), none)
      else (none, some slot)

  -- `get_or_insert_with`, `process`, and the new time.
  abbrev pub add_item : S → Option (Slot S) → In → ℕ → Slot S
  add_item init none x now = record { acc = process init x; last = now }
  add_item init (some slot) x now = record { acc = process slot.acc x; last = now }

  -- `ret.or_else(|| self.w.take().map(…))`
  abbrev pub or_else_take :
      Option (WindowResult Out) → Option (Slot S) → Option (WindowResult Out) × Option (Slot S)
  or_else_take (some r) w = (some r, w)
  or_else_take none none = (none, none)
  or_else_take none (some slot) = (some (plain (output slot.acc)), none)

  abbrev pub process_with :
      SessionWindowManager S
      → ℕ
      → StreamElement In
      → Option (WindowResult Out) × Option (Slot S)
      → Outcome Out (SessionWindowManager S)
  process_with m now (item x) (ret, w) = some (ret, record m { w = some (add_item m.init w x now) })
  process_with m now (timestamped x ts) (ret, w) =
      some (ret, record m { w = some (add_item m.init w x now) })
  process_with m now terminate (ret, w) =
      let (r, w') = or_else_take ret w in some (r, record m { w = w' })
  process_with m now flush_and_restart (ret, w) =
      let (r, w') = or_else_take ret w in some (r, record m { w = w' })
  process_with m now _ (ret, w) = some (ret, record m { w = w })

  unfoldable pub process_element :
      SessionWindowManager S → ℕ × StreamElement In → Outcome Out (SessionWindowManager S)
  process_element m (now, e) = process_with m now e (expire m.gap m.w now)

  abbrev pub build : S → ℕ → SessionWindowManager S
  build accumulator gap = record { init = accumulator; gap = gap; w = none }

  -- The runs of items with no gap inside, for a run `xs` that has begun and was last met at `last`.
  abbrev pub runs : ℕ → List In → ℕ → List (ℕ × In) → List (List In)
  runs gap xs last [] = xs ∷ []
  runs gap xs last ((now, x) ∷ es) =
      if ltb gap (now - last) then xs ∷ runs gap (x ∷ []) now es else runs gap (xs ++ x ∷ []) now es

  abbrev pub sessions : ℕ → List (ℕ × In) → List (List In)
  sessions gap [] = []
  sessions gap ((now, x) ∷ es) = runs gap (x ∷ []) now es

  abbrev pub at_time : ℕ × In → ℕ × StreamElement In
  at_time (now, x) = (now, item x)

  abbrev pub result : S → List In → WindowResult Out
  result init xs = plain (output (foldl process init xs))

  foldl-append :
      (a : S) (xs : List In) (x : In)
      → foldl process a (xs ++ x ∷ []) ≡ process (foldl process a xs) x
  foldl-append a [] x = refl
  foldl-append a (y ∷ xs) x = foldl-append (process a y) xs x

  abbrev open_window : S → ℕ → List In → ℕ → SessionWindowManager S
  open_window init gap xs last = record {
    init = init;
    gap = gap;
    w = some (record { acc = foldl process init xs; last = last });
  }

  feed-end :
      (init : S) (gap : ℕ) (xs : List In) (last end : ℕ)
      → feed process_element (open_window init gap xs last) ((end, flush_and_restart) ∷ [])
        ≡ some (result init xs ∷ [], build init gap)
  unfolding feed process_element
  feed-end init gap xs last end = elim (Bool-cases (ltb gap (end - last))) [
    | inl late ↦ rw late
    | inr soon ↦ rw soon
  ]

  feed-runs :
      (init : S) (gap : ℕ) (xs : List In) (last : ℕ) (es : List (ℕ × In)) (end : ℕ)
      → feed process_element
          (open_window init gap xs last)
          (map at_time es ++ (end, flush_and_restart) ∷ [])
        ≡ some (map (result init) (runs gap xs last es), build init gap)
  unfolding feed process_element
  feed-runs init gap xs last [] end = feed-end init gap xs last end
  feed-runs init gap xs last ((now, x) ∷ es) end = elim (Bool-cases (ltb gap (now - last))) [
    | inl late ↦ rw late (rw (feed-runs init gap (x ∷ []) now es end))
    | inr soon ↦
        rw (soon, sym (foldl-append init xs x)) (rw (feed-runs init gap (xs ++ x ∷ []) now es end))
  ]

  -- A new session window, fed items at any times and then the end of the iteration, returns the
  -- accumulated items of each maximal run without a gap over `gap`, in order, and is as it was
  -- made.
  pub session_window-iteration :
      (init : S) (gap : ℕ) (es : List (ℕ × In)) (end : ℕ)
      → feed process_element (build init gap) (map at_time es ++ (end, flush_and_restart) ∷ [])
        ≡ some (map (result init) (sessions gap es), build init gap)
  unfolding feed process_element
  session_window-iteration init gap [] end = refl
  session_window-iteration init gap ((now, x) ∷ es) end =
      rw (feed-runs init gap (x ∷ []) now es end)
