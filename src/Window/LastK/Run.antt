-- ===== src/Window/LastK/Run.antt =====
-- A last-k window over one iteration.
use mathlib.Core.Option
use renoir.Prelude.{
  ℕ, zero, suc, ◌+◌, ◌-◌, ◌≤◌, ◌≡◌, refl, sym, ap, ◌∙◌, Option, none, some, List, [], ◌∷◌, ◌++◌,
  map, arith, length, length-append, drop, drop-nil, length-drop, drop-append, ◌==◌, if◌then◌else◌,
  Bool-cases, inl, inr, false,
}
use renoir.Stream.{Timestamp, flush_and_restart}
use renoir.Window.{WindowResult}
use renoir.Window.Feed.{Fed, then_feed, feed}
use renoir.Window.Count.{Slot, update_slots}
use renoir.Window.Count.Refine.{Items, window, slots, pad-slots, update_slots-slots}
use renoir.Window.Count.Run.{of_item}
use renoir.Window.LastK.{
  LastKWindowManager, emit_front, after_update, update_front, process_item, process_element, build,
}

drop-drop {ℓ} : {A : Type ℓ} (m n : ℕ) (xs : List A) → drop m (drop n xs) ≡ drop (n + m) xs
drop-drop m zero xs = ap (λ k. drop k xs) (omega arith)
drop-drop m (suc n) [] = drop-nil m ∙ sym (drop-nil (suc n + m))
drop-drop m (suc n) (x ∷ xs) =
    let e : suc n + m ≡ suc (n + m) = omega arith in rw e (drop-drop m n xs)

-- The last `k` of a list, or all of it if it is shorter.
abbrev pub last {ℓ} : {A : Type ℓ} → ℕ → List A → List A
last k xs = drop (length xs - k) xs

last-append {ℓ} :
    {A : Type ℓ} (n : ℕ) (xs : List A) (x : A) → last (suc n) (xs ++ x ∷ []) ≡ last n xs ++ x ∷ []
last-append n xs x =
    let count : length (xs ++ x ∷ []) - suc n ≡ length xs - n =
      omega (arith, length-append xs (x ∷ [])) in
    rw count (drop-append (length xs - n) xs (x ∷ []) (omega arith))

length-last {ℓ} : {A : Type ℓ} (k : ℕ) (xs : List A) → length (last k xs) ≤ k
length-last k xs = omega (arith, length-drop (length xs - k) xs)

-- What stays of the last `n + 1` when a full window has gone.
last-drop {ℓ} :
    {A : Type ℓ} (n : ℕ) (xs : List A)
    → length (last (suc n) xs) ≡ suc n
    → drop 1 (last (suc n) xs) ≡ last n xs
last-drop n xs h =
    let count : (length xs - suc n) + 1 ≡ length xs - n =
      omega (arith, length-drop (length xs - suc n) xs) in
    drop-drop 1 (length xs - suc n) xs ∙ ap (λ k. drop k xs) count

last-short {ℓ} :
    {A : Type ℓ} (n : ℕ) (xs : List A) → length (last (suc n) xs) ≤ n → last (suc n) xs ≡ last n xs
last-short n xs h =
    let count : length xs - suc n ≡ length xs - n =
      omega (arith, length-drop (length xs - suc n) xs) in
    ap (λ k. drop k xs) count

module _ {ℓ} {In Out S : Type ℓ} (process : S → In → S) (output : S → Out) (init : S) where
  abbrev Held : Type ℓ
  Held = Items process output init

  -- For each item, the window over the last `k` of the items seen so far.
  abbrev pub recent : ℕ → Held → Held → List (WindowResult Out)
  recent k seen [] = []
  recent k seen (p ∷ vs) =
      window process output init (last k (seen ++ p ∷ [])) ∷ recent k (seen ++ p ∷ []) vs

  module _ (n : ℕ) where
    abbrev open_slots : ℕ → Held → List (Slot S)
    open_slots = slots process output init (suc n) 0 false

    abbrev holding : ℕ → ℕ → Held → LastKWindowManager S
    holding idx m us = record { init = init; idx = idx; size = suc n; ws = open_slots m us }

    emit-slots :
        (idx m : ℕ) (us us' : Held)
        → emit_front process output (holding idx m us) (open_slots (suc n) us')
          ≡ some (
            some (window process output init us'),
            (if length us' == suc n
                then holding (idx + 1) n (drop 1 us')
                else holding (idx + 1) (suc n) us'),
          )
    emit-slots idx m us us' = elim (Bool-cases (length us' == suc n)) [
      | inl full ↦ rw full
      | inr short ↦ rw short
    ]

    update-slots :
        (idx m : ℕ) (us : Held) (x : In) (t : Option Timestamp)
        → length us ≤ n
        → update_front process output (holding idx m us) (open_slots (suc n) us) x t
          ≡ emit_front process output (holding idx m us) (open_slots (suc n) (us ++ (x, t) ∷ []))
    update-slots idx m us x t h =
        let k : length us + 1 ≡ suc (length us) = omega arith in
        ap (after_update process output (holding idx m us)) (
          ap (λ c. update_slots process output c (open_slots (suc n) us) x t) k
          ∙ update_slots-slots process output init (suc n) 0 false (length us) (suc n) us x t
              (omega arith) (omega arith) (omega arith))

    -- A step for an item: the window over the last items that it completes.
    process_item-slots :
        (idx m : ℕ) (us : Held) (x : In) (t : Option Timestamp)
        → length us ≤ n
        → length us ≤ m
        → m ≤ suc n
        → let us' = us ++ (x, t) ∷ [] in
          process_item process output (holding idx m us) x t
          ≡ some (
            some (window process output init us'),
            (if length us' == suc n
                then holding (idx + 1) n (drop 1 us')
                else holding (idx + 1) (suc n) us'),
          )
    unfolding process_item
    process_item-slots idx m us x t h c l =
        ap (λ ws. update_front process output (holding idx m us) ws x t)
          (pad-slots process output init (suc n) 0 false m (suc n) us (omega arith) l)
        ∙ update-slots idx m us x t h
        ∙ emit-slots idx m us (us ++ (x, t) ∷ [])

    process_item-last :
        (idx m : ℕ) (seen : Held) (p : In × Option Timestamp)
        → length (last n seen) ≤ m
        → m ≤ suc n
        → (k : ℕ) × (length (last n (seen ++ p ∷ [])) ≤ k)
          × (k ≤ suc n)
          × (process_item process output (holding idx m (last n seen)) p.0 p.1
              ≡ some (
                some (window process output init (last (suc n) (seen ++ p ∷ []))),
                holding (idx + 1) k (last n (seen ++ p ∷ [])),
              ))
    process_item-last idx m seen p c l =
        let us' = last n seen ++ p ∷ [] in
        let grown : last (suc n) (seen ++ p ∷ []) ≡ us' = last-append n seen p in
        let step = process_item-slots idx m (last n seen) p.0 p.1 (length-last n seen) c l in
        elim (Bool-cases (length us' == suc n)) [
          | inl full ↦
              let size : length (last (suc n) (seen ++ p ∷ [])) ≡ suc n =
                ap length grown ∙ ground arith in
              let rest : drop 1 us' ≡ last n (seen ++ p ∷ []) =
                ap (drop 1) (sym grown) ∙ last-drop n (seen ++ p ∷ []) size in
              (n, length-last n (seen ++ p ∷ []), omega arith, step ∙ rw (full, grown, rest))
          | inr short ↦
              let size : length (last (suc n) (seen ++ p ∷ [])) ≤ n =
                let grow = ap length grown in
                let most = length-last (suc n) (seen ++ p ∷ []) in ground (arith, grow, most) in
              let rest : us' ≡ last n (seen ++ p ∷ []) =
                sym grown ∙ last-short n (seen ++ p ∷ []) size in
              let most = length-last n (seen ++ p ∷ []) in
              (suc n, omega arith, omega arith, step ∙ rw (short, grown, rest))
        ]

    abbrev ended : ℕ → LastKWindowManager S
    ended idx = record { init = init; idx = idx; size = suc n; ws = [] }

    element-item :
        (m : LastKWindowManager S) (p : In × Option Timestamp)
        → process_element process output m (of_item p) ≡ process_item process output m p.0 p.1
    unfolding process_element
    element-item m (x, none) = refl
    element-item m (x, some t) = refl

    feed-recent :
        (idx m : ℕ) (seen vs : Held)
        → length (last n seen) ≤ m
        → m ≤ suc n
        → feed
            (process_element process output)
            (holding idx m (last n seen))
            (map of_item vs ++ flush_and_restart ∷ [])
          ≡ some (recent (suc n) seen vs, ended (idx + length vs))
    unfolding feed process_element
    feed-recent idx m seen [] c l =
        let e : idx ≡ idx + 0 = omega arith in ap (λ i. some ([], ended i)) e
    feed-recent idx m seen (p ∷ vs) c l =
        let (k, c', l', step) = process_item-last idx m seen p c l in
        let go : LastKWindowManager S → Fed Out (LastKWindowManager S) = λ m'.
          feed (process_element process output) m' (map of_item vs ++ flush_and_restart ∷ []) in
        let e : (idx + 1) + length vs ≡ idx + suc (length vs) = omega arith in
        ap (λ o. then_feed o go) (element-item (holding idx m (last n seen)) p ∙ step)
        ∙ ap
            (Option.map (λ rest.
              (window process output init (last (suc n) (seen ++ p ∷ [])) ∷ rest.0, rest.1)))
            (feed-recent (idx + 1) k (seen ++ p ∷ []) vs c' l')
        ∙ ap (λ i. some (recent (suc n) seen (p ∷ vs), ended i)) e

  -- A new manager of windows of the last `n + 1` items, fed an iteration of items and its end,
  -- never panics, returns for each item the window over the last `n + 1` items up to it, and is
  -- then as it was made but for the count of items.
  pub last_k_window-iteration :
      (n : ℕ) (vs : Held)
      → feed
          (process_element process output)
          (build process output init (suc n))
          (map of_item vs ++ flush_and_restart ∷ [])
        ≡ some
            (recent (suc n) [] vs, record (build process output init (suc n)) { idx = length vs })
  last_k_window-iteration n vs =
      let seen : Held = [] in
      feed-recent n 0 0 seen vs (omega (arith, length-drop (length seen - n) seen)) (omega arith)
      ∙ ap (λ i. some (recent (suc n) [] vs, ended n i)) (omega arith)
