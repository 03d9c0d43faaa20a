-- ===== src/Window/Count/Refine.antt =====
-- A count window against the list of the items that its oldest open window holds.
use mathlib.Core.Path.{ap₂}
use renoir.Prelude.{
  ℕ, zero, suc, ◌+◌, ◌-◌, ◌*◌, ◌/◌, ◌≤◌, ◌<◌, ◌≡◌, refl, sym, ap, ◌∙◌, Bool, Option, none, some,
  List, [], ◌∷◌, ◌++◌, arith, length, length-append, drop, drop-eq-nil, drop-append, length-drop,
  replicate, ◌==◌, if◌then◌else◌, Bool-cases, inl, inr,
}
use renoir.Stream.{Timestamp}
use renoir.Window.{WindowResult, make_result}
use renoir.Window.Feed.{Outcome}
use renoir.Window.Count.{
  Slot, CountWindowManager, join_ts, new_slot, update_slot, update_slots, pad, close, close_front,
  update_front, process_item,
}

quotient_lt : (a d q : ℕ) → a < q * d → a / d < q
quotient_lt a d q h = grind arith

module _ {ℓ} {In Out S : Type ℓ} (process : S → In → S) (output : S → Out) (init : S) where
  -- Items with their timestamps, the oldest first.
  abbrev pub Items : Type ℓ
  Items = List (In × Option Timestamp)

  abbrev pub acc_of : S → Items → S
  acc_of a [] = a
  acc_of a ((x, t) ∷ us) = acc_of (process a x) us

  abbrev pub ts_of : Option Timestamp → Items → Option Timestamp
  ts_of t [] = t
  ts_of t ((x, t') ∷ us) = ts_of (join_ts t t') us

  -- The slot of a window that holds `us`, and the result of such a window.
  abbrev pub slot : Items → Slot S
  slot us = record { count = length us; acc = acc_of init us; ts = ts_of none us }

  abbrev pub window : Items → WindowResult Out
  window us = make_result (output (acc_of init us)) (ts_of none us)

  acc_of-append :
      (a : S) (us : Items) (x : In) (t : Option Timestamp)
      → acc_of a (us ++ (x, t) ∷ []) ≡ process (acc_of a us) x
  acc_of-append a [] x t = refl
  acc_of-append a ((y, s) ∷ us) x t = acc_of-append (process a y) us x t

  ts_of-append :
      (s : Option Timestamp) (us : Items) (x : In) (t : Option Timestamp)
      → ts_of s (us ++ (x, t) ∷ []) ≡ join_ts (ts_of s us) t
  ts_of-append s [] x t = refl
  ts_of-append s ((y, r) ∷ us) x t = ts_of-append (join_ts s r) us x t

  update_slot-slot :
      (us : Items) (x : In) (t : Option Timestamp)
      → update_slot process output (slot us) x t ≡ slot (us ++ (x, t) ∷ [])
  update_slot-slot us x t =
      let count : length us + 1 ≡ length (us ++ (x, t) ∷ []) =
        omega (arith, length-append us ((x, t) ∷ [])) in
      λ i. record {
        count = count i;
        acc = sym (acc_of-append init us x t) i;
        ts = sym (ts_of-append none us x t) i;
      }

  module _ (size b : ℕ) (exact : Bool) where
    abbrev pub slide : ℕ
    slide = suc b

    -- The slots of the `m` oldest windows: each misses `slide` more of the oldest items.
    abbrev pub slots : ℕ → Items → List (Slot S)
    slots zero us = []
    slots (suc m) us = slot us ∷ slots m (drop slide us)

    pub length-slots : (m : ℕ) (us : Items) → length (slots m us) ≡ m
    length-slots zero us = refl
    length-slots (suc m) us = ap suc (length-slots m (drop slide us))

    slots-nil : (m : ℕ) → replicate m (new_slot process output init) ≡ slots m []
    slots-nil zero = refl
    slots-nil (suc m) = ap (λ l. slot [] ∷ l) (slots-nil m)

    -- A window that has not begun holds nothing.
    pub slots-pad :
        (m n : ℕ) (us : Items)
        → length us ≤ m * slide
        → m ≤ n
        → slots m us ++ replicate (n - m) (new_slot process output init) ≡ slots n us
    slots-pad zero n [] h l = let e : n - 0 ≡ n = omega arith in rw e (slots-nil n)
    slots-pad zero n (u ∷ us) h l = absurd (omega arith)
    slots-pad (suc m) zero us h l = absurd (omega arith)
    slots-pad (suc m) (suc n) us h l =
        let e : suc n - suc m ≡ n - m = omega arith in
        let short : length (drop slide us) ≤ m * slide = omega (arith, length-drop slide us) in
        rw e (ap (λ ws. slot us ∷ ws) (slots-pad m n (drop slide us) short (omega arith)))

    pub update_slots-slots :
        (j n : ℕ) (us : Items) (x : In) (t : Option Timestamp)
        → j * slide ≤ length us
        → length us < suc j * slide
        → j < n
        → update_slots process output (suc j) (slots n us) x t ≡ some (slots n (us ++ (x, t) ∷ []))
    unfolding update_slots
    update_slots-slots j zero us x t lo hi l = absurd (omega arith)
    update_slots-slots zero (suc n) us x t lo hi l =
        let tail : drop slide us ≡ drop slide (us ++ (x, t) ∷ []) =
          drop-eq-nil slide us (omega arith)
          ∙ sym (
              drop-eq-nil slide (us ++ (x, t) ∷ [])
                (omega (arith, length-append us ((x, t) ∷ [])))) in
        ap₂ (λ w ws. some (w ∷ ws)) (update_slot-slot us x t) (ap (slots n) tail)
    update_slots-slots (suc j) (suc n) us x t lo hi l =
        let rest = drop slide us in
        let lo' : j * slide ≤ length rest = omega (arith, length-drop slide us) in
        let hi' : length rest < suc j * slide = omega (arith, length-drop slide us) in
        let tail : rest ++ (x, t) ∷ [] ≡ drop slide (us ++ (x, t) ∷ []) =
          sym (drop-append slide us ((x, t) ∷ []) (omega arith)) in
        rw (update_slots-slots j n rest x t lo' hi' (omega arith))
          (ap₂ (λ w ws. some (w ∷ ws)) (update_slot-slot us x t) (ap (slots n) tail))

    -- The manager whose `m` open windows begin with the one that holds `us`.
    abbrev pub holding : ℕ → Items → CountWindowManager S
    holding m us = record {
      init = init;
      size = size;
      slide = slide;
      exact = exact;
      ws = slots m us;
    }

    abbrev pub slot_count : ℕ
    slot_count = (size + b) / slide

    -- The abstract count window: the items of the oldest window, and one more.
    abbrev pub push : Items → In × Option Timestamp → Option (WindowResult Out) × Items
    push us p =
        if length (us ++ p ∷ []) == size
        then (some (window (us ++ p ∷ [])), drop slide (us ++ p ∷ []))
        else (none, us ++ p ∷ [])

    pub record Fits (m : ℕ) (us : Items) : Type 0 where
      pub few : m ≤ slot_count
      pub open_window : length us < size
      pub covered : length us ≤ m * slide

    -- How many windows stay open once the front one has taken an item, of `suc n` slots.
    abbrev pub open_windows : ℕ → Items → ℕ
    open_windows n us = if length us == size then n else suc n

    pub pad-slots :
        (m n : ℕ) (us : Items)
        → length us ≤ m * slide
        → m ≤ n
        → pad process output n init (slots m us) ≡ slots n us
    pad-slots m n us h l = rw (length-slots m us) (slots-pad m n us h l)

    update_front-slots :
        (m n : ℕ) (us : Items) (x : In) (t : Option Timestamp)
        → length us / slide < suc n
        → update_front process output (holding m us) (slots (suc n) us) x t
          ≡ close process output (holding m us) (slots (suc n) (us ++ (x, t) ∷ []))
    update_front-slots m n us x t h =
        let j = length us / slide in
        let k : j + 1 ≡ suc j = omega arith in
        let lo : j * slide ≤ length us = omega arith in
        let hi : length us < suc j * slide = omega arith in
        ap (close_front process output (holding m us)) (
          ap (λ c. update_slots process output c (slots (suc n) us) x t) k
          ∙ update_slots-slots j (suc n) us x t lo hi h)

    close-slots :
        (m n : ℕ) (us us' : Items)
        → close process output (holding m us) (slots (suc n) us')
          ≡ some (
              if length us' == size
              then (some (window us'), holding n (drop slide us'))
              else (none, holding (suc n) us'))
    close-slots m n us us' = elim (Bool-cases (length us' == size)) [
      | inl full ↦ rw full
      | inr short ↦ rw short
    ]

    step-push :
        (n : ℕ) (us : Items) (p : In × Option Timestamp)
        → let us' = us ++ p ∷ [] in
          ◌≡◌ {A = Outcome Out (CountWindowManager S)}
            (some (
              if length us' == size
              then (some (window us'), holding n (drop slide us'))
              else (none, holding (suc n) us')))
            (some ((push us p).0, holding (open_windows n us') (push us p).1))
    step-push n us p = elim (Bool-cases (length (us ++ p ∷ []) == size)) [
      | inl full ↦ rw full
      | inr short ↦ rw short
    ]

    -- A step of the manager is a step of the abstract window.
    pub process_item-push :
        (m n : ℕ) (us : Items) (x : In) (t : Option Timestamp)
        → Fits m us
        → slot_count ≡ suc n
        → process_item process output (holding m us) x t
          ≡ some
              ((push us (x, t)).0, holding (open_windows n (us ++ (x, t) ∷ [])) (push us (x, t)).1)
    unfolding process_item
    process_item-push m n us x t fits e =
        let covers : size ≤ suc n * slide = omega (arith, ap (λ (c : ℕ). c * slide) e) in
        let j_small : length us / slide < suc n =
          quotient_lt (length us) slide (suc n) (omega (arith, fits.open_window)) in
        ap (λ ws. update_front process output (holding m us) ws x t)
          (pad-slots m slot_count us fits.covered fits.few ∙ ap (λ c. slots c us) e)
        ∙ update_front-slots m n us x t j_small
        ∙ close-slots m n us (us ++ (x, t) ∷ [])
        ∙ step-push n us (x, t)

    pub push-Fits :
        (m n : ℕ) (us : Items) (p : In × Option Timestamp)
        → Fits m us
        → slot_count ≡ suc n
        → Fits (open_windows n (us ++ p ∷ [])) (push us p).1
    push-Fits m n us p fits e =
        let covers : size ≤ suc n * slide = omega (arith, ap (λ (c : ℕ). c * slide) e) in
        let count = length-append us (p ∷ []) in
        elim (Bool-cases (length (us ++ p ∷ []) == size)) [
          | inl full ↦
              let at_size : length (us ++ p ∷ []) ≡ size = ground arith in
              let left = length-drop slide (us ++ p ∷ []) in
              rw full (record {
                few = omega arith;
                open_window = omega (arith, fits.open_window);
                covered = omega arith;
              })
          | inr short ↦
              let below : length (us ++ p ∷ []) < size = ground (arith, fits.open_window) in
              rw short (record { few = omega arith; open_window = below; covered = omega arith })
        ]
