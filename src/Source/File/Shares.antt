-- ===== src/Source/File/Shares.antt =====
-- The replicas of a `FileSource` share the lines of the file out.
use mathlib.Core.List.{flatten}
use mathlib.Core.Path.{subst}
use renoir.Prelude.{
  ℕ, suc, zero, ◌+◌, ◌-◌, ◌*◌, ◌/◌, ◌≤◌, ◌<◌, ◌≡◌, refl, sym, ap, ◌∙◌, Bool, true, false, some,
  List, [], ◌∷◌, ◌++◌, map, length, arith, ◌==◌, Bool-cases, inl, inr, All,
}
use renoir.Stream.{StreamElement, item, flush_and_restart}
use renoir.Stream.Run.{IsGoing}
use renoir.Stream.Fallible.{work, work-Yields}
use renoir.Source.File.{FileSource, new, setup, file_next, range_start, range_end}
use renoir.Source.File.Reading.{Returns, left_for, reads-setup}
use renoir.Source.File.Lines.{lines, after, after-past}

module _ (is_utf8 : List ℕ → Bool) (file : List ℕ) where
  -- Each replica, from the `i`th on, returns its share and ends.
  abbrev pub Split : ℕ → ℕ → ℕ → List (List (List ℕ)) → Type 0
  Split fuel instances i [] = Unit
  Split fuel instances i (ls ∷ shares) =
      (work (file_next is_utf8) fuel (setup file i instances new)
        ≡ some (map item ls ++ flush_and_restart ∷ []))
      × Split fuel instances (suc i) shares

  lines-IsGoing : (ls : List (List ℕ)) → All IsGoing (map item ls ++ flush_and_restart ∷ [])
  lines-IsGoing [] = (tt, tt)
  lines-IsGoing (l ∷ ls) = (tt, lines-IsGoing ls)

  length-returned :
      (ls : List (List ℕ))
      → length
          (let es : List (StreamElement (List ℕ)) = map item ls ++ flush_and_restart ∷ [] in es)
        ≡ length ls + 1
  length-returned [] = refl
  length-returned (l ∷ ls) = omega (arith, length-returned ls)

  work-Returns :
      (fuel : ℕ) (s : FileSource) (ls : List (List ℕ))
      → Returns is_utf8 file s ls
      → length ls + 1 < fuel
      → work (file_next is_utf8) fuel s ≡ some (map item ls ++ flush_and_restart ∷ [])
  work-Returns fuel s ls (t, y) h =
      work-Yields (file_next is_utf8) fuel s t (map item ls ++ flush_and_restart ∷ [])
        (omega (arith, length-returned ls)) (lines-IsGoing ls) y

  -- The last replica leaves nothing, and each other leaves what is left for the next.
  left_for-next :
      (i n : ℕ)
      → suc i < n
      → lines (after (range_end file i n) file) ≡ left_for is_utf8 file (suc i) n
  left_for-next i n h =
      let inner : (i == n - 1) ≡ false = ground arith in
      let later : (suc i == 0) ≡ false = ground arith in
      rw (inner, later)
        (ap (λ z. lines (after z file))
          (let q : length file / n * i + length file / n ≡ length file / n * suc i = ground arith in
            q))

  left_for-last : (i n : ℕ) → suc i ≡ n → lines (after (range_end file i n) file) ≡ []
  left_for-last i n h =
      let last : (i == n - 1) ≡ true = ground arith in
      rw last (ap lines (after-past (length file) file (omega arith)))

  range_order : (i n : ℕ) → i < n → range_start file i n ≤ range_end file i n
  range_order i n h = elim (Bool-cases (i == n - 1)) [
    | inl last ↦ rw last (grind arith)
    | inr inner ↦ rw inner (omega arith)
  ]

  All-append_right :
      (xs ys : List (List ℕ))
      → All (λ l. is_utf8 l ≡ true) (xs ++ ys)
      → All (λ l. is_utf8 l ≡ true) ys
  All-append_right [] ys h = h
  All-append_right (x ∷ xs) ys h = All-append_right xs ys h.1

  shares_from :
      (fuel k i n : ℕ)
      → suc (i + k) ≡ n
      → length file + 1 < fuel
      → All (λ l. is_utf8 l ≡ true) (left_for is_utf8 file i n)
      → (shares : List (List (List ℕ))) × Split fuel n i shares
        × (length shares ≡ suc k)
        × (flatten shares ≡ left_for is_utf8 file i n)
  unfolding flatten
  shares_from fuel zero i n e h v =
      let (ls, y, q, k) = reads-setup is_utf8 file i n (range_order i n (omega arith)) v in
      (
        ls ∷ [],
        (work-Returns fuel (setup file i n new) ls y (omega arith), tt),
        refl,
        sym (q ∙ ap (λ z. ls ++ z) (left_for-last i n (omega (arith, e)))),
      )
  shares_from fuel (suc k) i n e h v =
      let (ls, y, q, m) = reads-setup is_utf8 file i n (range_order i n (omega arith)) v in
      let rest = q ∙ ap (λ z. ls ++ z) (left_for-next i n (omega arith)) in
      let (shares, w, c, f) = shares_from fuel k (suc i) n (omega arith) h (
        All-append_right ls (left_for is_utf8 file (suc i) n)
          (subst (All (λ l. is_utf8 l ≡ true)) rest v)) in
      (
        ls ∷ shares,
        (work-Returns fuel (setup file i n new) ls y (omega arith), w),
        omega (arith, c),
        ap (λ z. ls ++ z) f ∙ sym rest,
      )

  -- One or more replicas of a file source over the same file, whose lines are all UTF-8, each end
  -- without a panic, given fuel for each byte and two more: each returns the lines of its share and
  -- then a `FlushAndRestart`, and the shares of the replicas, in order, are the lines of the file:
  -- each line is read by exactly one replica.
  pub shares-lines :
      (fuel n : ℕ)
      → 0 < n
      → length file + 1 < fuel
      → All (λ l. is_utf8 l ≡ true) (lines file)
      → (shares : List (List (List ℕ))) × Split fuel n 0 shares
        × (length shares ≡ n)
        × (flatten shares ≡ lines file)
  shares-lines fuel zero p h v = absurd (omega arith)
  shares-lines fuel (suc k) p h v = shares_from fuel k 0 (suc k) (omega arith) h v
