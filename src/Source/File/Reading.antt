-- ===== src/Source/File/Reading.antt =====
-- What one replica of a `FileSource` reads.
use mathlib.Core.Path.{subst}
use renoir.Prelude.{
  ℕ, suc, zero, ◌+◌, ◌-◌, ◌≤◌, ◌<◌, ◌≡◌, refl, sym, ap, ◌∙◌, Bool, true, false, some, List, [], ◌∷◌,
  ◌++◌, map, length, drop, length-drop, arith, leb, ◌==◌, if◌then◌else◌, Bool-cases, inl, inr, All,
}
use renoir.Stream.{item, terminate, flush_and_restart}
use renoir.Stream.Fallible.{Yields}
use renoir.Source.File.{FileSource, new, setup, file_next, read_line, range_start, range_end}
use renoir.Source.File.Lines.{
  lines, lines-read_line, after, offset_after, after-same, drop-offset_after, drop-drop, after-past,
  read_line-cons, drop-read_line,
}

module _ (is_utf8 : List ℕ → Bool) (file : List ℕ) where
  abbrev at_offset : ℕ → ℕ → List ℕ → FileSource
  at_offset p b bytes = record {
    reader = some bytes;
    current = p;
    end_offset = b;
    terminated = false;
  }

  -- From the state `s` these lines are returned, and then the ends.
  abbrev pub Returns : FileSource → List (List ℕ) → Type 0
  Returns s ls =
      (t : FileSource) × Yields (file_next is_utf8) s
        ((map item ls ++ flush_and_restart ∷ []) ++ terminate ∷ []) t

  Returns-past : (p b : ℕ) (bytes : List ℕ) → leb p b ≡ false → Returns (at_offset p b bytes) []
  unfolding file_next
  Returns-past p b bytes h =
      let done : FileSource = record {
        reader = some bytes;
        current = p;
        end_offset = b;
        terminated = true;
      } in
      (done, (done, rw h refl, (done, refl, refl)))

  Returns-end : (p b : ℕ) → leb p b ≡ true → Returns (at_offset p b []) []
  unfolding file_next
  Returns-end p b h =
      let done : FileSource = record {
        reader = some [];
        current = p;
        end_offset = b;
        terminated = true;
      } in
      (done, (done, rw h refl, (done, refl, refl)))

  Returns-line :
      (p b c : ℕ) (bytes line rest : List ℕ) (ls : List (List ℕ))
      → leb p b ≡ true
      → read_line bytes ≡ (c ∷ line, rest)
      → is_utf8 (c ∷ line) ≡ true
      → Returns (at_offset (p + length (c ∷ line)) b rest) ls
      → Returns (at_offset p b bytes) ((c ∷ line) ∷ ls)
  unfolding file_next
  Returns-line p b c bytes line rest ls h r v (t, y) =
      (t, (at_offset (p + length (c ∷ line)) b rest, rw (h, r, v) refl, y))

  abbrev Reads : ℕ → ℕ → FileSource → Type 0
  Reads p b s =
      (ls : List (List ℕ)) × Returns s ls
      × (lines (drop p file) ≡ ls ++ lines (after b file))
      × (length ls ≤ length file - p)

  Reads-past :
      (a b p : ℕ) (rest : List ℕ)
      → a ≤ b
      → b < p
      → offset_after a file ≡ p
      → after a file ≡ rest
      → Reads p b (at_offset p b rest)
  Reads-past a b p rest le lt o r = (
    [],
    Returns-past p b rest (ground arith),
    ap lines (
        ap (λ z. drop z file) (sym o)
        ∙ drop-offset_after a file
        ∙ sym (after-same a b file le (omega (arith, o)))),
    omega arith,
  )

  drop-line :
      (p c : ℕ) (bytes tail rest : List ℕ)
      → drop p file ≡ c ∷ bytes
      → read_line (c ∷ bytes) ≡ (c ∷ tail, rest)
      → drop (p + length (c ∷ tail)) file ≡ rest
  drop-line p c bytes tail rest e r =
      sym (drop-drop p (length (c ∷ tail)) file)
      ∙ ap (drop (length (c ∷ tail))) e
      ∙ ap (λ (z : List ℕ × List ℕ). drop (length z.0) (c ∷ bytes)) (sym r)
      ∙ drop-read_line (c ∷ bytes)
      ∙ ap (λ z. z.1) r

  -- One line, and what comes after it.
  Reads-line :
      (p b c : ℕ) (bytes tail rest : List ℕ)
      → drop p file ≡ c ∷ bytes
      → read_line (c ∷ bytes) ≡ (c ∷ tail, rest)
      → p ≤ b
      → is_utf8 (c ∷ tail) ≡ true
      → Reads (p + length (c ∷ tail)) b (at_offset (p + length (c ∷ tail)) b rest)
      → Reads p b (at_offset p b (c ∷ bytes))
  Reads-line p b c bytes tail rest e r le v (ls, y, q, k) =
      let next : drop (p + length (c ∷ tail)) file ≡ rest = drop-line p c bytes tail rest e r in
      let first : lines (drop p file) ≡ (c ∷ tail) ∷ lines rest =
        ap lines e ∙ lines-read_line c bytes ∙ ap (λ z. z.0 ∷ lines z.1) r in
      (
        (c ∷ tail) ∷ ls,
        Returns-line p b c (c ∷ bytes) tail rest ls (ground arith) r v y,
        first ∙ ap (λ z. (c ∷ tail) ∷ z) (ap lines (sym next) ∙ q),
        omega (arith, k, length-drop p file, ap length e),
      )

  -- Reading on from an offset in the part.
  reads :
      (n p b : ℕ) (bytes : List ℕ)
      → drop p file ≡ bytes
      → length file - p < n
      → p ≤ b
      → All (λ line. is_utf8 line ≡ true) (lines bytes)
      → Reads p b (at_offset p b bytes)
  reads zero p b bytes e m le v = absurd (omega arith)
  reads (suc n) p b [] e m le v = (
    [],
    Returns-end p b (ground arith),
    ap lines (e ∙ sym (after-past b file (omega (arith, length-drop p file, ap length e)))),
    omega arith,
  )
  reads (suc n) p b (c ∷ bytes) e m le v =
      let (tail, r) = read_line-cons c bytes in
      let rest = (read_line (c ∷ bytes)).1 in
      let valid : All (λ line. is_utf8 line ≡ true) ((c ∷ tail) ∷ lines rest) =
        subst (All (λ line. is_utf8 line ≡ true))
          (lines-read_line c bytes ∙ ap (λ z. z.0 ∷ lines z.1) r) v in
      Reads-line p b c bytes tail rest e r le valid.0
        (elim (Bool-cases (leb (p + length (c ∷ tail)) b)) [
          | inl more ↦
              reads n (p + length (c ∷ tail)) b rest (drop-line p c bytes tail rest e r)
                (omega (arith, length-drop p file, ap length e)) (ground arith) valid.1
          | inr past ↦
              Reads-past p b (p + length (c ∷ tail)) rest le (ground arith)
                (ap (λ z. p + length (read_line z).0) e
                  ∙ ap (λ (z : List ℕ × List ℕ). p + length z.0) r)
                (ap (λ z. (read_line z).1) e ∙ ap (λ z. z.1) r)
        ])

  -- What is left for the replica `i` and those after it.
  abbrev pub left_for : ℕ → ℕ → List (List ℕ)
  left_for i instances =
      if i == 0 then lines file else lines (after (range_start file i instances) file)

  reads_later :
      (a b : ℕ)
      → a ≤ b
      → All (λ line. is_utf8 line ≡ true) (lines (after a file))
      → (ls : List (List ℕ)) × Returns (at_offset (offset_after a file) b (after a file)) ls
        × (lines (after a file) ≡ ls ++ lines (after b file))
        × (length ls ≤ length file)
  reads_later a b le v =
      let (ls, y, q, k) : Reads (offset_after a file) b
          (at_offset (offset_after a file) b (after a file)) =
        elim (Bool-cases (leb (offset_after a file) b)) [
          | inl more ↦
              reads (suc (length file)) (offset_after a file) b (after a file)
                (drop-offset_after a file) (omega arith) (ground arith) v
          | inr past ↦
              Reads-past a b (offset_after a file) (after a file) le (ground arith) refl refl
        ] in
      (ls, y, ap lines (sym (drop-offset_after a file)) ∙ q, omega (arith, k))

  -- A replica reads what is left for it but what it leaves.
  pub reads-setup :
      (i instances : ℕ)
      → range_start file i instances ≤ range_end file i instances
      → All (λ line. is_utf8 line ≡ true) (left_for i instances)
      → (ls : List (List ℕ)) × Returns (setup file i instances new) ls
        × (left_for i instances ≡ ls ++ lines (after (range_end file i instances) file))
        × (length ls ≤ length file)
  reads-setup zero instances le v =
      let start = range_start file zero instances in
      let from_top : start ≡ 0 = ground arith in
      let whole : lines (drop start file) ≡ lines file = ap (λ k. lines (drop k file)) from_top in
      let (ls, y, q, k) =
        reads (suc (length file)) start (range_end file zero instances) (drop start file) refl
          (omega arith) le (subst (All (λ line. is_utf8 line ≡ true)) (sym whole) v) in
      (ls, y, sym whole ∙ q, omega (arith, k))
  reads-setup (suc i) instances le v =
      let start = range_start file (suc i) instances in
      let end = range_end file (suc i) instances in
      let later : (suc i == 0) ≡ false = ground arith in
      let (ls, y, q, k) = reads_later start end le (
        let w : All (λ line. is_utf8 line ≡ true) (lines (after start file)) = simp later at v in
        w) in
      (ls, rw later y, rw later q, k)
