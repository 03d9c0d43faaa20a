-- ===== src/Source/File/Lines.antt =====
-- The lines of a file, and where reading them begins.
use renoir.Prelude.{
  ℕ, suc, zero, ◌+◌, ◌-◌, ◌≤◌, ◌<◌, ◌≡◌, refl, sym, ap, ◌∙◌, List, [], ◌∷◌, length, drop, drop-nil,
  drop-eq-nil, arith, ◌==◌, if◌then◌else◌, Bool-cases, inl, inr,
}
use renoir.Source.File.{newline, read_line}

-- The lines of a file, each with its newline; the last may have none.
abbrev pub grow_first : ℕ → List (List ℕ) → List (List ℕ)
grow_first c [] = (c ∷ []) ∷ []
grow_first c (line ∷ lines) = (c ∷ line) ∷ lines

abbrev pub lines : List ℕ → List (List ℕ)
lines [] = []
lines (c ∷ bytes) = if c == newline then (c ∷ []) ∷ lines bytes else grow_first c (lines bytes)

pub lines-read_line :
    (c : ℕ) (bytes : List ℕ)
    → lines (c ∷ bytes) ≡ (read_line (c ∷ bytes)).0 ∷ lines (read_line (c ∷ bytes)).1
lines-read_line c [] = elim (Bool-cases (c == newline)) [ inl e ↦ rw e refl | inr n ↦ rw n refl ]
lines-read_line c (d ∷ bytes) = elim (Bool-cases (c == newline)) [
  | inl e ↦ rw e refl
  | inr n ↦ rw n (ap (grow_first c) (lines-read_line d bytes))
]

-- What comes after the first line that ends after the offset.
abbrev pub after : ℕ → List ℕ → List ℕ
after k file = (read_line (drop k file)).1

-- The offset there.
abbrev pub offset_after : ℕ → List ℕ → ℕ
offset_after k file = k + length (read_line (drop k file)).0

pub drop-read_line :
    (bytes : List ℕ) → drop (length (read_line bytes).0) bytes ≡ (read_line bytes).1
drop-read_line [] = refl
drop-read_line (c ∷ bytes) = elim (Bool-cases (c == newline)) [
  | inl e ↦ rw e refl
  | inr n ↦ rw n (drop-read_line bytes)
]

-- Inside a line, the next line begins at the same place.
pub read_line-drop :
    (k : ℕ) (bytes : List ℕ)
    → k < length (read_line bytes).0
    → (read_line (drop k bytes)).1 ≡ (read_line bytes).1
read_line-drop zero bytes h = refl
read_line-drop (suc k) [] h = refl
read_line-drop (suc k) (c ∷ bytes) h = elim (Bool-cases (c == newline)) [
  | inl e ↦ absurd (ground arith)
  | inr n ↦ ground (arith, read_line-drop k bytes)
]

pub drop-drop : (i j : ℕ) (xs : List ℕ) → drop j (drop i xs) ≡ drop (i + j) xs
drop-drop zero j xs = ap (λ n. drop n xs) (omega arith)
drop-drop (suc i) j [] = drop-nil j ∙ sym (drop-nil (suc i + j))
drop-drop (suc i) j (x ∷ xs) =
    drop-drop i j xs
    ∙ ap (λ n. drop n (x ∷ xs)) (let q : suc (i + j) ≡ suc i + j = omega arith in q)

pub after-same :
    (a b : ℕ) (file : List ℕ) → a ≤ b → b < offset_after a file → after b file ≡ after a file
after-same a b file le lt =
    ap (λ n. (read_line (drop n file)).1) (let q : b ≡ a + (b - a) = omega arith in q)
    ∙ ap (λ z. (read_line z).1) (sym (drop-drop a (b - a) file))
    ∙ read_line-drop (b - a) (drop a file) (omega arith)

pub drop-offset_after : (a : ℕ) (file : List ℕ) → drop (offset_after a file) file ≡ after a file
drop-offset_after a file =
    sym (drop-drop a (length (read_line (drop a file)).0) file) ∙ drop-read_line (drop a file)

pub after-past : (b : ℕ) (file : List ℕ) → length file ≤ b → after b file ≡ []
after-past b file h = ap (λ z. (read_line z).1) (drop-eq-nil b file h)

-- A line that is read begins with the next byte.
pub read_line-cons :
    (c : ℕ) (bytes : List ℕ)
    → (tail : List ℕ) × (read_line (c ∷ bytes) ≡ (c ∷ tail, (read_line (c ∷ bytes)).1))
read_line-cons c bytes = elim (Bool-cases (c == newline)) [
  | inl e ↦ ([], rw e refl)
  | inr n ↦ ((read_line bytes).0, rw n refl)
]
