-- ===== src/Source/Tests.antt =====
-- The sources at concrete inputs.
use mathlib.Core.List.{flatten}
use renoir.Prelude.{ℕ, ◌≡◌, refl, Bool, true, some, none, List, [], ◌∷◌, length, arith}
use renoir.Stream.{item, flush_and_restart}
use renoir.Stream.Fallible.{work}
use renoir.Source.File
use renoir.Source.File.{file_next}
use renoir.Source.File.Lines.{lines}
use renoir.Source.File.Shares as FileShares
use renoir.Source.File.Shares.{shares-lines}
use renoir.Source.ParallelIterator.{values, range_iterator}
use renoir.Source.ParallelIterator.Replicas
use renoir.Source.ParallelIterator.Replicas.{shares-range}

-- Three lines, of 2, 4 and 3 bytes.
abbrev three_lines : List ℕ
three_lines = b'a' ∷ 10 ∷ b'b' ∷ b'c' ∷ b'd' ∷ 10 ∷ b'e' ∷ b'f' ∷ b'g' ∷ []

abbrev always : List ℕ → Bool
always bytes = true

shares-lines_example :
    (shares : List (List (List ℕ))) × FileShares.Split always three_lines 20 3 0 shares
    × (length shares ≡ 3)
    × (flatten shares ≡ lines three_lines)
shares-lines_example =
    shares-lines always three_lines 20 3 (omega arith) (omega arith) (refl, (refl, (refl, tt)))

-- The second of three replicas begins inside the second line, which the first reads.
second_share :
    work (file_next always) 20 (File.setup three_lines 1 3 File.new)
    ≡ some (item (b'e' ∷ b'f' ∷ b'g' ∷ []) ∷ flush_and_restart ∷ [])
unfolding work file_next
second_share = refl

shares-range_example :
    (shares : List (List ℕ)) × Replicas.Split (range_iterator 5 15) 20 4 0 shares
    × (length shares ≡ 4)
    × (flatten shares ≡ values 5 15)
shares-range_example =
    shares-range 5 15 3 20 (omega arith) (omega arith) (omega arith) (omega arith)

-- A source that was not set up.
unopened_panics : file_next always File.new ≡ none
unfolding file_next
unopened_panics = refl
