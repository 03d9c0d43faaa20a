-- ===== src/Source/File.antt =====
-- src/operator/source/file.rs: each replica reads the lines of one part of a file. A file is its
-- bytes, and the reader is the bytes that it has still to read.
pub mod Lines
pub mod Reading
pub mod Shares
use renoir.Prelude.{
  ℕ, ◌+◌, ◌-◌, ◌*◌, ◌/◌, Bool, true, false, Option, none, some, List, [], ◌∷◌, length, drop, leb,
  ◌==◌, if◌then◌else◌,
}
use renoir.Stream.{StreamElement, item, terminate, flush_and_restart}
use renoir.Stream.Fallible.{Call}

abbrev pub newline : ℕ
newline = 10

-- `BufRead::read_until` and `read_line`: the bytes through the next newline, or all, and the rest.
abbrev pub before_byte : ℕ → List ℕ × List ℕ → List ℕ × List ℕ
before_byte c (line, rest) = (c ∷ line, rest)

abbrev pub read_line : List ℕ → List ℕ × List ℕ
read_line [] = ([], [])
read_line (c ∷ bytes) = if c == newline then (c ∷ [], bytes) else before_byte c (read_line bytes)

pub record FileSource : Type 0 where
  pub reader : Option (List ℕ)
  pub current : ℕ
  pub end_offset : ℕ
  pub terminated : Bool

abbrev pub new : FileSource
new = record { reader = none; current = 0; end_offset = 0; terminated = false }

-- The part of the file that a replica starts with.
abbrev pub range_start : List ℕ → ℕ → ℕ → ℕ
range_start file global_id instances = length file / instances * global_id

abbrev pub range_end : List ℕ → ℕ → ℕ → ℕ
range_end file global_id instances =
    if global_id == instances - 1
    then length file
    else range_start file global_id instances + length file / instances

-- The reader of a replica but the first discards a line.
abbrev pub discard : ℕ → List ℕ × List ℕ → FileSource → FileSource
discard start (line, rest) s = record s { reader = some rest; current = start + length line }

abbrev pub setup : List ℕ → ℕ → ℕ → FileSource → FileSource
setup file global_id instances s =
    let start = range_start file global_id instances in
    let bytes = drop start file in
    let opened : FileSource = record s {
      reader = some bytes;
      current = start;
      end_offset = range_end file global_id instances;
    } in
    if global_id == 0 then opened else discard start (read_line bytes) opened

module _ (is_utf8 : List ℕ → Bool) where
  abbrev pub finish : FileSource → Call (List ℕ) FileSource
  finish s = some (flush_and_restart, record s { terminated = true })

  -- What `read_line` did; it fails on bytes that are not UTF-8.
  abbrev pub returned : List ℕ × List ℕ → FileSource → Call (List ℕ) FileSource
  returned ([], rest) s = finish s
  returned (c ∷ line, rest) s =
      if is_utf8 (c ∷ line)
      then some (
        item (c ∷ line),
        record s { reader = some rest; current = s.current + length (c ∷ line) },
      )
      else none

  abbrev pub read_next : Option (List ℕ) → FileSource → Call (List ℕ) FileSource
  read_next none s = none
  read_next (some bytes) s = returned (read_line bytes) s

  unfoldable pub file_next : FileSource → Call (List ℕ) FileSource
  file_next s =
      if s.terminated
      then some (terminate, s)
      else if leb s.current s.end_offset
      then read_next s.reader s
      else finish s
