-- ===== src/Tests/Tail.antt =====
-- The observation of a growing file at concrete bytes.
use match_trader_api.Common.{
  ◌≡◌, refl, false, List, [], ◌∷◌, ℕ, ok, err, crash, String, Result, if◌then◌else◌, ◌==◌, length,
}
use match_trader_api.Bridge.Tail.{line_of, read_lines, start_at_end, parsed, add_row}
use match_trader_api.Bridge.Tail.Follow.{all_bytes, IsLossless, follow, follow-Lossless}
use match_trader_api.Bridge.Tail.Lines.{IsRead, read_lines-IsRead}

-- A reader that gives one value for a line, and refuses a line of a single byte before its end.
abbrev read : List ℕ → Result (List String)
read l = if length l == 2 then err "UnicodeDecodeError" else ok ("x" ∷ [])

-- Two lines and a half, cut in the middle of both lines; the second cannot be read.
abbrev pieces : List (List ℕ)
pieces = (65 ∷ []) ∷ (66 ∷ 10 ∷ 67 ∷ []) ∷ (10 ∷ 68 ∷ []) ∷ []

abbrev head : List ℕ
head = 72 ∷ 10 ∷ []

follow-Lossless_example :
    IsLossless read 2
      (65 ∷ 66 ∷ 10 ∷ 67 ∷ 10 ∷ 68 ∷ [])
      (follow read pieces head 0 (start_at_end head))
unfolding all_bytes start_at_end
follow-Lossless_example = follow-Lossless read head pieces complete
  where
    complete : (start_at_end head).skip_partial ≡ false
    complete = refl

read_lines-IsRead_example :
    IsRead read 1000 2 (65 ∷ 10 ∷ 66 ∷ []) (read_lines read 1000 2 (65 ∷ 10 ∷ 66 ∷ []) false)
read_lines-IsRead_example = read_lines-IsRead read 1000 2 (65 ∷ 10 ∷ 66 ∷ [])

two_lines :
    (read_lines read 3 2 (65 ∷ 66 ∷ 10 ∷ 67 ∷ 68 ∷ 10 ∷ 69 ∷ []) false).0
    ≡ ok (
        record { start = 2; raw = 65 ∷ 66 ∷ 10 ∷ []; values = "x" ∷ [] }
        ∷ record { start = 5; raw = 67 ∷ 68 ∷ 10 ∷ []; values = "x" ∷ [] }
        ∷ [])
unfolding read_lines line_of parsed add_row
two_lines = refl

-- A blank line raises, and the line before it is lost.
blank_line :
    read_lines read 3 2 (65 ∷ 66 ∷ 10 ∷ 10 ∷ []) false
    ≡ (crash "StopIteration", record { offset = 6; skip_partial = false })
unfolding read_lines line_of parsed add_row
blank_line = refl
