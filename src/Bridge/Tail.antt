-- ===== src/Bridge/Tail.antt =====
-- v4/src/matchtrader/bridge/ledger.py: LedgerTail. The file is a list of bytes. What the decoding of
-- a line and the csv module make of it is a parameter; the names that the header gives to the
-- values are left out.
pub mod Lines
pub mod Follow
use match_trader_api.Common.{
  String, ◌&&◌, true, false, some, none, if◌then◌else◌, err, ok, ◌+◌, ℕ, List, Bool, [], Option,
  ◌∷◌, Result, length, suc, ◌==◌, not, ltb, zero, ◌||◌, crash, drop,
}

pub record Row : Type 0 where
  pub start : ℕ
  pub raw : List ℕ
  pub values : List String

pub record Tail : Type 0 where
  pub offset : ℕ
  pub skip_partial : Bool

abbrev pub newline : ℕ
newline = 10

before_rest : ℕ → Option (List ℕ × List ℕ) → Option (List ℕ × List ℕ)
before_rest b none = none
before_rest b (some (l, r)) = some (b ∷ l, r)

-- `readline`, where it ends with a newline: the line and what follows it.
unfoldable pub line_of : List ℕ → Option (List ℕ × List ℕ)
unfolding before_rest
line_of [] = none
line_of (b ∷ bs) =
    let rest = before_rest b (line_of bs) in if b == newline then some (b ∷ [], bs) else rest

ends_open : List ℕ → Bool
ends_open [] = false
ends_open (b ∷ []) = not (b == newline)
ends_open (b ∷ c ∷ bs) = ends_open (c ∷ bs)

-- `LedgerTail.__init__` past the header: observation starts at the end of the file.
unfoldable pub start_at_end : List ℕ → Tail
unfolding ends_open
start_at_end content = record { offset = length content; skip_partial = ends_open content }

-- A line of line ends only: `csv.DictReader` passes over it, and has no more.
is_blank : List ℕ → Bool
is_blank [] = true
is_blank (b ∷ bs) = (b == 10 || b == 13) && is_blank bs

-- `next(csv.DictReader(…))` of one line, where `read` is what it gives of a line that is not blank.
unfoldable pub parsed : (read : List ℕ → Result (List String)) → List ℕ → Result (List String)
unfolding is_blank
parsed read l = if is_blank l then crash "StopIteration" else read l

-- A line that was taken at `start`, before the lines that follow it in the same poll: where it
-- cannot be read nothing of the poll is returned, and the offset is past it.
unfoldable pub add_row :
    (start : ℕ)
    → (raw : List ℕ) → Result (List String)
    → Result (List Row) × Tail
    → Result (List Row) × Tail
add_row start l (ok v) (ok rows, t) = (ok (record { start = start; raw = l; values = v } ∷ rows), t)
add_row start l (ok v) (err e, t) = (err e, t)
add_row start l (ok v) (crash e, t) = (crash e, t)
add_row start l (err e) next = (err e, record { offset = start + length l; skip_partial = false })
add_row start l (crash e) next =
    (crash e, record { offset = start + length l; skip_partial = false })

-- The loop of `poll`: at most `n` lines of the bytes from `pos` on.
unfoldable pub read_lines :
    (read : List ℕ → Result (List String))
    → (n pos : ℕ) → List ℕ
    → (skip : Bool) → Result (List Row) × Tail
read_lines read zero pos rest skip = (ok [], record { offset = pos; skip_partial = skip })
read_lines read (suc n) pos rest skip = elim (line_of rest) [
  | none ↦ (ok [], record { offset = pos; skip_partial = skip })
  | some (l, r) ↦
      let next = read_lines read n (pos + length l) r false in
      if skip then next else add_row pos l (parsed read l) next
]

-- `poll`: `same_file` is whether the path still names the file that was opened.
unfoldable pub poll :
    (read : List ℕ → Result (List String))
    → (same_file : Bool) → List ℕ
    → Tail
    → Result (List Row) × Tail
poll read same_file content t =
    if ltb (length content) t.offset || not same_file
    then (crash "Ledger rotated or truncated; restart observation from its new EOF", t)
    else read_lines read 1000 t.offset (drop t.offset content) t.skip_partial
