-- ===== src/Bridge/Tail/Lines.antt =====
-- The lines that LedgerTail reports are the bytes that were appended, cut at the newlines, and where
-- their reading is broken off.
use match_trader_api.Common.{
  String, Result, ok, err, crash, true, false, some, none, if◌then◌else◌, ◌+◌, inl, inr, ◌⊎◌, ◌∙◌,
  ap, ℕ, List, ◌≡◌, ◌++◌, ◌==◌, [], ◌&&◌, sym, arith, All, subst, zero, some_inj, Bool-cases, refl,
  length-append, append_assoc,
}
use match_trader_api.Bridge.Tail.{
  parsed, add_row, line_of, Bool, Row, before_rest, ◌∷◌, length, newline, not, Tail, read_lines,
  suc, Option,
}

-- A line: one newline, at its end.
unfoldable pub is_line : List ℕ → Bool
is_line [] = false
is_line (b ∷ []) = b == newline
is_line (b ∷ c ∷ bs) = not (b == newline) && is_line (c ∷ bs)

unfoldable pub joined : List Row → List ℕ
joined [] = []
joined (r ∷ rs) = r.raw ++ joined rs

-- Each row starts where the one before it ended.
unfoldable pub StartFrom : ℕ → List Row → Type 0
StartFrom p [] = Unit
StartFrom p (r ∷ rs) = (r.start ≡ p) × StartFrom (p + length r.raw) rs

cons_line :
    (b : ℕ) (l : List ℕ) → (b == newline) ≡ false → is_line l ≡ true → is_line (b ∷ l) ≡ true
unfolding is_line
cons_line b [] n h = absurd (cc)
cons_line b (c ∷ l) n h = ground arith

Split : List ℕ → List ℕ × List ℕ → Type 0
Split bs x = (x.0 ++ x.1 ≡ bs) × (is_line x.0 ≡ true)

line_of-Split : (bs : List ℕ) (x : List ℕ × List ℕ) → line_of bs ≡ some x → Split bs x
unfolding line_of before_rest is_line Split
line_of-Split [] x h = absurd (cc)
line_of-Split (b ∷ bs) x h = elim (Bool-cases (b == newline)) [
  | inl e ↦ subst (Split (b ∷ bs)) (some_inj (first e)) (refl, e)
  | inr e ↦ by_rest (line_of bs) refl (further e) e (line_of-Split bs)
]
  where
    first : (b == newline) ≡ true → some (b ∷ [], bs) ≡ some x
    first e = sym (ap (λ t. if t then some (b ∷ [], bs) else before_rest b (line_of bs)) e) ∙ h

    further : (b == newline) ≡ false → before_rest b (line_of bs) ≡ some x
    further e = sym (ap (λ t. if t then some (b ∷ [], bs) else before_rest b (line_of bs)) e) ∙ h

    by_rest :
        (o : Option (List ℕ × List ℕ))
        → line_of bs ≡ o
        → before_rest b o ≡ some x
        → (b == newline) ≡ false
        → ((y : List ℕ × List ℕ) → line_of bs ≡ some y → Split bs y)
        → Split (b ∷ bs) x
    by_rest none q k n go = absurd (cc)
    by_rest (some (l, r)) q k n go =
        let ih = go (l, r) q in
        subst (Split (b ∷ bs)) (some_inj k) (ap (λ t. b ∷ t) ih.0, cons_line b l n ih.1)

abbrev pub at_offset : ℕ → Tail
at_offset p = record { offset = p; skip_partial = false }

unfoldable pub fails : Result (List String) → Bool
fails (ok v) = false
fails _ = true

-- One line, with the values that it holds.
abbrev pub IsReported : (read : List ℕ → Result (List String)) → Row → Type 0
IsReported read r = (is_line r.raw ≡ true) × (parsed read r.raw ≡ ok r.values)

-- Where the reading of `rest`, from `pos` on, is broken off: just past a line that cannot be read.
unfoldable pub IsBroken :
    (read : List ℕ → Result (List String)) → (pos : ℕ) → List ℕ → Tail → Type 0
IsBroken read pos rest t =
    (passed : List ℕ) × (l : List ℕ) × (unread : List ℕ) × (passed ++ (l ++ unread) ≡ rest)
    × (is_line l ≡ true)
    × (fails (parsed read l) ≡ true)
    × (t ≡ at_offset (pos + length (passed ++ l)))

-- What reading `n` lines from `pos` leaves.
unfoldable pub IsRead :
    (read : List ℕ → Result (List String))
    → (n pos : ℕ) → List ℕ
    → Result (List Row) × Tail
    → Type 0
IsRead read n pos rest (ok rows, t) =
    (unread : List ℕ) × (joined rows ++ unread ≡ rest)
    × All (IsReported read) rows
    × StartFrom pos rows
    × (t ≡ at_offset (pos + length (joined rows)))
    × ((length rows ≡ n) ⊎ (line_of unread ≡ none))
IsRead read n pos rest (err e, t) = IsBroken read pos rest t
IsRead read n pos rest (crash e, t) = IsBroken read pos rest t

no_more : (p : ℕ) → p ≡ p + 0
no_more p = omega arith

onward : (p : ℕ) (a b : List ℕ) → (p + length a) + length b ≡ p + length (a ++ b)
onward p a b = let k = length-append a b in omega arith

stopped :
    (n : ℕ) (unread : List ℕ) (rows : List Row)
    → (length rows ≡ n) ⊎ (line_of unread ≡ none)
    → (suc (length rows) ≡ suc n) ⊎ (line_of unread ≡ none)
stopped n u rows (inl k) = inl (ap suc k)
stopped n u rows (inr k) = inr k

append-IsBroken :
    (read : List ℕ → Result (List String)) (pos : ℕ) (l r : List ℕ) (t : Tail)
    → IsBroken read (pos + length l) r t
    → IsBroken read pos (l ++ r) t
unfolding IsBroken
append-IsBroken read pos l r t (passed, bad, unread, q, line, f, o) = (
  l ++ passed,
  bad,
  unread,
  append_assoc l passed (bad ++ unread) ∙ ap (λ x. l ++ x) q,
  line,
  f,
  o
      ∙ ap at_offset (
          onward pos l (passed ++ bad)
          ∙ ap (λ x. pos + length x) (sym (append_assoc l passed bad))),
)

parsed-IsBroken :
    (read : List ℕ → Result (List String)) (pos : ℕ) (l r : List ℕ)
    → is_line l ≡ true
    → fails (parsed read l) ≡ true
    → IsBroken read pos (l ++ r) (at_offset (pos + length l))
unfolding IsBroken
parsed-IsBroken read pos l r line f = ([], l, r, refl, line, f, refl)

add_row-IsRead :
    (read : List ℕ → Result (List String)) (n pos : ℕ) (l r : List ℕ) (v : Result (List String))
    (x : Result (List Row) × Tail)
    → is_line l ≡ true
    → parsed read l ≡ v
    → IsRead read n (pos + length l) r x
    → IsRead read (suc n) pos (l ++ r) (add_row pos l v x)
unfolding add_row IsRead joined StartFrom fails
add_row-IsRead read n pos l r (ok v) (ok rows, t) line e (unread, q, lines, starts, o, stop) = (
  unread,
  append_assoc l (joined rows) unread ∙ ap (λ x. l ++ x) q,
  ((line, e), lines),
  (refl, starts),
  o ∙ ap at_offset (onward pos l (joined rows)),
  stopped n unread rows stop,
)
add_row-IsRead read n pos l r (ok v) (err x, t) line e h = append-IsBroken read pos l r t h
add_row-IsRead read n pos l r (ok v) (crash x, t) line e h = append-IsBroken read pos l r t h
add_row-IsRead read n pos l r (err y) x line e h = parsed-IsBroken read pos l r line (rw e refl)
add_row-IsRead read n pos l r (crash y) x line e h = parsed-IsBroken read pos l r line (rw e refl)

-- What reading `n` lines of the bytes `rest` gives. Where it returns: the rows' bytes and then the
-- unread ones are `rest`; each row is one line, with the values that are read of it; they start
-- one after the other; and unless there are `n` of them, no line is left to read. Where it
-- raises: one of the lines cannot be read, and the offset is moved just past it.
pub read_lines-IsRead :
    (read : List ℕ → Result (List String)) (n pos : ℕ) (rest : List ℕ)
    → IsRead read n pos rest (read_lines read n pos rest false)
unfolding read_lines IsRead joined StartFrom Split
read_lines-IsRead read zero pos rest = (rest, refl, tt, tt, ap at_offset (no_more pos), inl refl)
read_lines-IsRead read (suc n) pos rest =
    by_line (line_of rest) refl (λ p r. read_lines-IsRead read n p r)
  where
    by_line :
        (o : Option (List ℕ × List ℕ))
        → line_of rest ≡ o
        → ((p : ℕ) (r : List ℕ) → IsRead read n p r (read_lines read n p r false))
        → IsRead read (suc n) pos rest (elim o [
          | none ↦ (ok [], at_offset pos)
          | some (l, r) ↦
              let next = read_lines read n (pos + length l) r false in
              add_row pos l (parsed read l) next
        ])
    by_line none e go = (rest, refl, tt, tt, ap at_offset (no_more pos), inr e)
    by_line (some (l, r)) e go =
        let sp = line_of-Split rest (l, r) e in
        subst
          (λ b.
            IsRead read (suc n) pos b
              (add_row pos l (parsed read l) (read_lines read n (pos + length l) r false)))
          sp.0 (add_row-IsRead read n pos l r (parsed read l) _ sp.1 refl (go (pos + length l) r))
