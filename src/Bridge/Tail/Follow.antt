-- ===== src/Bridge/Tail/Follow.antt =====
-- Observing a file that grows: what all polls report is what was appended.
use match_trader_api.Common.{
  true, false, err, ok, crash, ◌+◌, ◌∙◌, ap, ℕ, List, length, ◌∷◌, ◌++◌, ◌≡◌, [], arith, All, sym,
  String, Bool, none, ◌⊎◌, inr, subst, append_assoc, length-append, refl, drop-append, All-append,
  append_nil,
}
use match_trader_api.Bridge.Tail.Lines.{
  StartFrom, joined, at_offset, is_line, IsRead, IsReported, IsBroken, fails, read_lines-IsRead,
}
use match_trader_api.Bridge.Tail.{
  Tail, Row, poll, read_lines, parsed, ltb, Result, start_at_end, line_of,
}

-- The rows that are reported, how many of them by the last poll, and whether a poll raised.
pub record Followed : Type 0 where
  pub rows : List Row
  pub last : ℕ
  pub broken : Bool

unfoldable pub and_then : Result (List Row) × Tail → (ℕ → Tail → Followed) → Followed
and_then (ok rows, t) next = let g = next (length rows) t in record g { rows = rows ++ g.rows }
and_then (err e, t) next = record { rows = []; last = 0; broken = true }
and_then (crash e, t) next = record { rows = []; last = 0; broken = true }

-- A poll after each time that bytes were appended; a poll that raises ends the observation.
unfoldable pub follow :
    (read : List ℕ → Result (List String))
    → List (List ℕ)
    → (content : List ℕ) → (last : ℕ) → Tail
    → Followed
follow read [] content last t = record { rows = []; last = last; broken = false }
follow read (chunk ∷ more) content last t =
    and_then (poll read true (content ++ chunk) t)
      (λ n t2. follow read more (content ++ chunk) n t2)

unfoldable pub all_bytes : List (List ℕ) → List ℕ
all_bytes [] = []
all_bytes (c ∷ cs) = c ++ all_bytes cs

poll-appended :
    (read : List ℕ → Result (List String)) (seen unread chunk : List ℕ)
    → poll read true ((seen ++ unread) ++ chunk) (at_offset (length seen))
      ≡ read_lines read 1000 (length seen) (unread ++ chunk) false
unfolding poll
poll-appended read seen unread chunk =
    let a = append_assoc seen unread chunk in
    let b = drop-append seen (unread ++ chunk) in let c = long_enough in rw (c, a, b) refl
  where
    long_enough : ltb (length ((seen ++ unread) ++ chunk)) (length seen) ≡ false
    long_enough =
        let p = length-append (seen ++ unread) chunk in
        let q = length-append seen unread in ground arith

joined-append : (xs ys : List Row) → joined (xs ++ ys) ≡ joined xs ++ joined ys
unfolding joined
joined-append [] ys = refl
joined-append (x ∷ xs) ys =
    ap (λ l. x.raw ++ l) (joined-append xs ys) ∙ sym (append_assoc x.raw (joined xs) (joined ys))

StartFrom-append :
    (p : ℕ) (xs ys : List Row)
    → StartFrom p xs
    → StartFrom (p + length (joined xs)) ys
    → StartFrom p (xs ++ ys)
unfolding StartFrom joined
StartFrom-append p [] ys h k = subst (λ n. StartFrom n ys) none_more k
  where
    none_more : p + 0 ≡ p
    none_more = omega arith
StartFrom-append p (x ∷ xs) ys h k =
    (h.0, StartFrom-append (p + length x.raw) xs ys h.1 (subst (λ n. StartFrom n ys) onward k))
  where
    onward : p + length (x.raw ++ joined xs) ≡ (p + length x.raw) + length (joined xs)
    onward = let q = length-append x.raw (joined xs) in omega arith

-- Among the bytes there is a line that cannot be read.
unfoldable pub HasUnreadable : (read : List ℕ → Result (List String)) → List ℕ → Type 0
HasUnreadable read bytes =
    (passed : List ℕ) × (l : List ℕ) × (rest : List ℕ) × (passed ++ (l ++ rest) ≡ bytes)
    × (is_line l ≡ true)
    × (fails (parsed read l) ≡ true)

-- How the observation ended: broken off at a line that cannot be read, or else with no line left
-- to report, unless the last poll took its 1000 lines.
unfoldable pub IsEnded :
    (read : List ℕ → Result (List String))
    → (unread : List ℕ) → (last : ℕ) → (broken : Bool) → Type 0
IsEnded read unread last true = HasUnreadable read unread
IsEnded read unread last false = (last ≡ 1000) ⊎ (line_of unread ≡ none)

-- What the rows of a whole observation amount to.
unfoldable pub IsLossless : (read : List ℕ → Result (List String)) → ℕ → List ℕ → Followed → Type 0
IsLossless read p bytes g =
    (unread : List ℕ) × (joined g.rows ++ unread ≡ bytes)
    × All (IsReported read) g.rows
    × StartFrom p g.rows
    × IsEnded read unread g.last g.broken

broken-IsLossless :
    (read : List ℕ → Result (List String)) (p : ℕ) (bytes later : List ℕ) (t : Tail)
    → IsBroken read p bytes t
    → IsLossless read p (bytes ++ later) (record { rows = []; last = 0; broken = true })
unfolding IsLossless IsEnded IsBroken HasUnreadable joined StartFrom
broken-IsLossless read p bytes later t (passed, l, rest, q, line, f, _) = (
  bytes ++ later,
  refl,
  tt,
  tt,
  (
    passed,
    l,
    rest ++ later,
    sym (ap (λ x. passed ++ x) (append_assoc l rest later))
        ∙ (sym (append_assoc passed (l ++ rest) later) ∙ ap (λ x. x ++ later) q),
    line,
    f,
  ),
)

glue :
    (read : List ℕ → Result (List String)) (p : ℕ) (rows : List Row) (unread bytes later : List ℕ)
    (g : Followed)
    → joined rows ++ unread ≡ bytes
    → All (IsReported read) rows
    → StartFrom p rows
    → IsLossless read (p + length (joined rows)) (unread ++ later) g
    → IsLossless read p (bytes ++ later) (record g { rows = rows ++ g.rows })
unfolding IsLossless
glue read p rows unread bytes later g q lines starts (left, r, lines2, starts2, e) = (
  left,
  ap (λ l. l ++ left) (joined-append rows g.rows)
      ∙ (append_assoc (joined rows) (joined g.rows) left
          ∙ (ap (λ l. joined rows ++ l) r
              ∙ (sym (append_assoc (joined rows) unread later) ∙ ap (λ l. l ++ later) q))),
  All-append _ rows g.rows lines lines2,
  StartFrom-append p rows g.rows starts starts2,
  e,
)

follow-IsLossless :
    (read : List ℕ → Result (List String)) (chunks : List (List ℕ)) (seen unread : List ℕ)
    (last : ℕ)
    → (last ≡ 1000) ⊎ (line_of unread ≡ none)
    → IsLossless read
        (length seen)
        (unread ++ all_bytes chunks)
        (follow read chunks (seen ++ unread) last (at_offset (length seen)))
unfolding follow all_bytes IsLossless joined StartFrom IsEnded IsRead and_then
follow-IsLossless read [] seen unread last done = (unread, sym (append_nil unread), tt, tt, done)
follow-IsLossless read (chunk ∷ more) seen unread last done =
    subst (IsLossless read (length seen) (unread ++ (chunk ++ all_bytes more)))
      (sym (ap here (poll-appended read seen unread chunk)))
      (subst (λ b. IsLossless read (length seen) b (here x))
        (append_assoc unread chunk (all_bytes more))
        (by_poll x (read_lines-IsRead read 1000 (length seen) (unread ++ chunk))
          (λ s u n d. follow-IsLossless read more s u n d)))
  where
    x : Result (List Row) × Tail
    x = read_lines read 1000 (length seen) (unread ++ chunk) false

    here : Result (List Row) × Tail → Followed
    here o = and_then o (λ n t2. follow read more ((seen ++ unread) ++ chunk) n t2)

    by_poll :
        (o : Result (List Row) × Tail)
        → IsRead read 1000 (length seen) (unread ++ chunk) o
        → ((s u : List ℕ) (n : ℕ)
            → (n ≡ 1000) ⊎ (line_of u ≡ none)
            → IsLossless read
                (length s)
                (u ++ all_bytes more)
                (follow read more (s ++ u) n (at_offset (length s))))
        → IsLossless read (length seen) ((unread ++ chunk) ++ all_bytes more) (here o)
    by_poll (err e, t) h go =
        broken-IsLossless read (length seen) (unread ++ chunk) (all_bytes more) t h
    by_poll (crash e, t) h go =
        broken-IsLossless read (length seen) (unread ++ chunk) (all_bytes more) t h
    by_poll (ok rows, t) (u, q, lines, starts, o, stop) go =
        glue read (length seen) rows u (unread ++ chunk) (all_bytes more) _ q lines starts (
          subst
            (λ z.
              IsLossless read (length seen + length (joined rows)) (u ++ all_bytes more)
                (follow read more z (length rows) t))
            (sym content)
            (subst
              (λ t2.
                IsLossless read (length seen + length (joined rows)) (u ++ all_bytes more)
                  (follow read more ((seen ++ joined rows) ++ u) (length rows) t2))
              (sym o)
              (subst
                (λ k.
                  IsLossless read k (u ++ all_bytes more)
                    (follow read more ((seen ++ joined rows) ++ u) (length rows) (at_offset k)))
                (length-append seen (joined rows))
                (go (seen ++ joined rows) u (length rows) stop))))
      where
        content : (seen ++ unread) ++ chunk ≡ (seen ++ joined rows) ++ u
        content =
            append_assoc seen unread chunk
            ∙ (ap (λ l. seen ++ l) (sym q) ∙ sym (append_assoc seen (joined rows) u))

-- Observation that starts at the end of a file whose last line is complete: whatever is appended
-- and however it is cut into pieces between the polls, the lines that the polls report, put
-- together again, and then the bytes that are not reported are the bytes appended; each one
-- reported is a single line, with the values that are read of it, at the offset where the one
-- before it ended. Unless the observation was broken off, no line is left unreported or the last
-- poll took 1000 lines; and it is broken off only where a line that cannot be read is among the
-- bytes that are not reported.
pub follow-Lossless :
    (read : List ℕ → Result (List String)) (before : List ℕ) (chunks : List (List ℕ))
    → (start_at_end before).skip_partial ≡ false
    → IsLossless read
        (length before)
        (all_bytes chunks)
        (follow read chunks before 0 (start_at_end before))
unfolding start_at_end line_of
follow-Lossless read before chunks h =
    subst (λ t. IsLossless read (length before) (all_bytes chunks) (follow read chunks before 0 t))
      (sym at_end)
      (subst
        (λ c.
          IsLossless read (length before) (all_bytes chunks)
            (follow read chunks c 0 (at_offset (length before))))
        (append_nil before) (follow-IsLossless read chunks before [] 0 (inr refl)))
  where
    at_end : start_at_end before ≡ at_offset (length before)
    at_end = λ i. record { offset = length before; skip_partial = h i }
