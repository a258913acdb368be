-- ===== src/Capture/Relay/Feed.antt =====
-- Reading an archive page by page.
use match_trader_api.Common.{
  ℕ, zero, suc, ◌+◌, ◌≤◌, true, ◌&&◌, List, [], ◌∷◌, ◌++◌, length, drop, leb, Result, ok, err,
  crash, ◌≡◌, refl, sym, ap, ◌∙◌, subst, arith, ◌⊎◌, inl, inr, length-append,
}
use match_trader_api.Capture.Relay.{Chunk, Archive, Page, feed, take}

more_of : Result Page → (Page → List Chunk) → List Chunk
more_of (ok p) next = p.records ++ next p
more_of (err e) next = []
more_of (crash e) next = []

-- `n` pages, each asked for from where the one before it ended.
unfoldable pub read_pages : (n limit after : ℕ) → Archive → List Chunk
unfolding more_of
read_pages zero limit after a = []
read_pages (suc n) limit after a =
    more_of (feed after limit a) (λ p. read_pages n limit p.next_after a)

take-rest {ℓ} : {A : Type ℓ} (n : ℕ) (xs : List A) → take n xs ++ drop (length (take n xs)) xs ≡ xs
unfolding take drop
take-rest zero xs = refl
take-rest (suc n) [] = refl
take-rest (suc n) (x ∷ xs) = ap (λ l. x ∷ l) (take-rest n xs)

take-nothing {ℓ} : {A : Type ℓ} (n k : ℕ) → take {A = A} n [] ++ drop k [] ≡ []
unfolding take drop
take-nothing zero zero = refl
take-nothing zero (suc k) = refl
take-nothing (suc n) zero = refl
take-nothing (suc n) (suc k) = refl

take-drop {ℓ} :
    {A : Type ℓ} (n k : ℕ) (xs : List A)
    → take n (drop k xs) ++ drop (k + length (take n (drop k xs))) xs ≡ drop k xs
unfolding drop
take-drop n zero xs =
    subst (λ k. take n xs ++ drop k xs ≡ xs) (from_start (length (take n xs))) (take-rest n xs)
  where
    from_start : (m : ℕ) → m ≡ 0 + m
    from_start m = omega arith
take-drop n (suc k) [] = take-nothing n _
take-drop n (suc k) (x ∷ xs) =
    subst (λ m. take n (drop k xs) ++ drop m (x ∷ xs) ≡ drop k xs)
      (one_more (length (take n (drop k xs)))) (take-drop n k xs)
  where
    one_more : (m : ℕ) → suc (k + m) ≡ suc k + m
    one_more m = omega arith

-- A page is empty only at the end.
take-any {ℓ} :
    {A : Type ℓ} (n : ℕ) (xs : List A) → 1 ≤ n → (1 ≤ length (take n xs)) ⊎ (length xs ≡ 0)
unfolding take
take-any zero xs h = absurd (omega (arith, h))
take-any (suc n) [] h = inr refl
take-any (suc n) (x ∷ xs) h = inl (omega arith)

nothing_left {ℓ} : {A : Type ℓ} (xs : List A) → length xs ≤ 0 → xs ≡ []
nothing_left [] h = refl
nothing_left (x ∷ xs) h = absurd (omega (arith, h))

allowed : (limit : ℕ) → 1 ≤ limit → limit ≤ 100 → (leb 1 limit && leb limit 100) ≡ true
allowed limit a b = ground arith

shorter {ℓ} :
    {A : Type ℓ} (page left : List A) (n : ℕ) (all : List A)
    → page ++ left ≡ all
    → (1 ≤ length page) ⊎ (length all ≡ 0)
    → length all ≤ suc n
    → length left ≤ n
shorter page left n all e any h =
    let both = sym (length-append page left) ∙ ap length e in
    elim any [ inl p ↦ omega (arith, both, p, h) | inr z ↦ omega (arith, both, z) ]

-- Pages of a size that is allowed, as many as there are chunks past `after`, are all of these
-- chunks, each once and in order.
pub read_pages-all :
    (n limit after : ℕ) (a : Archive)
    → 1 ≤ limit
    → limit ≤ 100
    → length (drop after a.chunks) ≤ n
    → read_pages n limit after a ≡ drop after a.chunks
unfolding read_pages feed more_of
read_pages-all zero limit after a low high enough = sym (nothing_left _ enough)
read_pages-all (suc n) limit after a low high enough =
    let page = take limit (drop after a.chunks) in
    let parts = take-drop limit after a.chunks in
    let on = read_pages-all n limit (after + length page) a low high (
      shorter page _ n (drop after a.chunks) parts (take-any limit (drop after a.chunks) low)
        enough) in
    let ok_page = allowed limit low high in rw ok_page (ap (λ l. page ++ l) on ∙ parts)
