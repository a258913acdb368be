-- ===== src/Capture/Relay/Prefix.antt =====
-- The archive of a stream is an initial piece of the file that its sender reads.
use match_trader_api.Common.{
  ℕ, String, Bool, true, false, not, ◌==◌, ◌+◌, Option, none, some, List, [], ◌∷◌, ◌++◌, length,
  str_eq, Result, ok, err, crash, if◌then◌else◌, ◌≡◌, refl, sym, ap, ◌∙◌, subst, arith, eq_iff,
  Bool-cases, inl, inr, All, append_assoc, append_nil, ◌⊎◌, length-append, if_both,
}
use match_trader_api.Copy.Attempts.{str_apart}
use match_trader_api.Capture.Relay.{
  Host, Message, Chunk, Stream, Archive, put_stream, find_stream, find_chunk, expected, insert,
  new_chunk, stored, with_payload, payload_of, accept, other_file, same_chunk,
}

-- The bytes that are kept of a stream, in the order in which its chunks came.
unfoldable pub content : String → List Chunk → List ℕ
content i [] = []
content i (c ∷ cs) =
    let rest = content i cs in if str_eq c.stream_id i then c.payload ++ rest else rest

-- Deliveries, each at its time; what they are answered is left out.
unfoldable pub accept_all : Host → List (ℕ × Message) → Archive → Archive
accept_all h [] a = a
accept_all h ((now, m) ∷ ms) a = accept_all h ms (accept h now m a).1

abbrev pub AtOffset : ℕ → List ℕ → List ℕ → Type 0
AtOffset n p file =
    (before : List ℕ) × (after : List ℕ) × (length before ≡ n) × (before ++ (p ++ after) ≡ file)

-- What a message of the stream carries stands at its offset in the file.
abbrev pub Carries : Host → String → List ℕ → Message → Type 0
Carries h i file m =
    (p : List ℕ) → str_eq m.stream_id i ≡ true → payload_of h m ≡ ok p → AtOffset m.offset p file

unfoldable pub IsPrefix : String → List ℕ → Archive → Type 0
IsPrefix i file a =
    (rest : List ℕ) × (content i a.chunks ++ rest ≡ file)
    × (expected (find_stream i a.streams) ≡ length (content i a.chunks))

content-append :
    (i : String) (cs : List Chunk) (c : Chunk)
    → content i (cs ++ (c ∷ []))
      ≡ (if str_eq c.stream_id i then content i cs ++ c.payload else content i cs)
unfolding content
content-append i [] c =
    if_both (λ l. l ≡ (if str_eq c.stream_id i then c.payload else [])) (str_eq c.stream_id i) _ _
      (λ e. rw e (append_nil c.payload)) (λ e. rw e refl)
content-append i (d ∷ cs) c =
    split (str_eq c.stream_id i) (str_eq d.stream_id i) (content-append i cs c)
  where
    split :
        (x y : Bool)
        → content i (cs ++ (c ∷ [])) ≡ (if x then content i cs ++ c.payload else content i cs)
        → (if y then d.payload ++ content i (cs ++ (c ∷ [])) else content i (cs ++ (c ∷ []))) ≡ (
            if x
            then (if y then d.payload ++ content i cs else content i cs) ++ c.payload
            else (if y then d.payload ++ content i cs else content i cs))
    split true true ih =
        ap (λ l. d.payload ++ l) ih ∙ sym (append_assoc d.payload (content i cs) c.payload)
    split true false ih = ih
    split false true ih = ap (λ l. d.payload ++ l) ih
    split false false ih = ih

split_unique : (a b c d : List ℕ) → length a ≡ length c → a ++ b ≡ c ++ d → (a ≡ c) × (b ≡ d)
split_unique [] b [] d e h = (refl, h)
split_unique [] b (y ∷ c) d e h = absurd (omega (arith, e))
split_unique (x ∷ a) b [] d e h = absurd (omega (arith, e))
split_unique (x ∷ a) b (y ∷ c) d e h =
    let ih = split_unique a b c d (omega (arith, e)) (cc) in (cc, ih.1)

find-put :
    (i : String) (s : Stream) (ss : List Stream)
    → expected (find_stream i (put_stream s ss))
      ≡ (if str_eq s.stream_id i then s.next_offset else expected (find_stream i ss))
unfolding find_stream put_stream expected
find-put i s [] = ground arith
find-put i s (t ∷ ts) =
    split (Bool-cases (str_eq t.stream_id s.stream_id)) (Bool-cases (str_eq t.stream_id i))
      (find-put i s ts)
  where
    split :
        (str_eq t.stream_id s.stream_id ≡ true) ⊎ (str_eq t.stream_id s.stream_id ≡ false)
        → (str_eq t.stream_id i ≡ true) ⊎ (str_eq t.stream_id i ≡ false)
        → expected (find_stream i (put_stream s ts))
          ≡ (if str_eq s.stream_id i then s.next_offset else expected (find_stream i ts))
        → expected (find_stream i (put_stream s (t ∷ ts)))
          ≡ (if str_eq s.stream_id i then s.next_offset else expected (find_stream i (t ∷ ts)))
    split (inl e) (inl k) ih =
        let same = sym (ap (λ x. str_eq x i) ((eq_iff t.stream_id s.stream_id).0 e)) ∙ k in
        rw (e, k, same) refl
    split (inl e) (inr k) ih =
        let same = sym (ap (λ x. str_eq x i) ((eq_iff t.stream_id s.stream_id).0 e)) ∙ k in
        rw (e, k, same) refl
    split (inr e) (inl k) ih =
        let other = subst (λ x. str_eq x s.stream_id ≡ false) ((eq_iff t.stream_id i).0 k) e in
        let apart = str_apart i s.stream_id other in rw (e, k, apart) refl
    split (inr e) (inr k) ih = rw (e, k) ih

if_true {ℓ} : {A : Type ℓ} {b : Bool} (x y : A) → b ≡ true → (if b then x else y) ≡ x
if_true x y e = rw e refl

if_false {ℓ} : {A : Type ℓ} {b : Bool} (x y : A) → b ≡ false → (if b then x else y) ≡ y
if_false x y e = rw e refl

insert-IsPrefix :
    (h : Host) (i : String) (file : List ℕ) (now : ℕ) (m : Message) (p : List ℕ) (a : Archive)
    → IsPrefix i file a
    → (str_eq m.stream_id i ≡ true
        → (m.offset ≡ expected (find_stream i a.streams)) × AtOffset m.offset p file)
    → IsPrefix i file (insert h now m p a)
unfolding IsPrefix insert new_chunk
insert-IsPrefix h i file now m p a (rest, whole, next) here =
    elim (Bool-cases (str_eq m.stream_id i)) [
      | inl e ↦
          (let (off, (before, after, at, cut)) = here e in
            let kept = content-append i a.chunks (new_chunk h now m p) ∙ if_true _ _ e in
            let (same, more) =
              split_unique (content i a.chunks) rest before (p ++ after)
                (sym next ∙ sym off ∙ sym at) (whole ∙ sym cut) in
            (
              after,
              ap (λ l. l ++ after) kept
                  ∙ append_assoc (content i a.chunks) p after
                  ∙ ap (λ l. content i a.chunks ++ l) (sym more)
                  ∙ whole,
              find-put i _ a.streams
                  ∙ if_true _ _ e
                  ∙ ap (λ n. n + length p) (off ∙ next)
                  ∙ sym (length-append (content i a.chunks) p)
                  ∙ sym (ap length kept),
            ))
      | inr e ↦
          (let kept = content-append i a.chunks (new_chunk h now m p) ∙ if_false _ _ e in
            (
              rest,
              ap (λ l. l ++ rest) kept ∙ whole,
              find-put i _ a.streams ∙ if_false _ _ e ∙ next ∙ sym (ap length kept),
            ))
    ]

equal : (a b : ℕ) → not (a == b) ≡ false → a ≡ b
equal a b h = ground arith

stored-IsPrefix :
    (h : Host) (i : String) (file : List ℕ) (now : ℕ) (m : Message) (p : List ℕ)
    (existing : Option Chunk) (a : Archive)
    → IsPrefix i file a
    → (str_eq m.stream_id i ≡ true → AtOffset m.offset p file)
    → IsPrefix i file (stored h now m p existing (find_stream m.stream_id a.streams) a).1
unfolding stored
stored-IsPrefix h i file now m p (some c) a inv at =
    if_both {A = Result Bool × Archive} (λ r. IsPrefix i file r.1) (same_chunk h m p c) _ _
      (λ _. inv) (λ _. inv)
stored-IsPrefix h i file now m p none a inv at =
    if_both {A = Result Bool × Archive} (λ r. IsPrefix i file r.1) (other_file m _) _ _ (λ _. inv)
      (λ _.
        if_both {A = Result Bool × Archive} (λ r. IsPrefix i file r.1)
          (not (m.offset == expected (find_stream m.stream_id a.streams))) _ _ (λ _. inv)
          (λ g. insert-IsPrefix h i file now m p a inv (λ e. (
            equal _ _ g ∙ ap (λ x. expected (find_stream x a.streams)) ((eq_iff m.stream_id i).0 e),
            at e,
          ))))

accept-IsPrefix :
    (h : Host) (i : String) (file : List ℕ) (now : ℕ) (m : Message) (a : Archive)
    → Carries h i file m
    → IsPrefix i file a
    → IsPrefix i file (accept h now m a).1
unfolding accept with_payload
accept-IsPrefix h i file now m a fits inv = by_payload (payload_of h m) refl
  where
    by_payload :
        (r : Result (List ℕ)) → payload_of h m ≡ r → IsPrefix i file (with_payload h now m a r).1
    by_payload (ok p) e =
        stored-IsPrefix h i file now m p (find_chunk m.stream_id m.offset a.chunks) a inv
          (λ k. fits p k e)
    by_payload (err x) e = inv
    by_payload (crash x) e = inv

abbrev pub empty : Archive
empty = record { chunks = []; streams = [] }

-- Where the messages of a stream carry the bytes that stand at their offsets in one file, in any
-- order and however often, and among any messages of other streams: an archive that was empty
-- holds for the stream, in the order of its chunks, a first piece of that file, and expects the
-- stream to go on just after it.
pub accept_all-IsPrefix :
    (h : Host) (i : String) (file : List ℕ) (ms : List (ℕ × Message))
    → All (λ d. Carries h i file d.1) ms
    → IsPrefix i file (accept_all h ms empty)
unfolding accept_all IsPrefix content expected find_stream
accept_all-IsPrefix h i file ms fits = onward ms empty fits (file, refl, refl)
  where
    onward :
        (ms : List (ℕ × Message)) (a : Archive)
        → All (λ d. Carries h i file d.1) ms
        → IsPrefix i file a
        → IsPrefix i file (accept_all h ms a)
    onward [] a fits inv = inv
    onward ((now, m) ∷ more) a fits inv =
        onward more (accept h now m a).1 fits.1 (accept-IsPrefix h i file now m a fits.0 inv)
