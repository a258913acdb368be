-- ===== src/Capture/Relay/Again.antt =====
-- A message that was accepted is accepted again, and changes nothing.
use match_trader_api.Common.{
  ℕ, Bool, true, false, not, ◌&&◌, ◌==◌, Option, none, some, List, [], ◌∷◌, ◌++◌, str_eq, Result,
  ok, err, crash, if◌then◌else◌, ◌>>=◌, ◌≡◌, refl, ap, ◌∙◌, bind_ok, ok_inj, arith, if_both,
}
use match_trader_api.Copy.Attempts.{str_refl}
use match_trader_api.Capture.Relay.Prefix.{accept_all}
use match_trader_api.Capture.Relay.{
  Host, Message, Chunk, Stream, Archive, Reply, find_stream, find_chunk, expected, insert,
  new_chunk, stored, with_payload, payload_of, accept, other_file, same_chunk, bytes_eq, reply,
  String,
}

bytes_eq_refl : (p : List ℕ) → bytes_eq p p ≡ true
unfolding bytes_eq
bytes_eq_refl [] = refl
bytes_eq_refl (x ∷ xs) = let ih = bytes_eq_refl xs in ground arith

find_chunk-new :
    (h : Host) (now : ℕ) (m : Message) (p : List ℕ) (cs : List Chunk)
    → find_chunk m.stream_id m.offset cs ≡ none
    → find_chunk m.stream_id m.offset (cs ++ (new_chunk h now m p ∷ []))
      ≡ some (new_chunk h now m p)
unfolding find_chunk new_chunk
find_chunk-new h now m p [] e =
    let s = str_refl m.stream_id in let n = same m.offset in rw (s, n) refl
  where
    same : (n : ℕ) → (n == n) ≡ true
    same n = ground arith
find_chunk-new h now m p (c ∷ cs) e =
    further (str_eq c.stream_id m.stream_id && c.offset == m.offset) e (find_chunk-new h now m p cs)
  where
    further :
        (b : Bool)
        → (if b then some c else find_chunk m.stream_id m.offset cs) ≡ none
        → (find_chunk m.stream_id m.offset cs ≡ none
            → find_chunk m.stream_id m.offset (cs ++ (new_chunk h now m p ∷ []))
              ≡ some (new_chunk h now m p))
        → (if b then some c else find_chunk m.stream_id m.offset (cs ++ (new_chunk h now m p ∷ [])))
          ≡ some (new_chunk h now m p)
    further true x ih = absurd (cc)
    further false x ih = ih x

same_chunk-new :
    (h : Host) (now : ℕ) (m : Message) (p : List ℕ) → same_chunk h m p (new_chunk h now m p) ≡ true
unfolding same_chunk new_chunk
same_chunk-new h now m p =
    let a = str_refl m.machine in
    let b = str_refl m.filename in
    let c = str_refl (h.sha256 p) in let d = bytes_eq_refl p in rw (a, b, c, d) refl

-- The chunk is on record, and is the message's.
unfoldable pub IsStored : Host → Message → List ℕ → Archive → Type 0
IsStored h m p a =
    (c : Chunk) × (find_chunk m.stream_id m.offset a.chunks ≡ some c) × (same_chunk h m p c ≡ true)

stored-IsStored :
    (h : Host) (now : ℕ) (m : Message) (p : List ℕ) (existing : Option Chunk)
    (previous : Option Stream) (a : Archive)
    → find_chunk m.stream_id m.offset a.chunks ≡ existing
    → (d : Bool) → (stored h now m p existing previous a).0 ≡ ok d
    → IsStored h m p (stored h now m p existing previous a).1
unfolding stored IsStored insert
stored-IsStored h now m p (some c) previous a e =
    if_both {A = Result Bool × Archive} (λ r. (d : Bool) → r.0 ≡ ok d → IsStored h m p r.1)
      (same_chunk h m p c) _ _ (λ s. λ d. λ k. (c, e, s)) (λ s. λ d. λ k. absurd (cc))
stored-IsStored h now m p none previous a e =
    if_both {A = Result Bool × Archive} (λ r. (d : Bool) → r.0 ≡ ok d → IsStored h m p r.1)
      (other_file m previous) _ _ (λ s. λ d. λ k. absurd (cc))
      (λ s.
        if_both {A = Result Bool × Archive} (λ r. (d : Bool) → r.0 ≡ ok d → IsStored h m p r.1)
          (not (m.offset == expected previous)) _ _ (λ g. λ d. λ k. absurd (cc))
          (λ g. λ d. λ k.
            (new_chunk h now m p, find_chunk-new h now m p a.chunks e, same_chunk-new h now m p)))

stored_again :
    (h : Host) (later : ℕ) (m : Message) (p : List ℕ) (a : Archive)
    → IsStored h m p a
    → stored h later m p
        (find_chunk m.stream_id m.offset a.chunks)
        (find_stream m.stream_id a.streams)
        a
      ≡ (ok true, a)
unfolding stored IsStored
stored_again h later m p a (c, e, s) = rw (e, s) refl

find_chunk-append :
    (i : String) (n : ℕ) (cs ds : List Chunk) (c : Chunk)
    → find_chunk i n cs ≡ some c
    → find_chunk i n (cs ++ ds) ≡ some c
unfolding find_chunk
find_chunk-append i n [] ds c e = absurd (cc)
find_chunk-append i n (x ∷ xs) ds c e =
    if_both {A = Option Chunk}
      (λ o.
        o ≡ some c
        → (if str_eq x.stream_id i && x.offset == n then some x else find_chunk i n (xs ++ ds))
          ≡ some c)
      (str_eq x.stream_id i && x.offset == n) (some x) (find_chunk i n xs) (λ b k. rw b k)
      (λ b k. rw b (find_chunk-append i n xs ds c k)) e

-- What is stored stays so, whatever comes after it.
insert-IsStored :
    (h : Host) (now : ℕ) (k m : Message) (q p : List ℕ) (a : Archive)
    → IsStored h m p a
    → IsStored h m p (insert h now k q a)
unfolding insert IsStored
insert-IsStored h now k m q p a (c, e, s) =
    (c, find_chunk-append m.stream_id m.offset a.chunks _ c e, s)

stored_kept :
    (h : Host) (now : ℕ) (k m : Message) (q p : List ℕ) (existing : Option Chunk)
    (previous : Option Stream) (a : Archive)
    → IsStored h m p a
    → IsStored h m p (stored h now k q existing previous a).1
unfolding stored
stored_kept h now k m q p (some c) previous a i =
    if_both {A = Result Bool × Archive} (λ r. IsStored h m p r.1) (same_chunk h k q c) _ _ (λ _. i)
      (λ _. i)
stored_kept h now k m q p none previous a i =
    if_both {A = Result Bool × Archive} (λ r. IsStored h m p r.1) (other_file k previous) _ _
      (λ _. i)
      (λ _.
        if_both {A = Result Bool × Archive} (λ r. IsStored h m p r.1)
          (not (k.offset == expected previous)) _ _ (λ _. i)
          (λ _. insert-IsStored h now k m q p a i))

accept_kept :
    (h : Host) (now : ℕ) (k m : Message) (p : List ℕ) (a : Archive)
    → IsStored h m p a
    → IsStored h m p (accept h now k a).1
unfolding accept with_payload
accept_kept h now k m p a i = by_payload (payload_of h k)
  where
    by_payload : (q : Result (List ℕ)) → IsStored h m p (with_payload h now k a q).1
    by_payload (err x) = i
    by_payload (crash x) = i
    by_payload (ok q) = stored_kept h now k m q p _ _ a i

accept_all_kept :
    (h : Host) (ms : List (ℕ × Message)) (m : Message) (p : List ℕ) (a : Archive)
    → IsStored h m p a
    → IsStored h m p (accept_all h ms a)
unfolding accept_all
accept_all_kept h [] m p a i = i
accept_all_kept h ((now, k) ∷ ms) m p a i =
    accept_all_kept h ms m p (accept h now k a).1 (accept_kept h now k m p a i)

-- A message that was accepted is accepted whenever it comes once more, whatever was delivered in
-- between, with the same answer but for its mark as a duplicate, and the archive stays as it is.
pub accept-duplicate :
    (h : Host) (now later : ℕ) (m : Message) (ms : List (ℕ × Message)) (a : Archive) (r : Reply)
    → (accept h now m a).0 ≡ ok r
    → accept h later m (accept_all h ms (accept h now m a).1)
      ≡ (ok (record r { duplicate = true }), accept_all h ms (accept h now m a).1)
unfolding accept with_payload reply
accept-duplicate h now later m ms a r = by_payload (payload_of h m)
  where
    by_payload :
        (q : Result (List ℕ))
        → (with_payload h now m a q).0 ≡ ok r
        → with_payload h later m (accept_all h ms (with_payload h now m a q).1) q
          ≡ (ok (record r { duplicate = true }), accept_all h ms (with_payload h now m a q).1)
    by_payload (err x) e = absurd (cc)
    by_payload (crash x) e = absurd (cc)
    by_payload (ok p) e = bind_ok done.0 _ e λ d k g.
        ap (λ x. (x.0 >>= λ d. ok (reply h m p d), x.1))
          (stored_again h later m p (accept_all h ms done.1) (
            accept_all_kept h ms m p done.1 (
              stored-IsStored h now m p (find_chunk m.stream_id m.offset a.chunks)
                (find_stream m.stream_id a.streams) a refl d k)))
        ∙ ap (λ z. (ok (record z { duplicate = true }), accept_all h ms done.1)) (ok_inj g)
      where
        done : Result Bool × Archive
        done =
            stored h now m p (find_chunk m.stream_id m.offset a.chunks)
              (find_stream m.stream_id a.streams) a
