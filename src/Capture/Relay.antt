-- ===== src/Capture/Relay.antt =====
-- v4/src/matchtrader/capture/relay_store.py: RelayLogStore. The envelope's fields have their types;
-- an answer leaves out its version and "durable", which never change.
pub mod Names
pub mod Prefix
pub mod Again
pub mod Feed
use match_trader_api.Common.{
  ℕ, String, Bool, true, false, not, ◌&&◌, ◌||◌, ◌==◌, ◌+◌, Option, none, some, List, [], ◌∷◌, ◌++◌,
  length, str_eq, leb, Result, ok, err, crash, ◌>>=◌, ◌>>◌, refuse_if, drop, zero, suc, max,
  if◌then◌else◌,
}
use match_trader_api.Capture.Relay.Names.{is_filename, is_machine}

-- What the standard library gives: `hashlib.sha256`, `UUID` and `base64.b64decode`.
pub record Host : Type 0 where
  pub sha256 : List ℕ → String
  pub is_uuid : String → Bool
  pub b64decode : String → Option (List ℕ)

pub record Message : Type 0 where
  pub version : String
  pub stream_id : String
  pub machine : String
  pub filename : String
  pub offset : ℕ
  pub sha256 : String
  pub data_base64 : String

-- A row of `chunks`; its seq is its place in the list, from 1.
pub record Chunk : Type 0 where
  pub stream_id : String
  pub machine : String
  pub filename : String
  pub offset : ℕ
  pub digest : String
  pub payload : List ℕ
  pub received_at : ℕ

-- A row of `streams`.
pub record Stream : Type 0 where
  pub stream_id : String
  pub machine : String
  pub filename : String
  pub next_offset : ℕ

pub record Archive : Type 0 where
  pub chunks : List Chunk
  pub streams : List Stream

abbrev pub chunk_bytes : ℕ
chunk_bytes = 8192

-- 2 ** 63 - CHUNK_BYTES.
abbrev pub last_offset : ℕ
last_offset = 9223372036854767616

decoded : Option (List ℕ) → Result (List ℕ)
decoded none = err "Invalid log bytes"
decoded (some p) = ok p

sized : List ℕ → Bool
sized p = leb 1 (length p) && leb (length p) chunk_bytes

-- The checks of the envelope: the bytes that it carries.
unfoldable pub payload_of : Host → Message → Result (List ℕ)
unfolding decoded sized
payload_of h m = do
  refuse_if (not (str_eq m.version "1.0.0")) "Unsupported relay envelope version"
  refuse_if (not (h.is_uuid m.stream_id)) "badly formed hexadecimal UUID string"
  refuse_if (not (is_machine m.machine)) "Invalid machine"
  refuse_if (not (is_filename m.filename)) "Invalid filename"
  refuse_if (not (leb m.offset last_offset)) "Invalid offset"
  payload ← decoded (h.b64decode m.data_base64)
  refuse_if (not (sized payload) || not (str_eq m.sha256 (h.sha256 payload)))
      "Invalid log checksum or size"
  ok payload

unfoldable pub find_chunk : String → ℕ → List Chunk → Option Chunk
find_chunk i n [] = none
find_chunk i n (c ∷ cs) =
    let rest = find_chunk i n cs in if str_eq c.stream_id i && c.offset == n then some c else rest

unfoldable pub find_stream : String → List Stream → Option Stream
find_stream i [] = none
find_stream i (s ∷ ss) =
    let rest = find_stream i ss in if str_eq s.stream_id i then some s else rest

-- INSERT INTO streams … ON CONFLICT(stream_id) DO UPDATE SET next_offset.
unfoldable pub put_stream : Stream → List Stream → List Stream
put_stream s [] = s ∷ []
put_stream s (t ∷ ts) =
    let rest = put_stream s ts in
    if str_eq t.stream_id s.stream_id
    then record t { next_offset = s.next_offset } ∷ ts
    else t ∷ rest

unfoldable pub bytes_eq : List ℕ → List ℕ → Bool
bytes_eq [] [] = true
bytes_eq [] (y ∷ ys) = false
bytes_eq (x ∷ xs) [] = false
bytes_eq (x ∷ xs) (y ∷ ys) = x == y && bytes_eq xs ys

unfoldable pub new_chunk : Host → ℕ → Message → List ℕ → Chunk
new_chunk h now m p = record {
  stream_id = m.stream_id;
  machine = m.machine;
  filename = m.filename;
  offset = m.offset;
  digest = h.sha256 p;
  payload = p;
  received_at = now;
}

unfoldable pub insert : Host → ℕ → Message → List ℕ → Archive → Archive
insert h now m p a = record {
  chunks = a.chunks ++ (new_chunk h now m p ∷ []);
  streams =
      put_stream
        (record {
          stream_id = m.stream_id;
          machine = m.machine;
          filename = m.filename;
          next_offset = m.offset + length p;
        })
        a.streams;
}

unfoldable pub expected : Option Stream → ℕ
expected none = 0
expected (some s) = s.next_offset

unfoldable pub other_file : Message → Option Stream → Bool
other_file m none = false
other_file m (some s) = not (str_eq s.machine m.machine && str_eq s.filename m.filename)

unfoldable pub same_chunk : Host → Message → List ℕ → Chunk → Bool
same_chunk h m p c =
    str_eq c.machine m.machine
    && str_eq c.filename m.filename
    && str_eq c.digest (h.sha256 p)
    && bytes_eq c.payload p

-- The transaction: whether the chunk is a duplicate.
unfoldable pub stored :
    Host
    → ℕ
    → Message
    → List ℕ
    → (existing : Option Chunk) → (previous : Option Stream) → Archive
    → Result Bool × Archive
stored h now m p (some c) previous a =
    if same_chunk h m p c then (ok true, a) else (err "Relay identity conflict", a)
stored h now m p none previous a =
    if other_file m previous
    then (err "Relay stream identity conflict", a)
    else if not (m.offset == expected previous)
    then (err "Relay log gap", a)
    else (ok false, insert h now m p a)

pub record Reply : Type 0 where
  pub stream_id : String
  pub offset : ℕ
  pub next_offset : ℕ
  pub sha256 : String
  pub duplicate : Bool

unfoldable pub reply : Host → Message → List ℕ → Bool → Reply
reply h m p d = record {
  stream_id = m.stream_id;
  offset = m.offset;
  next_offset = m.offset + length p;
  sha256 = h.sha256 p;
  duplicate = d;
}

unfoldable pub with_payload :
    Host → ℕ → Message → Archive → Result (List ℕ) → Result Reply × Archive
with_payload h now m a (crash e) = (crash e, a)
with_payload h now m a (err e) = (err e, a)
with_payload h now m a (ok p) =
    let done =
      stored h now m p (find_chunk m.stream_id m.offset a.chunks)
        (find_stream m.stream_id a.streams) a in
    (done.0 >>= λ d. ok (reply h m p d), done.1)

-- `accept`.
unfoldable pub accept : Host → ℕ → Message → Archive → Result Reply × Archive
accept h now m a = with_payload h now m a (payload_of h m)

unfoldable pub take {ℓ} : {A : Type ℓ} → ℕ → List A → List A
take zero xs = []
take (suc n) [] = []
take (suc n) (x ∷ xs) = x ∷ take n xs

pub record Page : Type 0 where
  pub records : List Chunk
  pub next_after : ℕ

-- `feed`, where a record keeps its bytes: the seq of a chunk is its place, so that those with a
-- seq above `after` are what follows the first `after` of them.
unfoldable pub feed : (after limit : ℕ) → Archive → Result Page
feed after limit a =
    let rows = take limit (drop after a.chunks) in
    if leb 1 limit && leb limit 100
    then ok (record { records = rows; next_after = after + length rows })
    else err "Invalid relay page"

-- `status`: the counts of chunks, of bytes and of streams.
unfoldable pub count_bytes : List Chunk → ℕ
count_bytes [] = 0
count_bytes (c ∷ cs) = length c.payload + count_bytes cs

unfoldable pub last_received : List Chunk → Option ℕ
last_received [] = none
last_received (c ∷ cs) = elim (last_received cs) [
  | none ↦ some c.received_at
  | some n ↦ some (max c.received_at n)
]

pub record Status : Type 0 where
  pub chunks : ℕ
  pub bytes : ℕ
  pub last_received_at : Option ℕ
  pub streams : ℕ

unfoldable pub status : Archive → Status
status a = record {
  chunks = length a.chunks;
  bytes = count_bytes a.chunks;
  last_received_at = last_received a.chunks;
  streams = length a.streams;
}
