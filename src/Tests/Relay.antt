-- ===== src/Tests/Relay.antt =====
-- A relay archive at concrete inputs: a file of four bytes that comes in two pieces.
use match_trader_api.Common.{
  ℕ, true, false, none, some, List, [], ◌∷◌, str_eq, ok, ◌≡◌, refl, subst, ok_inj, leb,
  if◌then◌else◌, err, drop, length, arith, ◌≤◌,
}
use match_trader_api.Capture.Relay.{Host, Message, Reply, accept, payload_of, status, Archive}
use match_trader_api.Capture.Relay.Prefix.{
  AtOffset, Carries, IsPrefix, accept_all, empty, accept_all-IsPrefix,
}
use match_trader_api.Capture.Relay.Again.{accept-duplicate}
use match_trader_api.Capture.Relay.Feed.{read_pages, read_pages-all}

abbrev host : Host
host = record {
  sha256 = λ p. elim p [ [] ↦ "none" | b ∷ bs ↦ if leb b 2 then "low" else "high" ];
  is_uuid = λ s. str_eq s "u1";
  b64decode = λ s.
      if str_eq s "AQI="
      then some (1 ∷ 2 ∷ [])
      else if str_eq s "AwQ="
      then some (3 ∷ 4 ∷ [])
      else none;
}

abbrev low : Message
low = record {
  version = "1.0.0";
  stream_id = "u1";
  machine = "pc";
  filename = "a.log";
  offset = 0;
  sha256 = "low";
  data_base64 = "AQI=";
}

abbrev high : Message
high = record low { offset = 2; sha256 = "high"; data_base64 = "AwQ=" }

abbrev file : List ℕ
file = 1 ∷ 2 ∷ 3 ∷ 4 ∷ []

abbrev stored_low : Reply
stored_low = record {
  stream_id = "u1";
  offset = 0;
  next_offset = 2;
  sha256 = "low";
  duplicate = false;
}

low-Carries : Carries host "u1" file low
unfolding payload_of match_trader_api.Capture.Relay.Names.is_machine
    match_trader_api.Capture.Relay.Names.is_filename
low-Carries p same e = subst (λ q. AtOffset 0 q file) (ok_inj e) ([], 3 ∷ 4 ∷ [], refl, refl)

high-Carries : Carries host "u1" file high
unfolding payload_of match_trader_api.Capture.Relay.Names.is_machine
    match_trader_api.Capture.Relay.Names.is_filename
high-Carries p same e = subst (λ q. AtOffset 2 q file) (ok_inj e) (1 ∷ 2 ∷ [], [], refl, refl)

accept_all-IsPrefix_example :
    IsPrefix "u1" file (accept_all host ((5, low) ∷ (6, high) ∷ (7, low) ∷ []) empty)
accept_all-IsPrefix_example =
    accept_all-IsPrefix host "u1" file ((5, low) ∷ (6, high) ∷ (7, low) ∷ [])
      (low-Carries, (high-Carries, (low-Carries, tt)))

low_stored : (accept host 5 low empty).0 ≡ ok stored_low
unfolding accept match_trader_api.Capture.Relay.with_payload payload_of
    match_trader_api.Capture.Relay.Names.is_machine match_trader_api.Capture.Relay.Names.is_filename
    match_trader_api.Capture.Relay.stored match_trader_api.Capture.Relay.find_chunk
    match_trader_api.Capture.Relay.other_file match_trader_api.Capture.Relay.find_stream
    match_trader_api.Capture.Relay.expected match_trader_api.Capture.Relay.reply
low_stored = refl

accept-duplicate_example :
    accept host 9 low (accept_all host ((7, high) ∷ []) (accept host 5 low empty).1) ≡ (
      ok (record stored_low { duplicate = true }),
      accept_all host ((7, high) ∷ []) (accept host 5 low empty).1,
    )
accept-duplicate_example =
    accept-duplicate host 5 9 low ((7, high) ∷ []) empty stored_low low_stored

-- The piece that is not next is refused.
gap : (accept host 5 high empty).0 ≡ err "Relay log gap"
unfolding accept match_trader_api.Capture.Relay.with_payload payload_of
    match_trader_api.Capture.Relay.Names.is_machine match_trader_api.Capture.Relay.Names.is_filename
    match_trader_api.Capture.Relay.stored match_trader_api.Capture.Relay.find_chunk
    match_trader_api.Capture.Relay.other_file match_trader_api.Capture.Relay.find_stream
    match_trader_api.Capture.Relay.expected
gap = refl

abbrev both : Archive
both = accept_all host ((5, low) ∷ (6, high) ∷ []) empty

both_held : length (drop 0 both.chunks) ≤ 2
unfolding accept_all accept drop match_trader_api.Capture.Relay.with_payload payload_of
    match_trader_api.Capture.Relay.Names.is_machine match_trader_api.Capture.Relay.Names.is_filename
    match_trader_api.Capture.Relay.stored match_trader_api.Capture.Relay.find_chunk
    match_trader_api.Capture.Relay.other_file match_trader_api.Capture.Relay.find_stream
    match_trader_api.Capture.Relay.expected match_trader_api.Capture.Relay.insert
    match_trader_api.Capture.Relay.new_chunk match_trader_api.Capture.Relay.put_stream
both_held = omega arith

read_pages-all_example : read_pages 2 1 0 both ≡ drop 0 both.chunks
read_pages-all_example = read_pages-all 2 1 0 both (omega arith) (omega arith) both_held

two_chunks : (status both).chunks ≡ 2
unfolding accept_all accept status match_trader_api.Capture.Relay.with_payload payload_of
    match_trader_api.Capture.Relay.Names.is_machine match_trader_api.Capture.Relay.Names.is_filename
    match_trader_api.Capture.Relay.stored match_trader_api.Capture.Relay.find_chunk
    match_trader_api.Capture.Relay.other_file match_trader_api.Capture.Relay.find_stream
    match_trader_api.Capture.Relay.expected match_trader_api.Capture.Relay.insert
    match_trader_api.Capture.Relay.new_chunk match_trader_api.Capture.Relay.put_stream
two_chunks = refl
