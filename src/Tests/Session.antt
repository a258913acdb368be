-- ===== src/Tests/Session.antt =====
-- Session renewal and requests at concrete inputs.
use match_trader_api.Core.Request.Act.{
  ◌>>=◌, ask, raise_if, done, modify, raise, after, json, lost, response, Data, Connection, Call,
  Settings,
}
use match_trader_api.Core.Request.Session.{
  ready, renew, or_expire, login, send, exchange, adopt, rescue, bad_status, built_body, expiring,
  history_full, is_authentication, is_rejected, judge, manager, only, own_session, partner_of,
  read_body, refresh, refreshed, rescued, reserve, request,
}
use match_trader_api.Core.Request.Names.{is_name}
use match_trader_api.Common.{
  ◌≡◌, ◌≤◌, ◌↔◌, ◌+◌, refl, true, false, some, none, List, [], ◌∷◌, ℕ, arith, ◌&&◌,
}
use match_trader_api.Core.Renewal.Limit.{Rising, granted, Hourly, renewals-Hourly}
use match_trader_api.Core.Request.Adds.{writes, flag}
use match_trader_api.Core.Renewal.{
  Session, Renewer, Clocks, renewed, renewal_delay, delay_by, renewal_due, fire, reserve_renewal,
  drop_old,
}
use match_trader_api.Core.Renewal.Due.{later, after_firings, renewal_delay-due, fire-Renews}
use match_trader_api.Core.Request.Once.{request-Once}

-- Five renewals at once, and one more an hour later.
abbrev readings : List ℕ
readings = 0 ∷ 10 ∷ 20 ∷ 30 ∷ 40 ∷ 3600 ∷ []

renewals-Hourly_example : Hourly (granted readings [] [])
unfolding Rising
renewals-Hourly_example =
    renewals-Hourly readings
      (omega arith, (omega arith, (omega arith, (omega arith, (omega arith, (omega arith, tt))))))

fifth_refused : granted readings [] [] ≡ 3600 ∷ 30 ∷ 20 ∷ 10 ∷ 0 ∷ []
unfolding granted reserve_renewal drop_old
fifth_refused = refl

abbrev clocks : Clocks
clocks = record { wall = 100; monotonic = 7 }

abbrev session : Session
session = record { closed = false; has_token = true; expiry = some 5000; expires = 900 }

renewal_delay-due_example :
    (w : ℕ) × ((renewal_delay 120 clocks session ≡ some w)
      × ((renewal_due 120 (later 4780 clocks) session ≡ true) ↔ (w ≤ 4780)))
renewal_delay-due_example = renewal_delay-due 120 4780 clocks session refl

abbrev renewer : Renewer
renewer = record { margin = 120; min_delay = 1; backoff = 60; max_delay = 1000 }

abbrev next : Session
next = record session { expiry = some 9000 }

fire-Renews_example :
    (fire renewer (after_firings renewer 5 (λ n. n) clocks session) (renewed next) false session).0
    ≡ next
unfolding delay_by
fire-Renews_example = fire-Renews renewer (λ n. n) clocks session next 5 refl (omega arith)

abbrev settings : Settings
settings = record {
  account_id = "77";
  email = "a@b";
  password = "x";
  broker_id = "9";
  system_uuid = "";
  by_refresh = false;
  account_cookie = false;
  enable_writes = true;
}

abbrev login_data : Data
login_data = record {
  status = none;
  operations = false;
  token = "new";
  accounts = record { id = "77"; system = "sys-1"; api_token = "api"; account_token = "" } ∷ [];
  selected = none;
  names_accounts = true;
  partner = "";
}

abbrev write_call : Call
write_call = record {
  trading = true;
  write = true;
  safe_read = false;
  cancels = false;
  history = false;
}

-- The session is old: it is renewed, and then the answer to the write is lost.
abbrev connection : Connection
connection = record {
  is_closed = false;
  session_token = "old";
  trading_token = "api";
  account_token = "";
  system = "sys-1";
  expires = 10;
  identity = "a@b";
  refresh_times = [];
  account_id = "77";
  answers = response 200 (json login_data) ∷ lost ∷ [];
  jar = "";
  calls = [];
}

request-Once_example :
    writes (request settings 20 write_call connection).1.calls ≤ flag (true && true) + 0
unfolding writes
request-Once_example = request-Once settings 20 write_call connection refl

one_write : (request settings 20 write_call connection).1.calls ≡ true ∷ false ∷ []
unfolding request ◌>>=◌ ask raise_if done modify raise after ready renew or_expire login send
    exchange adopt rescue bad_status built_body expiring history_full is_authentication is_rejected
    judge manager only own_session partner_of read_body refresh refreshed rescued reserve
    reserve_renewal drop_old is_name
one_write = refl
