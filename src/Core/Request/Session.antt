-- ===== src/Core/Request/Session.antt =====
-- v4/src/matchtrader/core/rest_connection.py: `_send`, `_adopt`, `_login`, `_refresh`, `_renew` and
-- `request`, as actions on the connection that return or raise. Times are in seconds.
use match_trader_api.Common.{
  true, false, some, none, if◌then◌else◌, String, ℕ, Bool, List, [], Option, ◌&&◌, not, is_text,
  ◌∷◌, ◌==◌, str_eq, leb, ◌+◌, ◌||◌,
}
use match_trader_api.Core.Renewal.{reserve_renewal}
use match_trader_api.Core.Request.Names.{is_name}
use match_trader_api.Core.Request.Act.{
  ◌>>=◌, ◌>>◌, closed, authentication, configuration, protocol, api_error, unknown_outcome,
  writes_disabled, fail, value, empty, garbled, json, lost, response, Settings, Data, Call, Account,
  Answer, Failure, Act, Connection, Body, ask, modify, raise_if, done, raise, Wire,
}

unfoldable pub take : Connection → Wire × List Wire
take c = elim c.answers [ [] ↦ (lost, []) | w ∷ ws ↦ (w, ws) ]

-- The network's next answer to a call.
unfoldable pub exchange : Bool → Act Wire
unfolding take
exchange write c = (value (take c).0, record c { answers = (take c).1; calls = write ∷ c.calls })

unfoldable pub no_data : Data
no_data = record {
  status = none;
  operations = false;
  token = "";
  accounts = [];
  selected = none;
  names_accounts = false;
  partner = "";
}

unfoldable pub bad_status : Option String → Bool
bad_status none = false
bad_status (some s) = not (str_eq s "OK")

unfoldable pub history_full : Call → Data → Bool
history_full k d =
    not k.write
    && k.trading
    && k.history
    && elim d.status [ none ↦ false | some s ↦ str_eq s "FULL" ]
    && d.operations

unfoldable pub read_body : Call → ℕ → Body → Act (Option Data)
unfolding no_data bad_status history_full
read_body k n empty =
    if n == 204 && k.trading && k.cancels
    then done (some (record no_data { status = some "OK" }))
    else done none
read_body k n garbled = raise (if k.write then unknown_outcome else protocol)
read_body k n (json d) =
    if bad_status d.status && not (history_full k d) then raise api_error else done (some d)

unfoldable pub judge : Call → Wire → Act (Option Data)
unfolding read_body
judge k lost = raise (if k.write then unknown_outcome else api_error)
judge k (response n b) =
    if n == 401
    then raise authentication
    else if leb 300 n
    then raise api_error
    else read_body k n b

-- `_send`.
unfoldable pub send : Settings → Call → Act (Option Data)
unfolding judge
send st k = do
  is_closed ← ask (λ c. c.is_closed)
  raise_if is_closed closed
  lacks ← ask (λ c. not (is_text c.trading_token) || not (is_text c.system))
  raise_if (k.trading && lacks) authentication
  cookie ← ask (λ c. if st.account_cookie then c.account_token else c.session_token)
  raise_if (k.trading && not (is_text cookie)) authentication
  w ← exchange k.write
  judge k w

unfoldable pub manager : Call
manager = record {
  trading = false;
  write = false;
  safe_read = false;
  cancels = false;
  history = false;
}

unfoldable pub named : String → List Account → List Account
named i [] = []
named i (a ∷ more) = let rest = named i more in if str_eq a.id i then a ∷ rest else rest

unfoldable pub only : List Account → Act Account
only (a ∷ []) = done a
only _ = raise authentication

unfoldable pub listed : Data → List Account
listed d = elim d.accounts [
  | [] ↦ elim d.selected [ none ↦ [] | some a ↦ a ∷ [] ]
  | a ∷ more ↦ a ∷ more
]

unfoldable pub chosen : Settings → Data → List Account
unfolding listed named
chosen st d = if is_text st.account_id then named st.account_id (listed d) else listed d

-- `_adopt`.
unfoldable pub adopt : Settings → ℕ → Option Data → String → Act (Unit {0})
unfolding only chosen
adopt st now none identity = raise protocol
adopt st now (some d) identity = do
  raise_if (not (is_text d.token)) protocol
  a ← only (chosen st d)
  let system = if is_text st.system_uuid then st.system_uuid else a.system
  raise_if (not (is_text system && is_name system)) protocol
  raise_if (not (is_text a.api_token)) protocol
  modify λ c. record c {
    session_token = d.token;
    trading_token = a.api_token;
    account_token = a.account_token;
    system = system;
    account_id = a.id;
    identity = identity;
    expires = now + 900;
  }

unfoldable pub partner_of : Option Data → Act (Unit {0})
partner_of none = raise protocol
partner_of (some d) = raise_if (not (is_text d.partner)) protocol

-- The body that `_login` builds from the settings: the broker is asked for where it is not set.
unfoldable pub built_body : Settings → Act String
unfolding manager partner_of
built_body st = do
  raise_if (not (is_text st.email) || not (is_text st.password)) authentication
  if is_text st.broker_id then done tt else (send st manager >>= partner_of)
  done st.email

-- `_login`, with the email of a body that is given.
unfoldable pub login : Settings → ℕ → Option String → (one_time : Bool) → Act (Option Data)
unfolding manager built_body
login st now body one_time = do
  identity ← elim body [ none ↦ built_body st | some e ↦ done e ]
  other ← ask (λ c. is_text c.session_token && (one_time || not (str_eq c.identity identity)))
  raise_if other configuration
  d ← send st manager
  modify (λ c. record c { session_token = ""; trading_token = ""; account_token = "" })
  adopt st now d identity
  done d

-- `_reserve_renewal`.
unfoldable pub reserve : ℕ → Act (Unit {0})
reserve now c =
    let r = reserve_renewal now c.refresh_times in
    (if r.0 then value tt else fail authentication, record c { refresh_times = r.1 })

-- `except Exception: self._expires = 0; raise`.
unfoldable pub expiring : {R : Type 0} → Answer R × Connection → Answer R × Connection
expiring (fail e, c) = (fail e, record c { expires = 0 })
expiring (value r, c) = (value r, c)

unfoldable pub or_expire : {R : Type 0} → Act R → Act R
unfolding expiring
or_expire act c = expiring (act c)

unfoldable pub refreshed : Settings → ℕ → Option Data → Act (Unit {0})
refreshed st now none =
    modify λ c. record c { session_token = if is_text c.jar then c.jar else c.session_token }
refreshed st now (some d) =
    if is_text d.token
    then if d.names_accounts
      then (ask (λ c. c.identity) >>= adopt st now (some d))
      else modify (λ c. record c { session_token = d.token })
    else modify λ c. record c { session_token = if is_text c.jar then c.jar else c.session_token }

-- `_refresh`.
unfoldable pub refresh : Settings → ℕ → Act (Option Data)
unfolding manager reserve refreshed
refresh st now = do
  token ← ask (λ c. c.session_token)
  raise_if (not (is_text token)) authentication
  reserve now
  or_expire (do
    d ← send st manager
    refreshed st now d
    modify (λ c. record c { expires = now + 900 })
    done d)

unfoldable pub is_rejected : Failure → Bool
is_rejected api_error = true
is_rejected authentication = true
is_rejected protocol = true
is_rejected unknown_outcome = true
is_rejected _ = false

-- `except`: what runs after a failure of these kinds.
unfoldable pub rescued :
    {R : Type 0}
    → (Failure → Bool)
    → (Failure → Act R)
    → Answer R × Connection
    → Answer R × Connection
rescued test handler (fail e, c) = if test e then handler e c else (fail e, c)
rescued test handler (value r, c) = (value r, c)

unfoldable pub rescue : {R : Type 0} → (Failure → Bool) → (Failure → Act R) → Act R → Act R
unfolding rescued
rescue test handler act c = rescued test handler (act c)

unfoldable pub own_session : Settings → Connection → Bool
own_session st c = is_text c.identity && str_eq c.identity st.email && is_text st.account_id

-- `_renew`.
unfoldable pub renew : Settings → ℕ → Act (Option Data)
unfolding is_rejected own_session reserve
renew st now =
    if st.by_refresh
    then rescue is_rejected
        (λ e. do own ← ask (own_session st); if own then login st now none false else raise e)
        (refresh st now)
    else do
      token ← ask (λ c. c.session_token)
      raise_if (not (is_text token)) authentication
      foreign ← ask (λ c. not (str_eq c.identity st.email))
      raise_if foreign configuration
      reserve now
      or_expire (login st now none false)

-- Before a trading call: whether the session was renewed.
unfoldable pub ready : Settings → ℕ → Act Bool
ready st now = do
  fresh ← ask (λ c. not (is_text c.session_token))
  old ← ask (λ c. leb c.expires now)
  if fresh
      then (login st now none false >> done false)
      else if old
      then (renew st now >> done true)
      else done false

unfoldable pub is_authentication : Failure → Bool
is_authentication authentication = true
is_authentication _ = false

-- `request`, for a call that is no login or refresh.
unfoldable pub request : Settings → ℕ → Call → Act (Option Data)
unfolding is_authentication
request st now k = do
  is_closed ← ask (λ c. c.is_closed)
  raise_if is_closed closed
  raise_if (k.write && not st.enable_writes) writes_disabled
  was_renewed ← if k.trading then ready st now else done false
  rescue is_authentication
      (λ e.
        if not k.trading || not k.safe_read || was_renewed
        then raise e
        else (renew st now >> send st k))
      (send st k)
