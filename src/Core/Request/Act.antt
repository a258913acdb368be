-- ===== src/Core/Request/Act.antt =====
-- v4/src/matchtrader/core/rest_connection.py: the connection, the network's answers, and actions
-- that return or raise.
use match_trader_api.Common.{if◌then◌else◌, String, ℕ, Bool, List, Option}

pub data Failure : Type 0 where
  closed authentication configuration protocol api_error : Failure
  unknown_outcome writes_disabled : Failure

pub data Answer (R : Type 0) : Type 0 where
  fail : Failure → Answer R
  value : R → Answer R

pub record Account : Type 0 where
  pub id : String
  pub system : String
  pub api_token : String
  pub account_token : String

-- What is read of a JSON object. `names_accounts` is whether one of the account keys is in it.
pub record Data : Type 0 where
  pub status : Option String
  pub operations : Bool
  pub token : String
  pub accounts : List Account
  pub selected : Option Account
  pub names_accounts : Bool
  pub partner : String

pub data Body : Type 0 where
  empty garbled : Body
  json : Data → Body

-- What the network does with one call.
pub data Wire : Type 0 where
  lost : Wire
  response : (status : ℕ) → Body → Wire

pub record Settings : Type 0 where
  pub account_id : String
  pub email : String
  pub password : String
  pub broker_id : String
  pub system_uuid : String
  pub by_refresh : Bool
  pub account_cookie : Bool
  pub enable_writes : Bool

-- A call: `cancels` and `history` are whether its path is the one of a pending order's cancel or
-- of the closed positions.
pub record Call : Type 0 where
  pub trading : Bool
  pub write : Bool
  pub safe_read : Bool
  pub cancels : Bool
  pub history : Bool

-- `answers` are those that the network has in store, and `jar` the cookie of the platform's
-- origin. `calls` is kept for the proofs: whether each call on the wire was a write.
pub record Connection : Type 0 where
  pub is_closed : Bool
  pub session_token : String
  pub trading_token : String
  pub account_token : String
  pub system : String
  pub expires : ℕ
  pub identity : String
  pub refresh_times : List ℕ
  pub account_id : String
  pub answers : List Wire
  pub jar : String
  pub calls : List Bool

-- An action on the connection.
abbrev pub Act : Type 0 → Type 0
Act R = Connection → Answer R × Connection

unfoldable pub after : {R S : Type 0} → (R → Act S) → Answer R × Connection → Answer S × Connection
after next (fail e, c) = (fail e, c)
after next (value r, c) = next r c

infixl 5 ◌>>=◌
unfoldable pub ◌>>=◌ : {R S : Type 0} → Act R → (R → Act S) → Act S
unfolding after
(act >>= next) c = after next (act c)

infixl 5 ◌>>◌
abbrev pub ◌>>◌ : {R S : Type 0} → Act R → Act S → Act S
check >> rest = check >>= λ _. rest

unfoldable pub raise : {R : Type 0} → Failure → Act R
raise e c = (fail e, c)

unfoldable pub done : {R : Type 0} → R → Act R
done r c = (value r, c)

unfoldable pub raise_if : Bool → Failure → Act (Unit {0})
raise_if b e = if b then raise e else done tt

unfoldable pub ask : {R : Type 0} → (Connection → R) → Act R
ask f c = (value (f c), c)

unfoldable pub modify : (Connection → Connection) → Act (Unit {0})
modify f c = (value tt, f c)
