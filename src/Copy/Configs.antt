-- ===== src/Copy/Configs.antt =====
-- v4/src/matchtrader/dashboard/copy_configs.py: CopyConfig and CopyConfigStore. The file is its text,
-- `none` where there is none; a call's `written` is whether its write succeeds.
pub mod Keyed
pub mod Saved
use match_trader_api.Common.{
  ℕ, String, Bool, true, false, not, ◌&&◌, ◌||◌, Option, none, some, List, [], ◌∷◌, length, str_eq,
  elem, leb, is_some, Result, ok, err, crash, ◌>>=◌, if◌then◌else◌,
}
use match_trader_api.Signals.Plan.{Sizing}
use match_trader_api.Copy.State.{Mode}

pub record Config : Type 0 where
  pub id : String
  pub name : String
  pub machine_id : String
  pub source : String
  pub connection_name : String
  pub additional_sources : List String
  pub x17_only : Bool
  pub destination_broker : String
  pub destination_account : String
  pub accepted_grades : List String
  pub retract_on_downgrade : Bool
  pub sizing : Sizing
  pub sizing_value : Option ℕ
  pub min_box : ℕ
  pub min_box_enabled : Bool
  pub mode : Mode
  pub enabled : Bool

-- `CopyConfig.matches`.
unfoldable pub matches : String → String → Config → Bool
matches machine source c =
    str_eq machine c.machine_id && (str_eq source c.source || elem source c.additional_sources)

-- The dictionary, in the order of its keys.
unfoldable pub get : String → List Config → Option Config
get i [] = none
get i (c ∷ cs) = let rest = get i cs in if str_eq c.id i then some c else rest

unfoldable pub put : Config → List Config → List Config
put c [] = c ∷ []
put c (d ∷ ds) = let rest = put c ds in if str_eq d.id c.id then c ∷ ds else d ∷ rest

unfoldable pub remove : String → List Config → List Config
remove i [] = []
remove i (c ∷ cs) = let rest = remove i cs in if str_eq c.id i then cs else c ∷ rest

-- What pydantic and json make of a list of configurations and of a text: `model_dump` and
-- `json.dump`, and `model_validate_json`, which may raise.
pub record Codec : Type 0 where
  pub dump : List Config → String
  pub read : String → Result (List Config)

pub record Store : Type 0 where
  pub configs : List Config
  pub file : Option String

-- `{c.id: c for c in …}`, on top of what is there.
unfoldable pub load_onto : List Config → List Config → List Config
load_onto held [] = held
load_onto held (c ∷ cs) = load_onto (put c held) cs

-- `__init__`, with `_load`.
unfoldable pub load : Codec → Option String → Result Store
load k none = ok (record { configs = []; file = none })
load k (some text) = do
  cs ← k.read text
  ok (record { configs = load_onto [] cs; file = some text })

-- `_save`: the file changes at once or not at all.
unfoldable pub save : Codec → (written : Bool) → List Config → Store → Result (Unit {0}) × Store
save k true cs s = (ok tt, record { configs = cs; file = some (k.dump cs) })
save k false cs s = (crash "OSError", record s { configs = cs })

unfoldable pub upsert : Codec → (written : Bool) → Config → Store → Result (Unit {0}) × Store
upsert k w c s =
    if leb 25 (length s.configs) && not (is_some (get c.id s.configs))
    then (err "Configure at most 25 copy configurations", s)
    else save k w (put c s.configs) s

unfoldable pub delete : Codec → (written : Bool) → String → Store → Result (Unit {0}) × Store
delete k w i s =
    if not (is_some (get i s.configs))
    then (err "Unknown copy configuration", s)
    else save k w (remove i s.configs) s

unfoldable pub or_mode : Option Mode → Mode → Mode
or_mode none m = m
or_mode (some n) m = n

unfoldable pub or_enabled : Option Bool → Bool → Bool
or_enabled none b = b
or_enabled (some a) b = a

unfoldable pub with_state : Option Mode → Option Bool → Config → Config
with_state m b c = record c { mode = or_mode m c.mode; enabled = or_enabled b c.enabled }

unfoldable pub set_found :
    Codec
    → (written : Bool) → Option Mode
    → Option Bool
    → Option Config
    → Store
    → Result (Unit {0}) × Store
set_found k w m b none s = (err "Unknown copy configuration", s)
set_found k w m b (some c) s = save k w (put (with_state m b c) s.configs) s

unfoldable pub set_state :
    Codec
    → (written : Bool) → String
    → Option Mode
    → Option Bool
    → Store
    → Result (Unit {0}) × Store
set_state k w i m b s = set_found k w m b (get i s.configs) s

unfoldable pub matching : String → String → List Config → List Config
matching machine source [] = []
matching machine source (c ∷ cs) =
    let rest = matching machine source cs in
    if c.enabled && matches machine source c then c ∷ rest else rest
