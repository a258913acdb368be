-- ===== src/Signals/Shapes.antt =====
-- v4/src/matchtrader/signals/shapes.py and symbols.py: the signal that every sender shares, what
-- each sender adds, its attribution, and the symbol map.
use Prim.Native.Char.{code}
use match_trader_api.Common.{
  ℕ, ◌+◌, String, Bool, true, false, ◌&&◌, ◌||◌, Option, none, some, List, [], ◌∷◌, leb, ◌==◌,
  str_eq, not, if◌then◌else◌, Result, ok, err, elem,
}

-- An order type as a signal states it.
pub data OrderType : Type 0 where
  unset market limit stop : OrderType

-- The subclass of `BaseSignal`, with what only that sender knows.
pub data Shape : Type 0 where
  base : Shape
  p01 : (origin : String) → Shape
  chain : (detail : String) → Shape
  r01 : (grade stamp rfx arm detail : String) → Shape

-- Times are microseconds, the resolution of a datetime.
pub record Signal : Type 0 where
  pub shape : Shape
  pub client_event_id : String
  pub machine_id : String
  pub source : String
  pub connection_name : String
  pub account_id : String
  pub kind : String
  pub label : String
  pub timestamp : ℕ
  pub symbol : String
  pub side : String
  pub entry : ℕ
  pub stop_loss : ℕ
  pub take_profit : ℕ
  pub copy_order_type : OrderType

-- The identity of a lifecycle: who sent it, from where, for what.
pub record Scope : Type 0 where
  pub machine_id : String
  pub source : String
  pub account_id : String
  pub connection_name : String
  pub symbol : String
  pub label : String

abbrev pub scope : Signal → Scope
scope s = record {
  machine_id = s.machine_id;
  source = s.source;
  account_id = s.account_id;
  connection_name = s.connection_name;
  symbol = s.symbol;
  label = s.label;
}

unfoldable pub scope_eq : Scope → Scope → Bool
scope_eq a b =
    str_eq a.machine_id b.machine_id
    && (str_eq a.source b.source
        && (str_eq a.account_id b.account_id
            && (str_eq a.connection_name b.connection_name
                && (str_eq a.symbol b.symbol && str_eq a.label b.label))))

abbrev pub codes : String → List ℕ
codes String.[] = []
codes (String.◌∷◌ c s) = code c ∷ codes s

-- What follows a prefix.
after_prefix : List ℕ → List ℕ → Option (List ℕ)
after_prefix [] cs = some cs
after_prefix (p ∷ ps) [] = none
after_prefix (p ∷ ps) (c ∷ cs) = elim (p == c) [ true ↦ after_prefix ps cs | false ↦ none ]

is_digit : ℕ → Bool
is_digit c = leb b'0' c && leb c b'9'

all_digits : List ℕ → Bool
unfolding is_digit
all_digits [] = true
all_digits (c ∷ cs) = is_digit c && all_digits cs

-- `\d+` to the end; digits are those of ASCII.
digits_end : List ℕ → Bool
unfolding all_digits
digits_end [] = false
digits_end (c ∷ cs) = all_digits (c ∷ cs)

-- `\d+_\d+` to the end, from a digit on.
digits_pair : List ℕ → Bool
unfolding digits_end
digits_pair [] = false
digits_pair (c ∷ cs) = elim (is_digit c) [
  | true ↦ digits_pair cs
  | false ↦ c == b'_' && digits_end cs
]

starts_digit : List ℕ → Bool
unfolding is_digit
starts_digit [] = false
starts_digit (c ∷ cs) = is_digit c

is_space : ℕ → Bool
is_space c = (leb 9 c && leb c 13) || (leb 28 c && leb c 32)

no_spaces : List ℕ → Bool
unfolding is_space
no_spaces [] = true
no_spaces (c ∷ cs) = not (is_space c) && no_spaces cs

-- `@\S+` to the end.
at_tail : Option (List ℕ) → Bool
unfolding no_spaces
at_tail none = false
at_tail (some []) = false
at_tail (some (c ∷ cs)) = no_spaces (c ∷ cs)

edge_tail : Option (List ℕ) → Bool
unfolding at_tail after_prefix
edge_tail none = false
edge_tail (some cs) =
    at_tail (after_prefix (codes "low@") cs)
    || (at_tail (after_prefix (codes "high@") cs) || at_tail (after_prefix (codes "beyond@") cs))

p01_tail : Option (List ℕ) → Bool
unfolding digits_pair starts_digit
p01_tail none = false
p01_tail (some cs) = starts_digit cs && digits_pair cs

-- `$` also matches before a line end that is the last character.
chomp : List ℕ → List ℕ
chomp [] = []
chomp (c ∷ []) = if c == 10 then [] else c ∷ []
chomp (c ∷ d ∷ cs) = c ∷ chomp (d ∷ cs)

-- `P01Signal.LABEL.match(label)`.
unfoldable pub p01_label : String → Bool
unfolding edge_tail p01_tail after_prefix chomp
p01_label l =
    p01_tail (after_prefix (codes "P01RR_") (chomp (codes l)))
    || (edge_tail (after_prefix (codes "L:") (chomp (codes l)))
        || edge_tail (after_prefix (codes "M:") (chomp (codes l))))

lower : List ℕ → List ℕ
lower [] = []
lower (c ∷ cs) = (if leb b'A' c && leb c b'Z' then c + 32 else c) ∷ lower cs

found : Option (List ℕ) → Bool
found none = false
found (some cs) = true

-- `ChainSignal.from_x17`.
unfoldable pub from_x17 : String → Bool
unfolding lower found after_prefix
from_x17 detail = found (after_prefix (codes "x17-spine ") (lower (codes detail)))

-- `check_attribution`, by the subclass.
unfoldable pub check_attribution :
    Shape → (source label : String) → (x17_only : Bool) → Result (Unit {0})
unfolding p01_label from_x17 found after_prefix
check_attribution base source label x17_only = ok tt
check_attribution (p01 origin) source label x17_only =
    if str_eq source "panel" && not (found (after_prefix (codes "P01RR_") (codes label)))
    then err "Panel intent is not identified as manual P01"
    else if str_eq source "P01_LOG" && not (p01_label label)
    then err "P01 log intent does not carry a recognised lifecycle label"
    else ok tt
check_attribution (chain detail) source label x17_only =
    if x17_only && not (from_x17 detail) then err "Chain intent is not identified as X17" else ok tt
check_attribution (r01 g s r a d) source label x17_only = ok tt

-- `R01Signal.DETAIL_TYPES.get(detail, "")`.
detail_type : String → OrderType
detail_type d =
    if str_eq d "resting limit at range edge"
    then limit
    else if str_eq d "resting stop at beyond edge"
    then stop
    else if str_eq d "resting stop-limit at beyond edge, limit at trigger"
    then stop
    else unset

or_type : OrderType → OrderType → OrderType
or_type unset b = b
or_type a b = a

shape_type : Shape → OrderType → OrderType
unfolding or_type detail_type
shape_type (r01 g s r a d) t = or_type t (detail_type d)
shape_type _ t = t

-- `getattr(signal, "order_type", None) or signal.copyOrderType`.
unfoldable pub stated_type : Signal → OrderType
unfolding shape_type
stated_type s = shape_type s.shape s.copy_order_type

-- The grade that only R01 signals carry.
unfoldable pub grade_of : Shape → String
grade_of (r01 g s r a d) = g
grade_of _ = ""

-- `SOURCES`: the subclass for a source, given what the payload holds.
unfoldable pub shape_of : String → (origin detail grade stamp rfx arm : String) → Shape
shape_of source origin detail grade stamp rfx arm =
    if str_eq source "P01_LOG" || str_eq source "panel"
    then p01 origin
    else if str_eq source "chain"
    then chain detail
    else if elem source ("R01" ∷ "r01" ∷ "r01Auto" ∷ [])
    then r01 grade stamp rfx arm detail
    else base

-- `SIDES.get(str(value).lower(), str(value))`, from the text and its lower case.
unfoldable pub normalize_side : (text lowered : String) → String
normalize_side text lowered =
    if elem lowered ("long" ∷ "buy" ∷ "0" ∷ [])
    then "BUY"
    else if elem lowered ("short" ∷ "sell" ∷ "1" ∷ [])
    then "SELL"
    else text

-- How an entry of the symbol map handles order types.
pub data Handling : Type 0 where
  always : OrderType → Handling
  from_source at_entry : Handling

pub record SymbolMapping : Type 0 where
  pub destination : String
  pub lots : ℕ
  pub order_type : Handling

abbrev pub SymbolMap : Type 0
SymbolMap = List (String × SymbolMapping)

-- `SymbolMap.lookup`.
unfoldable pub lookup : SymbolMap → String → Option SymbolMapping
lookup [] s = none
lookup ((k, m) ∷ ms) s = if str_eq k s then some m else lookup ms s
