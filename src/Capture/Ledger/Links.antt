-- ===== src/Capture/Ledger/Links.antt =====
-- v4/src/matchtrader/capture/mapping.py: the table identity_links, `link`, `ids`, `owners` and
-- `guard_position`. The evidence and the time of a link are left out.
use match_trader_api.Common.{
  append, Bool, String, List, ◌>>◌, str_eq, if◌then◌else◌, false, Result, true, ◌∷◌, ok, ◌&&◌, ◌||◌,
  is_text, not, [], ◌++◌, refuse_if, ltb, length,
}
use match_trader_api.Capture.Store.{in_list}

pub data Leg : Type 0 where
  source_leg destination_leg : Leg

pub data Kind : Type 0 where
  order_kind position_kind : Kind

pub record Link : Type 0 where
  pub trade_id : String
  pub leg : Leg
  pub scope : String
  pub kind : Kind
  pub native_id : String

abbrev pub leg_eq : Leg → Leg → Bool
leg_eq source_leg source_leg = true
leg_eq destination_leg destination_leg = true
leg_eq _ _ = false

abbrev pub kind_eq : Kind → Kind → Bool
kind_eq order_kind order_kind = true
kind_eq position_kind position_kind = true
kind_eq _ _ = false

abbrev pub leg_text : Leg → String
leg_text source_leg = "source"
leg_text destination_leg = "destination"

-- The primary key of identity_links is the whole row.
unfoldable pub link_eq : Link → Link → Bool
link_eq a b =
    str_eq a.trade_id b.trade_id
    && leg_eq a.leg b.leg
    && str_eq a.scope b.scope
    && kind_eq a.kind b.kind
    && str_eq a.native_id b.native_id

unfoldable pub has_link : Link → List Link → Bool
has_link l [] = false
has_link l (x ∷ xs) = link_eq x l || has_link l xs

-- `link`.
unfoldable pub link : Link → List Link → List Link
link l ls = if is_text l.native_id && not (has_link l ls) then ls ++ (l ∷ []) else ls

unfoldable pub distinct : String → List String → List String
distinct x xs = if in_list x xs then xs else x ∷ xs

-- `ids`.
unfoldable pub ids : String → Leg → Kind → List Link → List String
ids i g k [] = []
ids i g k (x ∷ xs) =
    let rest = ids i g k xs in
    if str_eq x.trade_id i && leg_eq x.leg g && kind_eq x.kind k
    then distinct x.native_id rest
    else rest

unfoldable pub names_position : Leg → String → String → Link → Bool
names_position g c p x =
    leg_eq x.leg g && str_eq x.scope c && kind_eq x.kind position_kind && str_eq x.native_id p

-- `owners`.
unfoldable pub owners : Leg → String → String → List Link → List String
owners g c p [] = []
owners g c p (x ∷ xs) =
    let rest = owners g c p xs in if names_position g c p x then distinct x.trade_id rest else rest

unfoldable pub is_position_of : String → Leg → Link → Bool
is_position_of i g x = str_eq x.trade_id i && leg_eq x.leg g && kind_eq x.kind position_kind

-- The position links of a trade.
unfoldable pub positions_of : String → Leg → List Link → List Link
positions_of i g [] = []
positions_of i g (x ∷ xs) =
    let rest = positions_of i g xs in if is_position_of i g x then x ∷ rest else rest

unfoldable pub unmerged : Leg → List Link → List Link → Result (Unit {0})
unmerged g [] ls = ok tt
unmerged g (x ∷ xs) ls = do
  refuse_if (ltb 1 (length (owners g x.scope x.native_id ls)))
      (append "Merged " (append (leg_text g) " position requires an explicit action allocation"))
  unmerged g xs ls

unfoldable pub guard_leg : String → Leg → List Link → Result (Unit {0})
guard_leg i g ls = do
  refuse_if (ltb 1 (length (positions_of i g ls)))
      (append "Split " (append (leg_text g) " positions require an explicit action allocation"))
  unmerged g (positions_of i g ls) ls

-- `guard_position`.
unfoldable pub guard_position : String → List Link → Result (Unit {0})
guard_position i ls = do guard_leg i source_leg ls; guard_leg i destination_leg ls
