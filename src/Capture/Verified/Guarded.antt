-- ===== src/Capture/Verified/Guarded.antt =====
-- The guard of `classify` and the guard of the ledger agree on the destination.
use match_trader_api.Common.{List, ◌∷◌, String, length, true, false, ◌≡◌, arith, [], refl, ok}
use match_trader_api.Capture.Verified.{destination_positions, any_shared, is_guarded}
use match_trader_api.Capture.Ledger.Snapshot.{links_shown, shown, contributors_of}
use match_trader_api.Capture.Ledger.Links.{
  leg_eq, kind_eq, order_kind, position_kind, source_leg, destination_leg, Link, positions_of,
  is_position_of, unmerged, owners, Leg, guard_leg, Kind,
}

length-links_shown :
    (i : String) (ls xs : List Link)
    → length (destination_positions (links_shown i ls xs))
      ≡ length (positions_of i destination_leg xs)
unfolding destination_positions links_shown positions_of is_position_of shown
length-links_shown i ls [] = refl
length-links_shown i ls (x ∷ xs) = ground (arith, length-links_shown i ls xs)

contributors_of_lem :
    (x : Link) (ls : List Link)
    → leg_eq x.leg destination_leg ≡ true
    → kind_eq x.kind position_kind ≡ true
    → contributors_of x ls ≡ length (owners destination_leg x.scope x.native_id ls)
unfolding contributors_of
contributors_of_lem x ls g k = by_fields x.leg x.kind g k
  where
    by_fields :
        (l : Leg) (m : Kind)
        → leg_eq l destination_leg ≡ true
        → kind_eq m position_kind ≡ true
        → (elim m [ order_kind ↦ 0 | position_kind ↦ length (owners l x.scope x.native_id ls) ])
          ≡ length (owners destination_leg x.scope x.native_id ls)
    by_fields destination_leg position_kind p q = refl
    by_fields destination_leg order_kind p q = absurd (cc)
    by_fields source_leg m p q = absurd (cc)

unshared-unmerged :
    (i : String) (ls xs : List Link)
    → any_shared (destination_positions (links_shown i ls xs)) ≡ false
    → unmerged destination_leg (positions_of i destination_leg xs) ls ≡ ok tt
unfolding any_shared destination_positions links_shown positions_of is_position_of shown unmerged
unshared-unmerged i ls [] h = refl
unshared-unmerged i ls (x ∷ xs) h =
    let rest = unshared-unmerged i ls xs in let here = contributors_of_lem x ls in ground arith

pub unguarded-guard_leg :
    (i : String) (ls : List Link)
    → is_guarded (links_shown i ls ls) ≡ false
    → guard_leg i destination_leg ls ≡ ok tt
unfolding is_guarded guard_leg
unguarded-guard_leg i ls h =
    let n = length-links_shown i ls ls in let rest = unshared-unmerged i ls ls in ground arith
