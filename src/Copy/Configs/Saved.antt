-- ===== src/Copy/Configs/Saved.antt =====
-- Calls on the store of configurations: the ids that it holds, and how many.
use match_trader_api.Common.{
  ◌≤◌, String, Bool, true, false, not, ◌&&◌, Option, none, some, List, [], ◌∷◌, length, is_some,
  leb, Result, ok, ◌≡◌, refl, sym, ap, ◌∙◌, subst, arith, if_both, some_inj, ok_inj, eq_iff, str_eq,
}
use match_trader_api.Copy.State.{Mode}
use match_trader_api.Copy.Configs.{
  Config, Store, Codec, get, put, remove, load, save, upsert, delete, set_state, set_found,
  with_state,
}
use match_trader_api.Copy.Configs.Keyed.{
  IsKeyed, get-has, put-IsKeyed, remove-IsKeyed, length-remove, length-put,
}

-- A call, with whether its write succeeds.
pub data Call : Type 0 where
  upserted : Bool → Config → Call
  deleted : Bool → String → Call
  switched : Bool → String → Option Mode → Option Bool → Call

unfoldable pub step : Codec → Call → Store → Result (Unit {0}) × Store
step k (upserted w c) s = upsert k w c s
step k (deleted w i) s = delete k w i s
step k (switched w i m b) s = set_state k w i m b s

unfoldable pub run : Codec → List Call → Store → Store
run k [] s = s
run k (c ∷ cs) s = run k cs (step k c s).1

-- Ids that differ, and at most 25 of them.
unfoldable pub IsLimited : List Config → Type 0
IsLimited cs = IsKeyed cs × (length cs ≤ 25)

-- What a call leaves.
abbrev LeavesLimited : Result (Unit {0}) × Store → Type 0
LeavesLimited r = IsLimited r.1.configs

save-IsLimited :
    (k : Codec) (w : Bool) (cs : List Config) (s : Store)
    → IsLimited cs
    → LeavesLimited (save k w cs s)
unfolding save
save-IsLimited k true cs s l = l
save-IsLimited k false cs s l = l

put-IsLimited :
    (c : Config) (cs : List Config)
    → (leb 25 (length cs) && not (is_some (get c.id cs))) ≡ false
    → IsLimited cs
    → IsLimited (put c cs)
unfolding IsLimited
put-IsLimited c cs h (k, l) = (put-IsKeyed c cs k, bound)
  where
    bound : length (put c cs) ≤ 25
    bound = let a = get-has c.id cs in let b = length-put c cs in ground arith

upsert-IsLimited :
    (k : Codec) (w : Bool) (c : Config) (s : Store)
    → IsLimited s.configs
    → LeavesLimited (upsert k w c s)
unfolding upsert
upsert-IsLimited k w c s l =
    if_both {A = Result (Unit {0}) × Store} LeavesLimited
      (leb 25 (length s.configs) && not (is_some (get c.id s.configs))) _ _ (λ e. l)
      (λ e. save-IsLimited k w (put c s.configs) s (put-IsLimited c s.configs e l))

delete-IsLimited :
    (k : Codec) (w : Bool) (i : String) (s : Store)
    → IsLimited s.configs
    → LeavesLimited (delete k w i s)
unfolding delete IsLimited
delete-IsLimited k w i s l =
    if_both {A = Result (Unit {0}) × Store} LeavesLimited (not (is_some (get i s.configs))) _ _
      (λ e. l)
      (λ e. save-IsLimited k w (remove i s.configs) s (remove-IsKeyed i s.configs l.0, bound))
  where
    bound : length (remove i s.configs) ≤ 25
    bound = let a = length-remove i s.configs in omega (arith, a, l.1)

get-id : (i : String) (cs : List Config) (c : Config) → get i cs ≡ some c → c.id ≡ i
unfolding get
get-id i [] c h = absurd (cc)
get-id i (d ∷ ds) c h =
    if_both (λ o. o ≡ some c → c.id ≡ i) (str_eq d.id i) (some d) (get i ds)
      (λ e. λ q. ap (λ x. x.id) (sym (some_inj q)) ∙ (eq_iff d.id i).0 e) (λ e. get-id i ds c) h

set_state-IsLimited :
    (k : Codec) (w : Bool) (i : String) (m : Option Mode) (b : Option Bool) (s : Store)
    → IsLimited s.configs
    → LeavesLimited (set_state k w i m b s)
unfolding set_state set_found with_state
set_state-IsLimited k w i m b s l = by_found (get i s.configs) refl
  where
    by_found : (o : Option Config) → get i s.configs ≡ o → LeavesLimited (set_found k w m b o s)
    by_found none e = l
    by_found (some c) e =
        save-IsLimited k w _ s
          (put-IsLimited (with_state m b c) s.configs (there (leb 25 (length s.configs))) l)
      where
        there : (x : Bool) → (x && not (is_some (get (with_state m b c).id s.configs))) ≡ false
        there x =
            let q = subst (λ j. get j s.configs ≡ some c) (sym (get-id i s.configs c e)) e in
            ground arith

step-IsLimited :
    (k : Codec) (c : Call) (s : Store) → IsLimited s.configs → LeavesLimited (step k c s)
unfolding step
step-IsLimited k (upserted w c) s l = upsert-IsLimited k w c s l
step-IsLimited k (deleted w i) s l = delete-IsLimited k w i s l
step-IsLimited k (switched w i m b) s l = set_state-IsLimited k w i m b s l

-- After any calls on a store without a file, whichever of their writes fail, the ids of the
-- configurations differ and there are at most 25 of them.
pub run-IsLimited :
    (k : Codec) (cs : List Call) (s : Store) → load k none ≡ ok s → IsLimited (run k cs s).configs
unfolding run load IsLimited IsKeyed
run-IsLimited k cs s opened =
    onward cs s (subst (λ (x : Store). IsLimited x.configs) (ok_inj opened) (tt, (omega arith)))
  where
    onward : (cs : List Call) (s : Store) → IsLimited s.configs → IsLimited (run k cs s).configs
    onward [] s l = l
    onward (c ∷ more) s l = onward more (step k c s).1 (step-IsLimited k c s l)
