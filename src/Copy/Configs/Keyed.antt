-- ===== src/Copy/Configs/Keyed.antt =====
-- Configurations with ids of their own, and what changes keep that so.
use match_trader_api.Common.{
  suc, ◌≤◌, String, Bool, true, false, ◌||◌, List, [], ◌∷◌, length, str_eq, is_some, if◌then◌else◌,
  ◌≡◌, refl, subst, arith, eq_iff, if_both,
}
use match_trader_api.Copy.Attempts.{str_apart}
use match_trader_api.Copy.Configs.{Config, get, put, remove}

unfoldable pub has : String → List Config → Bool
has i [] = false
has i (c ∷ cs) = str_eq c.id i || has i cs

unfoldable pub IsKeyed : List Config → Type 0
IsKeyed [] = Unit
IsKeyed (c ∷ cs) = (has c.id cs ≡ false) × IsKeyed cs

pub get-has : (i : String) (cs : List Config) → is_some (get i cs) ≡ has i cs
unfolding get has
get-has i [] = refl
get-has i (c ∷ cs) = let ih = get-has i cs in ground arith

or_false : (a b : Bool) → (a || b) ≡ false → (a ≡ false) × (b ≡ false)
or_false true b h = absurd (cc)
or_false false b h = (refl, h)

has-put :
    (i : String) (c : Config) (cs : List Config)
    → str_eq c.id i ≡ false
    → has i cs ≡ false
    → has i (put c cs) ≡ false
unfolding has put
has-put i c [] n h = rw n refl
has-put i c (d ∷ ds) n h =
    let (a, b) = or_false (str_eq d.id i) (has i ds) h in
    if_both (λ l. has i l ≡ false) (str_eq d.id c.id) _ _ (λ e. rw (n, b) refl)
      (λ e. rw (a, has-put i c ds n b) refl)

pub put-IsKeyed : (c : Config) (cs : List Config) → IsKeyed cs → IsKeyed (put c cs)
unfolding put IsKeyed has
put-IsKeyed c [] k = (refl, tt)
put-IsKeyed c (d ∷ ds) k =
    if_both IsKeyed (str_eq d.id c.id) _ _
      (λ e. (subst (λ x. has x ds ≡ false) ((eq_iff d.id c.id).0 e) k.0, k.1))
      (λ e. (has-put d.id c ds (str_apart d.id c.id e) k.0, put-IsKeyed c ds k.1))

has-remove : (i j : String) (cs : List Config) → has i cs ≡ false → has i (remove j cs) ≡ false
unfolding has remove
has-remove i j [] h = refl
has-remove i j (c ∷ cs) h =
    let (a, b) = or_false (str_eq c.id i) (has i cs) h in
    if_both (λ l. has i l ≡ false) (str_eq c.id j) _ _ (λ e. b)
      (λ e. rw (a, has-remove i j cs b) refl)

pub remove-IsKeyed : (i : String) (cs : List Config) → IsKeyed cs → IsKeyed (remove i cs)
unfolding remove IsKeyed
remove-IsKeyed i [] k = tt
remove-IsKeyed i (c ∷ cs) k =
    if_both IsKeyed (str_eq c.id i) _ _ (λ e. k.1)
      (λ e. (has-remove c.id i cs k.0, remove-IsKeyed i cs k.1))

pub length-remove : (i : String) (cs : List Config) → length (remove i cs) ≤ length cs
unfolding remove
length-remove i [] = omega arith
length-remove i (c ∷ cs) = let ih = length-remove i cs in ground arith

-- A configuration that is there is replaced.
pub length-put :
    (c : Config) (cs : List Config)
    → length (put c cs) ≡ (if has c.id cs then length cs else suc (length cs))
unfolding put has
length-put c [] = refl
length-put c (d ∷ ds) = let ih = length-put c ds in ground arith
