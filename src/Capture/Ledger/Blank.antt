-- ===== src/Capture/Ledger/Blank.antt =====
-- Python's `not s.strip()`, on ASCII.
use Prim.Native.Char.{Char, code}
use Prim.Native.String.{String, [], ◌∷◌}
use match_trader_api.Common.{Bool, true, ◌&&◌, ◌||◌, ◌==◌, leb}

is_space : Char → Bool
is_space c = let n = code c in n == 32 || (leb 9 n && leb n 13) || (leb 28 n && leb n 31)

unfoldable pub is_blank : String → Bool
unfolding is_space
is_blank [] = true
is_blank (c ∷ cs) = is_space c && is_blank cs
