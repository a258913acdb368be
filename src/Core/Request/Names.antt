-- ===== src/Core/Request/Names.antt =====
-- v4/src/matchtrader/core/rest_connection.py: the test of a system identifier, on ASCII.
use Prim.Native.Char.{Char, code}
use Prim.Native.String.{String, [], ◌∷◌}
use match_trader_api.Common.{Bool, true, ◌&&◌, ◌||◌, ◌==◌, leb}

is_name_char : Char → Bool
is_name_char c =
    let n = code c in
    (leb 48 n && leb n 57)
    || (leb 65 n && leb n 90)
    || (leb 97 n && leb n 122)
    || n == 45
    || n == 95

-- `all(c.isalnum() or c in "-_" for c in system)`.
unfoldable pub is_name : String → Bool
unfolding is_name_char
is_name [] = true
is_name (c ∷ cs) = is_name_char c && is_name cs
