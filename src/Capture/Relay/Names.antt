-- ===== src/Capture/Relay/Names.antt =====
-- v4/src/matchtrader/capture/relay_store.py: the tests of a machine and of a file's name.
use Prim.Native.Char.{Char, code}
use Prim.Native.String.{String, [], ◌∷◌}
use match_trader_api.Common.{ℕ, suc, Bool, false, not, ◌&&◌, ◌||◌, ◌==◌, leb, str_eq}

size : String → ℕ
size [] = 0
size (c ∷ cs) = suc (size cs)

is_slash : Char → Bool
is_slash c = code c == 47 || code c == 92

has_slash : String → Bool
unfolding is_slash
has_slash [] = false
has_slash (c ∷ cs) = is_slash c || has_slash cs

ends_with : String → String → Bool
ends_with t [] = str_eq t ""
ends_with t (c ∷ cs) = str_eq t (c ∷ cs) || ends_with t cs

unfoldable pub is_machine : String → Bool
unfolding size
is_machine s = leb 1 (size s) && leb (size s) 100

unfoldable pub is_filename : String → Bool
unfolding size has_slash ends_with
is_filename s =
    leb 1 (size s)
    && leb (size s) 240
    && not (has_slash s)
    && (ends_with ".log" s || ends_with ".jsonl" s)
