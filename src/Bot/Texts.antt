-- ===== src/Bot/Texts.antt =====
-- splitTOK, join, parse_strmap and strex of bot/bot-shared/utils.cpp, and atoi, by which the bots read texts.
pub mod Split
use tusa.Common.{ℕ, zero, suc, ◌+◌, ◌-◌, ◌*◌, ◌%◌, ◌^◌, List, [], ◌∷◌, ◌++◌}
use tusa.Common.{Bool, true, false, ◌&&◌, ◌||◌, ltb, leb, ◌==◌, if◌then◌else◌}
use tusa.Common.Maps.{member}
use tusa.Common.Dicts.{Dict, at_name, lookup, or_else}
use Prim.Native.Nat.{min}
use tusa.Bot.Nicks.{strupper}

-- A token that is not empty joins the result.
unfoldable pub push : List ℕ → List (List ℕ) → List (List ℕ)
push [] res = res
push (c ∷ tmp) res = res ++ (c ∷ tmp) ∷ []

unfoldable pub split_loop : List ℕ → List ℕ → List ℕ → List (List ℕ) → List (List ℕ)
unfolding push member
split_loop seps [] tmp res = push tmp res
split_loop seps (c ∷ src) tmp res =
    let hit = member c seps in
    split_loop seps src (if hit then [] else tmp ++ c ∷ []) (if hit then push tmp res else res)

unfoldable pub split_tok : List ℕ → List ℕ → List (List ℕ)
unfolding split_loop
split_tok seps src = split_loop seps src [] []

unfoldable pub join : List ℕ → List (List ℕ) → List ℕ
join pattern [] = []
join pattern (x ∷ []) = x
join pattern (x ∷ y ∷ arr) = (x ++ pattern) ++ join pattern (y ∷ arr)

-- ret[w[0]] = w[1], for a pair
unfoldable pub set_pair : List (List ℕ) → Dict (List ℕ) → Dict (List ℕ)
unfolding at_name
set_pair (k ∷ v ∷ []) ret = at_name k [] (λ w. v) ret
set_pair _ ret = ret

unfoldable pub strmap_loop : List (List ℕ) → Dict (List ℕ) → Dict (List ℕ)
unfolding set_pair split_tok
strmap_loop [] ret = ret
strmap_loop (p ∷ v) ret = strmap_loop v (set_pair (split_tok (58 ∷ []) p) ret)

unfoldable pub parse_strmap : List ℕ → Dict (List ℕ)
unfolding strmap_loop split_tok
parse_strmap s = strmap_loop (split_tok (59 ∷ []) s) []

-- c_str, as the C functions read it: up to a zero.
unfoldable pub c_str : List ℕ → List ℕ
c_str [] = []
c_str (c ∷ s) = if c == 0 then [] else c ∷ c_str s

unfoldable pub starts_with : List ℕ → List ℕ → Bool
starts_with [] s = true
starts_with (c ∷ p) [] = false
starts_with (c ∷ p) (x ∷ s) = c == x && starts_with p s

-- strstr(s, p) != NULL
unfoldable pub strstr : List ℕ → List ℕ → Bool
unfolding starts_with
strstr [] p = starts_with p []
strstr (x ∷ s) p = starts_with p (x ∷ s) || strstr s p

unfoldable pub strex : List ℕ → List ℕ → Bool
unfolding strstr c_str strupper
strex str patt = strstr (c_str (strupper str)) (c_str (strupper patt))

-- atoi of the C library: spaces, a sign, digits; the long of strtol, cut to 32 bits.
abbrev pub is_digit : ℕ → Bool
is_digit c = leb 48 c && leb c 57

abbrev pub is_space : ℕ → Bool
is_space c = c == 32 || leb 9 c && leb c 13

unfoldable pub digits : List ℕ → ℕ → ℕ
digits [] n = n
digits (c ∷ s) n = let rest = digits s (n * 10 + (c - 48)) in if is_digit c then rest else n

unfoldable pub signed_digits : List ℕ → ℕ
unfolding digits
signed_digits [] = 0
signed_digits (c ∷ s) =
    if c == 45
    then (2 ^ 64 - min (digits s 0) (2 ^ 63)) % 2 ^ 32
    else if c == 43
    then min (digits s 0) (2 ^ 63 - 1) % 2 ^ 32
    else min (digits (c ∷ s) 0) (2 ^ 63 - 1) % 2 ^ 32

unfoldable pub atoi : List ℕ → ℕ
unfolding signed_digits
atoi [] = 0
atoi (c ∷ s) = let rest = atoi s in if is_space c then rest else signed_digits (c ∷ s)

-- m[key], which is empty where the map has none.
unfoldable pub field : List ℕ → Dict (List ℕ) → List ℕ
unfolding lookup
field key m = or_else (lookup key m) []

-- The words of a command, of which a message has one.
unfoldable pub has_word : List ℕ → List (List ℕ) → Bool
unfolding strex
has_word msg [] = false
has_word msg (w ∷ ws) = strex msg w || has_word msg ws
