-- ===== src/Core/Strings.antt =====
-- bin2hex and hex2bin of core/str_lib1.cpp, trim and repl_percent of core/str_lib.cpp and replace_utf8_cp1251 of
-- core/str_lib_extra.cpp. repl_percent reads u_table at a char; a byte from 128 on stands for itself here,
-- where the source reads before the table.
pub mod Decoding
pub mod Trim
use tusa.Common.{
  ℕ, ◌+◌, ◌-◌, ◌*◌, ◌/◌, ◌%◌, ◌^◌, List, [], ◌∷◌, ◌++◌, Bool, true, false, ◌&&◌, ◌||◌,
}
use tusa.Common.{ltb, leb, ◌==◌, if◌then◌else◌, length}
use tusa.Bot.Nicks.{u_table}
use tusa.Bot.Texts.{c_str, is_space}

-- %02X
abbrev pub hex_digit : ℕ → ℕ
hex_digit n = if ltb n 10 then 48 + n else 55 + n

unfoldable pub bin2hex : List ℕ → List ℕ
bin2hex [] = []
bin2hex (c ∷ s) = hex_digit (c / 16) ∷ hex_digit (c % 16) ∷ bin2hex s

abbrev pub is_hex : ℕ → Bool
is_hex c = leb 48 c && leb c 57 || leb 65 c && leb c 70 || leb 97 c && leb c 102

abbrev pub hex_value : ℕ → ℕ
hex_value c = if leb c 57 then c - 48 else if leb c 70 then c - 55 else c - 87

unfoldable pub hex_digits : List ℕ → ℕ → ℕ
hex_digits [] n = n
hex_digits (c ∷ s) n =
    let rest = hex_digits s (n * 16 + hex_value c) in if is_hex c then rest else n

-- (unsigned char)strtol(ss,NULL,16) for a string ss of two chars at most
unfoldable pub strtol_16 : List ℕ → ℕ
unfolding hex_digits
strtol_16 [] = 0
strtol_16 (c ∷ s) =
    let rest = strtol_16 s in
    if is_space c
    then rest
    else if c == 45
    then (256 - hex_digits s 0) % 256
    else if c == 43
    then hex_digits s 0
    else hex_digits (c ∷ s) 0

-- Behind the last char the string has a zero.
unfoldable pub hex2bin : List ℕ → List ℕ
unfolding strtol_16 c_str
hex2bin [] = []
hex2bin (c ∷ []) = strtol_16 (c_str (c ∷ [])) ∷ []
hex2bin (c ∷ d ∷ s) = strtol_16 (c_str (c ∷ d ∷ [])) ∷ hex2bin s

-- The spaces that the first loop of trim takes away
unfoldable pub pop_front : List ℕ → List ℕ
pop_front [] = []
pop_front (c ∷ d) = let rest = pop_front d in if is_space c then rest else c ∷ d

-- The spaces that the second loop takes away
unfoldable pub pop_back : List ℕ → List ℕ
pop_back [] = []
pop_back (c ∷ d) = let rest = pop_back d in if length rest == 0 && is_space c then [] else c ∷ rest

unfoldable pub trim : List ℕ → List ℕ
unfolding pop_front pop_back
trim s = pop_back (pop_front s)

-- c1 and c2 after the tests for digits and letters
abbrev pub percent_value : ℕ → ℕ
percent_value c =
    if leb 48 c && leb c 57 then c - 48 else if leb 65 c && leb c 70 then c - 55 else c

unfoldable pub percent_byte : ℕ → ℕ → List ℕ
percent_byte c1 c2 =
    if ltb 70 c1 || ltb 70 c2
    then []
    else if ltb c1 48 || ltb c2 48
    then []
    else (percent_value c1 * 16 + percent_value c2) % 256 ∷ []

unfoldable pub repl_percent : List ℕ → List ℕ
unfolding percent_byte
repl_percent [] = []
repl_percent (c ∷ []) = if c == 37 then [] else (if c == 43 then 32 else c) ∷ []
repl_percent (c ∷ d ∷ []) = elim (c == 37) [
  | true ↦ []
  | false ↦ (if c == 43 then 32 else c) ∷ repl_percent (d ∷ [])
]
repl_percent (c ∷ d ∷ e ∷ s) = elim (c == 37) [
  | true ↦ percent_byte (u_table d) (u_table e) ++ repl_percent s
  | false ↦ (if c == 43 then 32 else c) ∷ repl_percent (d ∷ e ∷ s)
]

-- The letter of cp1251 that two bytes of UTF-8 are
unfoldable pub cp1251_byte : ℕ → ℕ → List ℕ
cp1251_byte c c2 =
    if c == 208
    then (if leb 144 c2 && leb c2 159
        then (192 + (c2 - 144)) ∷ []
        else if leb 160 c2 && leb c2 175
        then (208 + (c2 - 160)) ∷ []
        else if leb 176 c2 && leb c2 191
        then (224 + (c2 - 176)) ∷ []
        else [])
    else if c == 209
    then (if leb 128 c2 && leb c2 143 then (240 + (c2 - 128)) ∷ [] else [])
    else []

-- The last byte stands for its own successor.
unfoldable pub replace_utf8_cp1251 : List ℕ → List ℕ
unfolding cp1251_byte
replace_utf8_cp1251 [] = []
replace_utf8_cp1251 (c ∷ []) = if ltb c 128 then c ∷ [] else cp1251_byte c c
replace_utf8_cp1251 (c ∷ c2 ∷ m) = elim (ltb c 128) [
  | true ↦ c ∷ replace_utf8_cp1251 (c2 ∷ m)
  | false ↦ cp1251_byte c c2 ++ replace_utf8_cp1251 m
]
