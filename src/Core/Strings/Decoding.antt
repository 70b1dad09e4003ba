-- ===== src/Core/Strings/Decoding.antt =====
-- What the decoders of core/str_lib.cpp, str_lib1.cpp and str_lib_extra.cpp make of encoded texts.
use tusa.Common.{
  ℕ, ◌+◌, ◌-◌, ◌/◌, ◌%◌, ◌<◌, ◌≤◌, ◌≡◌, ◌⊎◌, refl, ◌∙◌, ap, List, [], ◌∷◌, ◌++◌, Bool, true, false,
  ◌||◌,
}
use tusa.Common.{ltb, ◌==◌, ==_iff, if◌then◌else◌, All, inl, inr, arith, all_below, all_below-lt}
use tusa.Bot.Nicks.{u_table}
use tusa.Bot.Texts.{c_str}
use tusa.Core.Strings.{
  hex_digit, bin2hex, hex_digits, hex2bin, strtol_16, percent_byte, repl_percent, cp1251_byte,
  replace_utf8_cp1251,
}

abbrev pub IsByte : ℕ → Type 0
IsByte c = c < 256

-- A list of one byte
abbrev is_one : List ℕ → ℕ → Bool
is_one [] c = false
is_one (x ∷ []) c = x == c
is_one (x ∷ y ∷ s) c = false

is_one_eq : (s : List ℕ) (c : ℕ) → is_one s c ≡ true → s ≡ c ∷ []
is_one_eq [] c h = cc
is_one_eq (x ∷ []) c h = ap (λ y. y ∷ []) ((==_iff x c).0 h)
is_one_eq (x ∷ y ∷ s) c h = cc

abbrev hex_back : ℕ → Bool
hex_back c = strtol_16 (c_str (hex_digit (c / 16) ∷ hex_digit (c % 16) ∷ [])) == c

hex_bytes : all_below hex_back 256 ≡ true
unfolding all_below strtol_16 hex_digits c_str
hex_bytes = refl

-- hex2bin undoes bin2hex on bytes.
pub hex2bin-bin2hex : (s : List ℕ) → All IsByte s → hex2bin (bin2hex s) ≡ s
unfolding hex2bin bin2hex
hex2bin-bin2hex [] h = refl
hex2bin-bin2hex (c ∷ s) (b, h) =
    let e : strtol_16 (c_str (hex_digit (c / 16) ∷ hex_digit (c % 16) ∷ [])) ≡ c =
      (==_iff (strtol_16 (c_str (hex_digit (c / 16) ∷ hex_digit (c % 16) ∷ []))) c).0
        (all_below-lt hex_back 256 c hex_bytes b) in
    ap (λ x. x ∷ hex2bin (bin2hex s)) e ∙ ap (λ r. c ∷ r) (hex2bin-bin2hex s h)

-- Every byte as %XX
unfoldable pub url_encode : List ℕ → List ℕ
url_encode [] = []
url_encode (c ∷ s) = 37 ∷ hex_digit (c / 16) ∷ hex_digit (c % 16) ∷ url_encode s

abbrev percent_back : ℕ → Bool
percent_back c =
    is_one (percent_byte (u_table (hex_digit (c / 16))) (u_table (hex_digit (c % 16)))) c

percent_bytes : all_below percent_back 256 ≡ true
unfolding all_below percent_byte
percent_bytes = refl

-- repl_percent decodes a text in which every byte stands as % and two hexadecimal digits.
pub repl_percent-url_encode : (s : List ℕ) → All IsByte s → repl_percent (url_encode s) ≡ s
unfolding repl_percent url_encode
repl_percent-url_encode [] h = refl
repl_percent-url_encode (c ∷ s) (b, h) =
    let e : percent_byte (u_table (hex_digit (c / 16))) (u_table (hex_digit (c % 16))) ≡ c ∷ [] =
      is_one_eq (percent_byte (u_table (hex_digit (c / 16))) (u_table (hex_digit (c % 16)))) c
        (all_below-lt percent_back 256 c percent_bytes b) in
    ap (λ x. x ++ repl_percent (url_encode s)) e ∙ ap (λ r. c ∷ r) (repl_percent-url_encode s h)

-- ASCII, or a Russian letter of cp1251 but for the two that its order leaves out
abbrev pub IsLetter : ℕ → Type 0
IsLetter c = (c < 128) ⊎ ((192 ≤ c) × (c < 256))

-- The number of a letter in Unicode
abbrev code_point : ℕ → ℕ
code_point c = 1040 + (c - 192)

-- A text of cp1251 in UTF-8
unfoldable pub to_utf8 : List ℕ → List ℕ
to_utf8 [] = []
to_utf8 (c ∷ s) =
    let rest = to_utf8 s in
    if ltb c 128 then c ∷ rest else (192 + code_point c / 64) ∷ (128 + code_point c % 64) ∷ rest

abbrev letter_back : ℕ → Bool
letter_back c =
    ltb c 192 || is_one (cp1251_byte (192 + code_point c / 64) (128 + code_point c % 64)) c

letter_bytes : all_below letter_back 256 ≡ true
unfolding all_below cp1251_byte
letter_bytes = refl

ascii_first :
    (c : ℕ) (r : List ℕ)
    → ltb c 128 ≡ true
    → replace_utf8_cp1251 (c ∷ r) ≡ c ∷ replace_utf8_cp1251 r
unfolding replace_utf8_cp1251
ascii_first c [] e = rw (replace_utf8_cp1251, e) refl
ascii_first c (d ∷ r) e = rw (replace_utf8_cp1251, e) refl

letter_first :
    (c d : ℕ) (r : List ℕ)
    → ltb c 128 ≡ false
    → replace_utf8_cp1251 (c ∷ d ∷ r) ≡ cp1251_byte c d ++ replace_utf8_cp1251 r
unfolding replace_utf8_cp1251
letter_first c d r e = rw (replace_utf8_cp1251, e) refl

letter_bytes_eq :
    (c : ℕ)
    → 192 ≤ c
    → c < 256
    → cp1251_byte (192 + code_point c / 64) (128 + code_point c % 64) ≡ c ∷ []
letter_bytes_eq c a b =
    let t : letter_back c ≡ true = all_below-lt letter_back 256 c letter_bytes b in
    is_one_eq (cp1251_byte (192 + code_point c / 64) (128 + code_point c % 64)) c
      (ground (arith, t))

-- replace_utf8_cp1251 undoes UTF-8: a text of ASCII and of the Russian letters that cp1251 has from 192 on comes back
-- from its UTF-8.
pub replace_utf8_cp1251-to_utf8 :
    (s : List ℕ) → All IsLetter s → replace_utf8_cp1251 (to_utf8 s) ≡ s
unfolding to_utf8 replace_utf8_cp1251
replace_utf8_cp1251-to_utf8 [] h = refl
replace_utf8_cp1251-to_utf8 (c ∷ s) (inl a, h) =
    let e : ltb c 128 ≡ true = ground arith in
    rw (to_utf8, e)
      (ascii_first c (to_utf8 s) e ∙ ap (λ r. c ∷ r) (replace_utf8_cp1251-to_utf8 s h))
replace_utf8_cp1251-to_utf8 (c ∷ s) (inr (a, b), h) =
    let e : ltb c 128 ≡ false = ground arith in
    let x = 192 + code_point c / 64 in
    let y = 128 + code_point c % 64 in
    let f : ltb x 128 ≡ false = ground arith in
    rw (to_utf8, e)
      (letter_first x y (to_utf8 s) f
        ∙ ap (λ l. l ++ replace_utf8_cp1251 (to_utf8 s)) (letter_bytes_eq c a b)
        ∙ ap (λ r. c ∷ r) (replace_utf8_cp1251-to_utf8 s h))

-- On any bytes hex2bin undoes bin2hex, and repl_percent decodes the text in which every byte stands as % and two
-- hexadecimal digits.
pub bytes_decoded :
    (s : List ℕ) → All IsByte s → (hex2bin (bin2hex s) ≡ s) × (repl_percent (url_encode s) ≡ s)
bytes_decoded s h = (hex2bin-bin2hex s h, repl_percent-url_encode s h)
