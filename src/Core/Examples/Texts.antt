-- ===== src/Core/Examples/Texts.antt =====
-- Short texts, to which the theorems on the strings of the core are applied.
use tusa.Common.{ℕ, ◌≡◌, refl, List, [], ◌∷◌, map, inl, inr, arith, if◌then◌else◌}
use tusa.Common.Maps.{member}
use tusa.Common.Dicts.{lookup, same_string}
use mathlib.Core.Option.{Option, none, some}
use tusa.Bot.Texts.{join, atoi}
use tusa.Core.Config.{load_m_file, set_cfg}
use tusa.Core.Config.Loaded.{line, last_value, is_plain, is_file, load_m_file-last}
use tusa.Core.Config.Taken.{set_cfg-again}
use tusa.Core.Strings.{bin2hex, hex2bin, repl_percent, replace_utf8_cp1251}
use tusa.Core.Strings.Decoding.{url_encode, to_utf8, bytes_decoded, replace_utf8_cp1251-to_utf8}

bytes_decoded_example :
    (hex2bin (bin2hex (0 ∷ 37 ∷ 255 ∷ [])) ≡ 0 ∷ 37 ∷ 255 ∷ [])
    × (repl_percent (url_encode (0 ∷ 37 ∷ 255 ∷ [])) ≡ 0 ∷ 37 ∷ 255 ∷ [])
bytes_decoded_example =
    bytes_decoded (0 ∷ 37 ∷ 255 ∷ []) (omega arith, (omega arith, (omega arith, tt)))

replace_utf8_cp1251-to_utf8_example :
    replace_utf8_cp1251 (to_utf8 (65 ∷ 192 ∷ 255 ∷ [])) ≡ 65 ∷ 192 ∷ 255 ∷ []
replace_utf8_cp1251-to_utf8_example =
    replace_utf8_cp1251-to_utf8 (65 ∷ 192 ∷ 255 ∷ [])
      (inl (omega arith), (inr (omega arith, omega arith), (inr (omega arith, omega arith), tt)))

abbrev entries : List (List ℕ × List ℕ)
entries = (97 ∷ [], 49 ∷ []) ∷ (98 ∷ [], 50 ∷ []) ∷ (97 ∷ [], 51 ∷ []) ∷ []

abbrev one_file : List ℕ → Option (List ℕ)
one_file fn = some (join (10 ∷ []) ((37 ∷ 115 ∷ []) ∷ map line entries))

load_m_file-last_example :
    lookup (115 ∷ 95 ∷ 97 ∷ []) (load_m_file one_file (99 ∷ []))
    ≡ last_value (115 ∷ []) (115 ∷ 95 ∷ 97 ∷ []) none entries
unfolding is_plain is_file member
load_m_file-last_example =
    load_m_file-last one_file (99 ∷ []) (115 ∷ []) (115 ∷ 95 ∷ 97 ∷ []) entries refl
      (
        (omega arith, (refl, (refl, tt))),
        (
          (omega arith, (refl, (refl, (refl, tt)))),
          (
            (omega arith, (refl, (refl, (refl, tt)))),
            ((omega arith, (refl, (refl, (refl, tt)))), tt),
          ),
        ),
      )
      ((refl, (refl, tt), refl), ((refl, (refl, tt), refl), ((refl, (refl, tt), refl), tt)))

set_cfg-again_example :
    (set_cfg atoi (98 ∷ []) 7 (set_cfg (λ w. w) (97 ∷ []) [] entries).1).0
    ≡ (if same_string (97 ∷ []) (98 ∷ []) then 7 else (set_cfg atoi (98 ∷ []) 7 entries).0)
set_cfg-again_example = set_cfg-again atoi (λ w. w) (97 ∷ []) (98 ∷ []) 7 [] entries
