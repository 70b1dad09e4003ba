-- ===== src/Core/Buffer/Reads.antt =====
-- The reading methods of core/oscar_buffer.cpp at a position in front of known bytes.
use tusa.Common.{ℕ, zero, suc, ◌+◌, ◌*◌, ◌%◌, ◌^◌, ◌<◌, ◌≡◌, refl, sym, ◌∙◌, arith}
use tusa.Common.{
  List, [], ◌∷◌, ◌++◌, append_assoc, append-nil, length, length-append, get_or-append, All,
}
use mathlib.Core.Path.{ap₂}
use tusa.Core.Buffer.In.{InBuffer, remains, get_8, get_chars, get_pn_loop, get_pn, get_pstr}
use tusa.Core.Buffer.Out.{group}
use tusa.Core.Buffer.Put.{marked, bytes_pn, bytes_pstr, high_groups}

-- A buffer whose bytes are `pre` (read already) and `rest`.
abbrev pub at : List ℕ → List ℕ → InBuffer
at pre rest = record { bytes = pre ++ rest; out_pos = length pre }

-- `get` reads `s` as the value `v` and leaves the position behind it, wherever `s` stands.
abbrev pub Reads {ℓ} : {A : Type ℓ} → (InBuffer → A × InBuffer) → List ℕ → A → Type ℓ
Reads get s v = (pre rest : List ℕ) → get (at pre (s ++ rest)) ≡ (v, at (pre ++ s) rest)

pub at-append :
    (pre s rest : List ℕ)
    → record { bytes = pre ++ (s ++ rest); out_pos = length pre + length s } ≡ at (pre ++ s) rest
at-append pre s rest = rw (append_assoc pre s rest, length-append pre s) refl

pub remains-at : (pre rest : List ℕ) → remains (at pre rest) ≡ length rest
unfolding remains
remains-at pre rest = omega (arith, length-append pre rest)

pub get_8-at :
    (pre : List ℕ) (c : ℕ) (rest : List ℕ)
    → get_8 (at pre (c ∷ rest)) ≡ (c, at (pre ++ c ∷ []) rest)
unfolding get_8
get_8-at pre c rest =
    ground
      (arith, length-append pre (c ∷ rest), get_or-append pre c rest 0, at-append pre (c ∷ []) rest)

pub get_chars-at :
    (s acc pre rest : List ℕ)
    → get_chars (length s) acc (at pre (s ++ rest)) ≡ (acc ++ s, at (pre ++ s) rest)
unfolding get_chars
get_chars-at [] acc pre rest =
    ap₂ (λ a p. (a, at p rest)) (sym (append-nil acc)) (sym (append-nil pre))
get_chars-at (c ∷ s) acc pre rest = ground (
  arith,
  length-append pre (c ∷ (s ++ rest)),
  get_8-at pre c (s ++ rest),
  get_chars-at s (acc ++ c ∷ []) (pre ++ c ∷ []) rest,
  append_assoc acc (c ∷ []) s,
  append_assoc pre (c ∷ []) s,
)

-- The number that get_pn has read after high groups and a lowest group.
abbrev pub groups_value : ℕ → List ℕ → ℕ → ℕ
groups_value nn [] g = nn * 2 ^ 7 % 2 ^ 32 + g
groups_value nn (h ∷ gs) g = groups_value (nn * 2 ^ 7 % 2 ^ 32 + h) gs g

get_pn_loop-last :
    (fuel nn g : ℕ) (pre rest : List ℕ)
    → g < 128
    → get_pn_loop (suc fuel) nn (at pre (g ∷ rest))
      ≡ (nn * 2 ^ 7 % 2 ^ 32 + g, at (pre ++ g ∷ []) rest)
unfolding get_pn_loop
get_pn_loop-last fuel nn g pre rest h = ground (arith, get_8-at pre g rest)

get_pn_loop-inner :
    (fuel nn g : ℕ) (pre rest : List ℕ)
    → g < 128
    → get_pn_loop (suc fuel) nn (at pre ((g + 128) ∷ rest))
      ≡ get_pn_loop fuel (nn * 2 ^ 7 % 2 ^ 32 + g) (at (pre ++ (g + 128) ∷ []) rest)
unfolding get_pn_loop
get_pn_loop-inner fuel nn g pre rest h =
    let low : (g + 128) % 128 ≡ g = omega arith in ground (arith, get_8-at pre (g + 128) rest, low)

get_pn_loop-marked :
    (gs : List ℕ) (fuel nn g : ℕ) (pre rest : List ℕ)
    → All (λ h. h < 128) gs
    → g < 128
    → length gs < fuel
    → get_pn_loop fuel nn (at pre (marked gs g ++ rest))
      ≡ (groups_value nn gs g, at (pre ++ marked gs g) rest)
get_pn_loop-marked gs zero nn g pre rest hs h f = absurd (omega arith)
get_pn_loop-marked [] (suc fuel) nn g pre rest hs h f = get_pn_loop-last fuel nn g pre rest h
get_pn_loop-marked (k ∷ gs) (suc fuel) nn g pre rest hs h f =
    get_pn_loop-inner fuel nn k pre (marked gs g ++ rest) hs.0
    ∙ get_pn_loop-marked gs fuel _ g (pre ++ (k + 128) ∷ []) rest hs.1 h (omega arith)
    ∙ rw (append_assoc pre ((k + 128) ∷ []) (marked gs g)) refl

high_groups-lt : (n : ℕ) → All (λ h. h < 128) (high_groups n)
unfolding high_groups
high_groups-lt n = ground arith

high_groups_value : (n : ℕ) → n < 2 ^ 32 → groups_value 0 (high_groups n) (group n 0) ≡ n
unfolding high_groups
high_groups_value n h = ground arith

length-marked : (gs : List ℕ) (g : ℕ) (rest : List ℕ) → length gs < length (marked gs g ++ rest)
length-marked [] g rest = omega arith
length-marked (k ∷ gs) g rest = omega (arith, length-marked gs g rest)

-- get_pn reads back the unsigned int whose packed bytes stand at the position.
pub get_pn-Reads : (n : ℕ) → n < 2 ^ 32 → Reads get_pn (bytes_pn n) n
unfolding get_pn bytes_pn
get_pn-Reads n h pre rest = rw (remains-at pre (marked (high_groups n) (group n 0) ++ rest)) (
    get_pn_loop-marked (high_groups n) (suc (length (marked (high_groups n) (group n 0) ++ rest))) 0
      (group n 0) pre rest (high_groups-lt n) (omega arith)
      (omega (arith, length-marked (high_groups n) (group n 0) rest))
    ∙ rw (high_groups_value n h) refl)

pub get_pstr-Reads : (s : List ℕ) → length s < 2 ^ 32 → Reads get_pstr (bytes_pstr s) s
unfolding get_pstr bytes_pstr
get_pstr-Reads s h pre rest =
    let fits : length s % 2 ^ 32 ≡ length s = omega arith in
    rw (fits, append_assoc (bytes_pn (length s)) s rest, get_pn-Reads (length s) h pre (s ++ rest))
      (get_chars-at s [] (pre ++ bytes_pn (length s)) rest
        ∙ rw (append_assoc pre (bytes_pn (length s)) s) refl)
