-- ===== src/Core/Buffer/In.antt =====
-- class oscar_buffer of core/oscar_buffer.h and core/oscar_buffer.cpp: a constant array of bytes and
-- a read position. Reads past the end give 0 or what is left, and never fail.
use tusa.Common.{ℕ, zero, suc, ◌+◌, ◌-◌, ◌*◌, ◌%◌, ◌^◌, List, [], ◌∷◌, ◌++◌, Bool}
use tusa.Common.{length, get_or, take, drop, ltb, if◌then◌else◌}

-- The length of `bytes` is the source's dsize.
pub record InBuffer : Type 0 where
  pub bytes : List ℕ
  pub out_pos : ℕ

unfoldable pub dsize : InBuffer → ℕ
dsize b = length b.bytes

unfoldable pub remains : InBuffer → ℕ
unfolding dsize
remains b = dsize b - b.out_pos

unfoldable pub before_end : InBuffer → Bool
unfolding dsize
before_end b = ltb b.out_pos (dsize b)

-- data[out_pos + k], which the callers read in bounds only.
abbrev pub byte_at : InBuffer → ℕ → ℕ
byte_at b k = get_or b.bytes (b.out_pos + k) 0

abbrev pub advance : InBuffer → ℕ → InBuffer
advance b k = record b { out_pos = b.out_pos + k }

unfoldable pub unpack : ℕ → InBuffer → List ℕ × InBuffer
unfolding dsize
unpack size b =
    let n = if ltb (dsize b - b.out_pos) size then dsize b - b.out_pos else size in
    (take n (drop b.out_pos b.bytes), advance b n)

unfoldable pub get_8 : InBuffer → ℕ × InBuffer
unfolding dsize
get_8 b = if ltb (dsize b) (b.out_pos + 1) then (0, b) else (byte_at b 0, advance b 1)

unfoldable pub get_16LE : InBuffer → ℕ × InBuffer
unfolding dsize
get_16LE b =
    if ltb (dsize b) (b.out_pos + 2)
    then (0, b)
    else ((byte_at b 0 + byte_at b 1 * 2 ^ 8) % 2 ^ 16, advance b 2)

unfoldable pub get_16BE : InBuffer → ℕ × InBuffer
unfolding dsize
get_16BE b =
    if ltb (dsize b) (b.out_pos + 2)
    then (0, b)
    else ((byte_at b 0 * 2 ^ 8 + byte_at b 1) % 2 ^ 16, advance b 2)

unfoldable pub get_32LE : InBuffer → ℕ × InBuffer
unfolding dsize
get_32LE b = if ltb (dsize b) (b.out_pos + 4) then (0, b) else (
  (byte_at b 0 + byte_at b 1 * 2 ^ 8 + byte_at b 2 * 2 ^ 16 + byte_at b 3 * 2 ^ 24) % 2 ^ 32,
  advance b 4,
)

unfoldable pub get_32BE : InBuffer → ℕ × InBuffer
unfolding dsize
get_32BE b = if ltb (dsize b) (b.out_pos + 4) then (0, b) else (
  (byte_at b 0 * 2 ^ 24 + byte_at b 1 * 2 ^ 16 + byte_at b 2 * 2 ^ 8 + byte_at b 3) % 2 ^ 32,
  advance b 4,
)

-- for (i = 0; i < sz && beforeEnd(); i++) container += get_8()
unfoldable pub get_chars : ℕ → List ℕ → InBuffer → List ℕ × InBuffer
unfolding get_8 before_end
get_chars zero container b = (container, b)
get_chars (suc n) container b =
    let (c, b') = get_8 b in
    let rest = get_chars n (container ++ c ∷ []) b' in if before_end b then rest else (container, b)

unfoldable pub get_l_str : InBuffer → List ℕ × InBuffer
unfolding get_16LE
get_l_str b = let (sz, b') = get_16LE b in get_chars sz [] b'

unfoldable pub get_l_l_str : InBuffer → List ℕ × InBuffer
unfolding get_32LE
get_l_l_str b = let (sz, b') = get_32LE b in get_chars sz [] b'

-- while (1) of get_pn, on an unsigned int NN. `NN <<= 7` leaves seven zero bits, so `NN |= c` adds.
unfoldable pub get_pn_loop : ℕ → ℕ → InBuffer → ℕ × InBuffer
unfolding get_8
get_pn_loop zero nn b = (nn, b)
get_pn_loop (suc fuel) nn b =
    let (c, b') = get_8 b in
    let nn' = nn * 2 ^ 7 % 2 ^ 32 + c % 128 in
    let more = get_pn_loop fuel nn' b' in if ltb c 0x80 then (nn', b') else more

-- Each round takes a byte, and at the end get_8 returns 0, which ends the loop.
unfoldable pub get_pn : InBuffer → ℕ × InBuffer
unfolding get_pn_loop remains
get_pn b = get_pn_loop (suc (remains b)) 0 b

unfoldable pub get_pstr : InBuffer → List ℕ × InBuffer
unfolding get_pn get_chars
get_pstr b = let (sz, b') = get_pn b in get_chars sz [] b'
