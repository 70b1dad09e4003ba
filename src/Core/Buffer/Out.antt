-- ===== src/Core/Buffer/Out.antt =====
-- class out_oscar_buffer of core/oscar_buffer.h and core/oscar_buffer.cpp: a growing array of bytes
-- with a write position. The methods whose names end in $ skip `adjust`; here they end in `_raw`.
-- `x & 0xFF` is `x % 256`, `x >> k` is `x / 2 ^ k`, and `c | 0x80` at a `c` below 128 is `c + 128`.
use tusa.Common.{ℕ, ◌+◌, ◌-◌, ◌/◌, ◌%◌, ◌^◌, List, [], ◌∷◌, ◌++◌}
use tusa.Common.{length, set, take, replicate, leb, ltb, ◌==◌, if◌then◌else◌}

-- `junk` is the value of the bytes that malloc and realloc leave undefined.
pub record OutBuffer : Type 0 where
  pub buffer : List ℕ
  pub bufsize : ℕ
  pub cur_pos : ℕ
  pub junk : ℕ

-- out_oscar_buffer::out_oscar_buffer()
unfoldable pub new_buffer : ℕ → OutBuffer
new_buffer junk = record { buffer = replicate 256 junk; bufsize = 256; cur_pos = 0; junk = junk }

-- realloc keeps what there was, and leaves the bytes behind it undefined.
unfoldable pub realloc : List ℕ → ℕ → ℕ → List ℕ
realloc old nnew junk = take nnew old ++ replicate (nnew - length old) junk

unfoldable pub adjust : ℕ → OutBuffer → OutBuffer
unfolding realloc
adjust n b =
    if leb b.bufsize (b.cur_pos + n)
    then record b {
      buffer = realloc b.buffer (b.cur_pos + n + 1024) b.junk;
      bufsize = b.cur_pos + n + 1024;
    }
    else b

unfoldable pub clear : OutBuffer → OutBuffer
clear b = record b { cur_pos = 0 }

unfoldable pub as_string : OutBuffer → List ℕ
as_string b = take b.cur_pos b.buffer

unfoldable pub size : OutBuffer → ℕ
size b = b.cur_pos

-- put_8$: buffer[cur_pos++] = c.
unfoldable pub put_8_raw : ℕ → OutBuffer → OutBuffer
put_8_raw c b = record b { buffer = set b.buffer b.cur_pos c; cur_pos = b.cur_pos + 1 }

-- A run of statements buffer[cur_pos++] = c, or memcpy and as many steps.
unfoldable pub put_bytes_raw : List ℕ → OutBuffer → OutBuffer
unfolding put_8_raw
put_bytes_raw [] b = b
put_bytes_raw (c ∷ s) b = put_bytes_raw s (put_8_raw c b)

-- cur_pos += (int)n: from 2 ^ 31 on the int is negative, and the position, a size_t, goes back.
unfoldable pub plus_int : ℕ → ℕ → ℕ
plus_int p n =
    let k = n % 2 ^ 32 in if ltb k (2 ^ 31) then p + k else (p + k + (2 ^ 64 - 2 ^ 32)) % 2 ^ 64

-- Pack$: memcpy, and the size as an int
unfoldable pub pack_raw : List ℕ → OutBuffer → OutBuffer
unfolding put_bytes_raw plus_int
pack_raw s b = record b {
  buffer = (put_bytes_raw s b).buffer;
  cur_pos = plus_int b.cur_pos (length s);
}

-- Pack, which adds the size as it is.
unfoldable pub pack : List ℕ → OutBuffer → OutBuffer
pack s b = put_bytes_raw s (adjust (length s) b)

unfoldable pub put_8 : ℕ → OutBuffer → OutBuffer
put_8 c b = put_8_raw c (adjust 1 b)

abbrev pub bytes_16LE : ℕ → List ℕ
bytes_16LE l = l % 256 ∷ l / 2 ^ 8 % 256 ∷ []

abbrev pub bytes_16BE : ℕ → List ℕ
bytes_16BE l = l / 2 ^ 8 % 256 ∷ l % 256 ∷ []

abbrev pub bytes_32LE : ℕ → List ℕ
bytes_32LE l = l % 256 ∷ l / 2 ^ 8 % 256 ∷ l / 2 ^ 16 % 256 ∷ l / 2 ^ 24 % 256 ∷ []

abbrev pub bytes_32BE : ℕ → List ℕ
bytes_32BE l = l / 2 ^ 24 % 256 ∷ l / 2 ^ 16 % 256 ∷ l / 2 ^ 8 % 256 ∷ l % 256 ∷ []

unfoldable pub put_16LE : ℕ → OutBuffer → OutBuffer
put_16LE l b = put_bytes_raw (bytes_16LE l) (adjust 2 b)

unfoldable pub put_16BE : ℕ → OutBuffer → OutBuffer
put_16BE l b = put_bytes_raw (bytes_16BE l) (adjust 2 b)

unfoldable pub put_32LE : ℕ → OutBuffer → OutBuffer
put_32LE l b = put_bytes_raw (bytes_32LE l) (adjust 4 b)

unfoldable pub put_32BE : ℕ → OutBuffer → OutBuffer
put_32BE l b = put_bytes_raw (bytes_32BE l) (adjust 4 b)

-- (unsigned short)c.size() before the bytes
unfoldable pub put_l_str : List ℕ → OutBuffer → OutBuffer
put_l_str c b =
    pack_raw c (put_bytes_raw (bytes_16LE (length c % 2 ^ 16)) (adjust (2 + length c) b))

unfoldable pub put_l_l_str : List ℕ → OutBuffer → OutBuffer
put_l_l_str c b =
    pack_raw c (put_bytes_raw (bytes_32LE (length c % 2 ^ 32)) (adjust (4 + length c) b))

-- put_pn$: seven bits a byte, the highest group first, the top bit set on all but the last byte.
-- The groups of the source, c1 (the lowest) to c5, are `group N 0` to `group N 28`.
abbrev pub group : ℕ → ℕ → ℕ
group n k = n / 2 ^ k % 128

unfoldable pub put_pn_raw : ℕ → OutBuffer → OutBuffer
unfolding put_bytes_raw
put_pn_raw n b =
    let c1 = group n 0 in
    let c2 = group n 7 in
    let c3 = group n 14 in
    let c4 = group n 21 in
    let c5 = group n 28 in
    if c5 == 0
    then (if c4 == 0
        then (if c3 == 0
            then (if c2 == 0 then put_8_raw c1 b else put_8_raw c1 (put_8_raw (c2 + 128) b))
            else put_8_raw c1 (put_8_raw (c2 + 128) (put_8_raw (c3 + 128) b)))
        else put_8_raw c1 (put_8_raw (c2 + 128) (put_8_raw (c3 + 128) (put_8_raw (c4 + 128) b))))
    else put_8_raw c1 (
        put_8_raw (c2 + 128) (put_8_raw (c3 + 128) (put_8_raw (c4 + 128) (put_8_raw (c5 + 128) b))))

unfoldable pub put_pn : ℕ → OutBuffer → OutBuffer
put_pn n b = put_pn_raw n (adjust 5 b)

unfoldable pub put_pstr : List ℕ → OutBuffer → OutBuffer
put_pstr c b = pack_raw c (put_pn_raw (length c % 2 ^ 32) (adjust (5 + length c) b))
