-- ===== src/Core/Buffer/Put.antt =====
-- What each put_ method of core/oscar_buffer.cpp appends.
use tusa.Common.{ℕ, suc, ◌<◌, sym, ap, ◌∙◌, ◌+◌, ◌%◌, ◌^◌, ◌≤◌, ◌≡◌, refl, arith}
use tusa.Common.{List, [], ◌∷◌, ◌++◌, length, length-append, ◌==◌, if◌then◌else◌}
use tusa.Core.Buffer.Out.{
  OutBuffer, adjust, put_8, put_8_raw, put_bytes_raw, plus_int, pack_raw, pack, bytes_16LE,
  bytes_16BE, bytes_32LE, bytes_32BE, put_16LE, put_16BE, put_32LE, put_32BE, put_l_str,
  put_l_l_str, group, put_pn_raw, put_pn, put_pstr,
}
use tusa.Core.Buffer.Appends.{IsWf, Appends, adjust-put_bytes_raw-Appends}

-- The groups of a packed number above its lowest, highest first, without leading zeros.
unfoldable pub high_groups : ℕ → List ℕ
high_groups n =
    if group n 28 == 0
    then (if group n 21 == 0
        then (if group n 14 == 0
            then (if group n 7 == 0 then [] else group n 7 ∷ [])
            else group n 14 ∷ group n 7 ∷ [])
        else group n 21 ∷ group n 14 ∷ group n 7 ∷ [])
    else group n 28 ∷ group n 21 ∷ group n 14 ∷ group n 7 ∷ []

-- A packed number: its high groups with the top bit set, then its lowest group.
abbrev pub marked : List ℕ → ℕ → List ℕ
marked [] g = g ∷ []
marked (h ∷ gs) g = (h + 128) ∷ marked gs g

unfoldable pub bytes_pn : ℕ → List ℕ
unfolding high_groups
bytes_pn n = marked (high_groups n) (group n 0)

unfoldable pub bytes_pstr : List ℕ → List ℕ
unfolding bytes_pn
bytes_pstr s = bytes_pn (length s % 2 ^ 32) ++ s

put_bytes_raw-append :
    (s t : List ℕ) (b : OutBuffer) → put_bytes_raw (s ++ t) b ≡ put_bytes_raw t (put_bytes_raw s b)
unfolding put_bytes_raw
put_bytes_raw-append [] t b = refl
put_bytes_raw-append (c ∷ s) t b = put_bytes_raw-append s t (put_8_raw c b)

put_pn_raw-eq-put_bytes_raw :
    (n : ℕ) (b : OutBuffer) → put_pn_raw n b ≡ put_bytes_raw (bytes_pn n) b
unfolding put_pn_raw bytes_pn put_bytes_raw
put_pn_raw-eq-put_bytes_raw n b = ground arith

put_bytes_raw-moves :
    (s : List ℕ) (b : OutBuffer)
    → put_bytes_raw s b
      ≡ record b { buffer = (put_bytes_raw s b).buffer; cur_pos = b.cur_pos + length s }
unfolding put_bytes_raw put_8_raw
put_bytes_raw-moves [] b =
    let e : b.cur_pos + 0 ≡ b.cur_pos = omega arith in ap (λ n. record b { cur_pos = n }) (sym e)
put_bytes_raw-moves (c ∷ s) b =
    let e : b.cur_pos + 1 + length s ≡ b.cur_pos + suc (length s) = omega arith in
    put_bytes_raw-moves s (put_8_raw c b)
    ∙ ap (λ n. record b { buffer = (put_bytes_raw s (put_8_raw c b)).buffer; cur_pos = n }) e

-- The cast of Pack$ does no harm to a string of fewer than 2 ^ 31 bytes.
pack_raw-short : (s : List ℕ) (b : OutBuffer) → length s < 2 ^ 31 → pack_raw s b ≡ put_bytes_raw s b
unfolding pack_raw plus_int
pack_raw-short s b h =
    let e : plus_int b.cur_pos (length s) ≡ b.cur_pos + length s = ground arith in
    ap (λ n. record b { buffer = (put_bytes_raw s b).buffer; cur_pos = n }) e
    ∙ sym (put_bytes_raw-moves s b)

pub length-bytes_pn : (n : ℕ) → length (bytes_pn n) ≤ 5
unfolding bytes_pn
length-bytes_pn n = ground arith

module _ (b : OutBuffer) (w : IsWf b) where
  pub pack-Appends : (s : List ℕ) → Appends b s (pack s b)
  unfolding pack
  pack-Appends s = adjust-put_bytes_raw-Appends (length s) s b w (omega arith)

  pub put_8-Appends : (c : ℕ) → Appends b (c ∷ []) (put_8 c b)
  unfolding put_8 put_bytes_raw
  put_8-Appends c = adjust-put_bytes_raw-Appends 1 (c ∷ []) b w (omega arith)

  pub put_16LE-Appends : (l : ℕ) → Appends b (bytes_16LE l) (put_16LE l b)
  unfolding put_16LE
  put_16LE-Appends l = adjust-put_bytes_raw-Appends 2 (bytes_16LE l) b w (omega arith)

  pub put_16BE-Appends : (l : ℕ) → Appends b (bytes_16BE l) (put_16BE l b)
  unfolding put_16BE
  put_16BE-Appends l = adjust-put_bytes_raw-Appends 2 (bytes_16BE l) b w (omega arith)

  pub put_32LE-Appends : (l : ℕ) → Appends b (bytes_32LE l) (put_32LE l b)
  unfolding put_32LE
  put_32LE-Appends l = adjust-put_bytes_raw-Appends 4 (bytes_32LE l) b w (omega arith)

  pub put_32BE-Appends : (l : ℕ) → Appends b (bytes_32BE l) (put_32BE l b)
  unfolding put_32BE
  put_32BE-Appends l = adjust-put_bytes_raw-Appends 4 (bytes_32BE l) b w (omega arith)

  pub put_l_str-Appends :
      (c : List ℕ)
      → length c < 2 ^ 31
      → Appends b (bytes_16LE (length c % 2 ^ 16) ++ c) (put_l_str c b)
  unfolding put_l_str
  put_l_str-Appends c h =
      rw
        (
          pack_raw-short c _ h,
          ← put_bytes_raw-append (bytes_16LE (length c % 2 ^ 16)) c (adjust (2 + length c) b),
        )
        (adjust-put_bytes_raw-Appends (2 + length c) (bytes_16LE (length c % 2 ^ 16) ++ c) b w
          (omega arith))

  pub put_l_l_str-Appends :
      (c : List ℕ)
      → length c < 2 ^ 31
      → Appends b (bytes_32LE (length c % 2 ^ 32) ++ c) (put_l_l_str c b)
  unfolding put_l_l_str
  put_l_l_str-Appends c h =
      rw
        (
          pack_raw-short c _ h,
          ← put_bytes_raw-append (bytes_32LE (length c % 2 ^ 32)) c (adjust (4 + length c) b),
        )
        (adjust-put_bytes_raw-Appends (4 + length c) (bytes_32LE (length c % 2 ^ 32) ++ c) b w
          (omega arith))

  pub put_pn-Appends : (n : ℕ) → Appends b (bytes_pn n) (put_pn n b)
  unfolding put_pn
  put_pn-Appends n =
      rw (put_pn_raw-eq-put_bytes_raw n (adjust 5 b))
        (adjust-put_bytes_raw-Appends 5 (bytes_pn n) b w (length-bytes_pn n))

  pub put_pstr-Appends : (c : List ℕ) → length c < 2 ^ 31 → Appends b (bytes_pstr c) (put_pstr c b)
  unfolding put_pstr bytes_pstr
  put_pstr-Appends c h =
      let room = adjust (5 + length c) b in
      let fits : length (bytes_pn (length c % 2 ^ 32) ++ c) ≤ 5 + length c = omega (
        arith,
        length-append (bytes_pn (length c % 2 ^ 32)) c,
        length-bytes_pn (length c % 2 ^ 32),
      ) in
      rw
        (
          pack_raw-short c _ h,
          put_pn_raw-eq-put_bytes_raw (length c % 2 ^ 32) (adjust (5 + length c) b),
          ← put_bytes_raw-append (bytes_pn (length c % 2 ^ 32)) c (adjust (5 + length c) b),
        )
        (adjust-put_bytes_raw-Appends (5 + length c) _ b w fits)
