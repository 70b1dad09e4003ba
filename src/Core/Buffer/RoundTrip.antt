-- ===== src/Core/Buffer/RoundTrip.antt =====
-- What core/oscar_buffer.cpp writes, it reads back: each put_ method against its get_ method.
use tusa.Common.{ℕ, ◌%◌, ◌^◌, ◌<◌, ◌≡◌, refl, ap, ◌∙◌, arith}
use tusa.Common.{List, [], ◌∷◌, ◌++◌, append_assoc, length, length-append, get_or-append_add}
use tusa.Core.Buffer.Out.{
  OutBuffer, as_string, bytes_16LE, bytes_16BE, bytes_32LE, bytes_32BE, put_8, put_16LE, put_16BE,
  put_32LE, put_32BE, put_l_str, put_l_l_str, put_pn, put_pstr,
}
use tusa.Core.Buffer.In.{
  InBuffer, get_8, get_16LE, get_16BE, get_32LE, get_32BE, get_chars, get_pn, get_pstr, get_l_str,
  get_l_l_str,
}
use tusa.Core.Buffer.Appends.{IsWf, Appends}
use tusa.Core.Buffer.Put
use tusa.Core.Buffer.Reads.{Reads, at-append, get_8-at, get_chars-at, get_pn-Reads, get_pstr-Reads}

-- `b'` extends `b`, and from where `b` ended `get` reads `v` and stops where `b'` ended, whatever
-- follows.
abbrev pub ReadsBack {ℓ} :
    {A : Type ℓ} → (InBuffer → A × InBuffer) → A → OutBuffer → OutBuffer → Type ℓ
ReadsBack get v b b' =
    (rest : List ℕ)
    → get (record { bytes = as_string b' ++ rest; out_pos = length (as_string b) })
      ≡ (v, record { bytes = as_string b' ++ rest; out_pos = length (as_string b') })

pub Reads-ReadsBack {ℓ} :
    {A : Type ℓ} (get : InBuffer → A × InBuffer) (s : List ℕ) (v : A) {b b' : OutBuffer}
    → Reads get s v
    → Appends b s b'
    → ReadsBack get v b b'
Reads-ReadsBack get s v {b = b} r a rest = rw a.text (
    ap (λ x. get (record { bytes = x; out_pos = length (as_string b) }))
      (append_assoc (as_string b) s rest)
    ∙ r (as_string b) rest)

get_8-Reads : (c : ℕ) → Reads get_8 (c ∷ []) c
get_8-Reads c pre rest = get_8-at pre c rest

get_16LE-Reads : (l : ℕ) → l < 2 ^ 16 → Reads get_16LE (bytes_16LE l) l
unfolding get_16LE
get_16LE-Reads l h pre rest = ground (
  arith,
  length-append pre (bytes_16LE l ++ rest),
  get_or-append_add pre (bytes_16LE l ++ rest) 0 0,
  get_or-append_add pre (bytes_16LE l ++ rest) 1 0,
  at-append pre (bytes_16LE l) rest,
)

get_16BE-Reads : (l : ℕ) → l < 2 ^ 16 → Reads get_16BE (bytes_16BE l) l
unfolding get_16BE
get_16BE-Reads l h pre rest = ground (
  arith,
  length-append pre (bytes_16BE l ++ rest),
  get_or-append_add pre (bytes_16BE l ++ rest) 0 0,
  get_or-append_add pre (bytes_16BE l ++ rest) 1 0,
  at-append pre (bytes_16BE l) rest,
)

get_32LE-Reads : (l : ℕ) → l < 2 ^ 32 → Reads get_32LE (bytes_32LE l) l
unfolding get_32LE
get_32LE-Reads l h pre rest = ground (
  arith,
  length-append pre (bytes_32LE l ++ rest),
  get_or-append_add pre (bytes_32LE l ++ rest) 0 0,
  get_or-append_add pre (bytes_32LE l ++ rest) 1 0,
  get_or-append_add pre (bytes_32LE l ++ rest) 2 0,
  get_or-append_add pre (bytes_32LE l ++ rest) 3 0,
  at-append pre (bytes_32LE l) rest,
)

get_32BE-Reads : (l : ℕ) → l < 2 ^ 32 → Reads get_32BE (bytes_32BE l) l
unfolding get_32BE
get_32BE-Reads l h pre rest = ground (
  arith,
  length-append pre (bytes_32BE l ++ rest),
  get_or-append_add pre (bytes_32BE l ++ rest) 0 0,
  get_or-append_add pre (bytes_32BE l ++ rest) 1 0,
  get_or-append_add pre (bytes_32BE l ++ rest) 2 0,
  get_or-append_add pre (bytes_32BE l ++ rest) 3 0,
  at-append pre (bytes_32BE l) rest,
)

-- A length read by `get_len`, then that many bytes.
counted-Reads :
    (get_len : InBuffer → ℕ × InBuffer) (len s : List ℕ)
    → Reads get_len len (length s)
    → Reads (λ b. get_chars (get_len b).0 [] (get_len b).1) (len ++ s) s
counted-Reads get_len len s r pre rest =
    rw (append_assoc len s rest, r pre (s ++ rest))
      (get_chars-at s [] (pre ++ len) rest ∙ rw (append_assoc pre len s) refl)

get_l_str-Reads :
    (s : List ℕ) → length s < 2 ^ 16 → Reads get_l_str (bytes_16LE (length s % 2 ^ 16) ++ s) s
unfolding get_l_str
get_l_str-Reads s h =
    let fits : length s % 2 ^ 16 ≡ length s = omega arith in
    rw fits (counted-Reads get_16LE (bytes_16LE (length s)) s (get_16LE-Reads (length s) h))

get_l_l_str-Reads :
    (s : List ℕ) → length s < 2 ^ 32 → Reads get_l_l_str (bytes_32LE (length s % 2 ^ 32) ++ s) s
unfolding get_l_l_str
get_l_l_str-Reads s h =
    let fits : length s % 2 ^ 32 ≡ length s = omega arith in
    rw fits (counted-Reads get_32LE (bytes_32LE (length s)) s (get_32LE-Reads (length s) h))

pub put_8-ReadsBack : (b : OutBuffer) (c : ℕ) → IsWf b → ReadsBack get_8 c b (put_8 c b)
put_8-ReadsBack b c w = Reads-ReadsBack get_8 (c ∷ []) c (get_8-Reads c) (Put.put_8-Appends b w c)

-- In a well-formed buffer a 16-bit and a 32-bit word read back, little and big end first, and the
-- reader stops where the writer did.
pub words-ReadsBack :
    (b : OutBuffer) (l m : ℕ)
    → IsWf b
    → l < 2 ^ 16
    → m < 2 ^ 32
    → ReadsBack get_16LE l b (put_16LE l b)
      × ReadsBack get_16BE l b (put_16BE l b)
      × ReadsBack get_32LE m b (put_32LE m b)
      × ReadsBack get_32BE m b (put_32BE m b)
words-ReadsBack b l m w h k = (
  Reads-ReadsBack get_16LE (bytes_16LE l) l (get_16LE-Reads l h) (Put.put_16LE-Appends b w l),
  Reads-ReadsBack get_16BE (bytes_16BE l) l (get_16BE-Reads l h) (Put.put_16BE-Appends b w l),
  Reads-ReadsBack get_32LE (bytes_32LE m) m (get_32LE-Reads m k) (Put.put_32LE-Appends b w m),
  Reads-ReadsBack get_32BE (bytes_32BE m) m (get_32BE-Reads m k) (Put.put_32BE-Appends b w m),
)

-- In a well-formed buffer every unsigned int reads back from its packed form.
pub put_pn-ReadsBack :
    (b : OutBuffer) (n : ℕ) → IsWf b → n < 2 ^ 32 → ReadsBack get_pn n b (put_pn n b)
put_pn-ReadsBack b n w h = Reads-ReadsBack get_pn _ n (get_pn-Reads n h) (Put.put_pn-Appends b w n)

-- In a well-formed buffer a string of any bytes reads back behind its packed length and behind a
-- 32-bit length, if it is shorter than 2 ^ 31, and behind a 16-bit length, if it is shorter than
-- 2 ^ 16.
pub strings-ReadsBack :
    (b : OutBuffer) (s t : List ℕ)
    → IsWf b
    → length s < 2 ^ 31
    → length t < 2 ^ 16
    → ReadsBack get_pstr s b (put_pstr s b)
      × ReadsBack get_l_l_str s b (put_l_l_str s b)
      × ReadsBack get_l_str t b (put_l_str t b)
strings-ReadsBack b s t w h k = (
  Reads-ReadsBack get_pstr _ s (get_pstr-Reads s (omega arith)) (Put.put_pstr-Appends b w s h),
  Reads-ReadsBack get_l_l_str _ s (get_l_l_str-Reads s (omega arith))
      (Put.put_l_l_str-Appends b w s h),
  Reads-ReadsBack get_l_str _ t (get_l_str-Reads t k) (Put.put_l_str-Appends b w t (omega arith)),
)
