-- ===== src/Core/Buffer/Flap.antt =====
-- The packets of core/oscar_buffer.h and core/oscar_buffer.cpp: FS_outV2 and F_outV2 start a packet
-- with a header whose length is filled in at the end, by calc_size, which OCALC calls.
use tusa.Common.{ℕ, zero, suc, ◌+◌, ◌-◌, ◌%◌, ◌^◌, ◌<◌, ◌≡◌, refl, sym, ap, ◌∙◌, arith}
use tusa.Common.{List, [], ◌∷◌, ◌++◌, append_assoc, length, length-append, set, take, drop}
use mathlib.Core.Path.{ap₂}
use tusa.Common.{length-take, leb, false}
use tusa.Core.Buffer.Out.{
  OutBuffer, new_buffer, as_string, adjust, put_8, put_8_raw, put_bytes_raw, put_32LE, bytes_32LE,
}
use tusa.Core.Buffer.Appends.{IsWf, Appends, Appends-trans, new_buffer-IsWf}
use tusa.Core.Buffer.Put.{put_8-Appends, put_32LE-Appends}

-- FLAP2_HEADER_SIZE: two bytes and an unsigned int
abbrev pub header_size : ℕ
header_size = 6

abbrev pub start_byte : ℕ
start_byte = 22

-- FS_outV2::FS_outV2; `fam` and `stype` are int and are cut to a byte by put_8
unfoldable pub fs_out : ℕ → ℕ → ℕ → ℕ → OutBuffer
fs_out junk channel fam stype =
    put_8 (stype % 256)
      (put_8 (fam % 256) (put_32LE 0 (put_8 channel (put_8 start_byte (new_buffer junk)))))

-- F_outV2::F_outV2
unfoldable pub f_out : ℕ → ℕ → OutBuffer
f_out junk channel = put_32LE 0 (put_8 channel (put_8 start_byte (new_buffer junk)))

-- calc_size: the length behind the header, written over bytes 2 to 5.
unfoldable pub calc_size : OutBuffer → OutBuffer
calc_size b =
    let ocp = b.cur_pos in
    let p = put_32LE ((ocp + 2 ^ 64 - header_size) % 2 ^ 32) (record b { cur_pos = 2 }) in
    record p { cur_pos = ocp }

-- OCALC(b).as_string()
unfoldable pub ocalc : OutBuffer → List ℕ
unfolding calc_size as_string
ocalc b = as_string (calc_size b)

set-append :
    (pre : List ℕ) (o c : ℕ) (post : List ℕ)
    → set (pre ++ o ∷ post) (length pre) c ≡ pre ++ c ∷ post
set-append [] o c post = refl
set-append (x ∷ pre) o c post = ap (λ t. x ∷ t) (set-append pre o c post)

take-length : (xs ys : List ℕ) → take (length xs) (xs ++ ys) ≡ xs
take-length [] ys = refl
take-length (x ∷ xs) ys = ap (λ t. x ∷ t) (take-length xs ys)

take-append-drop : (n : ℕ) (xs : List ℕ) → take n xs ++ drop n xs ≡ xs
take-append-drop zero xs = refl
take-append-drop (suc n) [] = refl
take-append-drop (suc n) (x ∷ xs) = ap (λ t. x ∷ t) (take-append-drop n xs)

-- A run of writes over as many bytes.
put_bytes_raw-over :
    (s old pre post : List ℕ) (b : OutBuffer)
    → length old ≡ length s
    → b.buffer ≡ pre ++ (old ++ post)
    → b.cur_pos ≡ length pre
    → (put_bytes_raw s b).buffer ≡ pre ++ (s ++ post)
unfolding put_bytes_raw
put_bytes_raw-over [] [] pre post b h e p = e
put_bytes_raw-over [] (o ∷ old) pre post b h e p = absurd (omega arith)
put_bytes_raw-over (c ∷ s) [] pre post b h e p = absurd (omega arith)
put_bytes_raw-over (c ∷ s) (o ∷ old) pre post b h e p =
    put_bytes_raw-over s old (pre ++ c ∷ []) post (put_8_raw c b) (omega arith) written
      (omega (arith, p, length-append pre (c ∷ [])))
    ∙ append_assoc pre (c ∷ []) (s ++ post)
  where
    written : set b.buffer b.cur_pos c ≡ (pre ++ c ∷ []) ++ (old ++ post)
    written =
        ap₂ (λ x n. set x n c) e p
        ∙ set-append pre o c (old ++ post)
        ∙ sym (append_assoc pre (c ∷ []) (old ++ post))

-- calc_size on a buffer whose array is written out: the header's last four bytes are replaced.
calc_size-over :
    (b : OutBuffer) (x ch : ℕ) (h body post : List ℕ)
    → length h ≡ 4
    → header_size < b.bufsize
    → b.buffer ≡ x ∷ ch ∷ (h ++ (body ++ post))
    → b.cur_pos ≡ header_size + length body
    → length body < 2 ^ 32
    → (calc_size b).buffer ≡ x ∷ ch ∷ (bytes_32LE (length body) ++ (body ++ post))
unfolding calc_size put_32LE adjust
calc_size-over b x ch h body post four room e p fits =
    let small : leb b.bufsize (2 + 4) ≡ false = ground arith in
    let len : (b.cur_pos + 2 ^ 64 - header_size) % 2 ^ 32 ≡ length body = omega arith in
    rw (small, len)
      (put_bytes_raw-over (bytes_32LE (length body)) h (x ∷ ch ∷ []) (body ++ post)
        (record b { cur_pos = 2 }) four e refl)

-- A packet of a six-byte header and a body comes out with the body's length in bytes 2 to 5 of the
-- header, little end first, and otherwise unchanged, if the body is shorter than 2 ^ 32.
pub ocalc_layout :
    (b : OutBuffer) (x ch : ℕ) (h body : List ℕ)
    → IsWf b
    → header_size < b.bufsize
    → length h ≡ 4
    → as_string b ≡ x ∷ ch ∷ (h ++ body)
    → length body < 2 ^ 32
    → ocalc b ≡ x ∷ ch ∷ (bytes_32LE (length body) ++ body)
unfolding ocalc as_string
ocalc_layout b x ch h body w room four text fits =
    rw (calc_size-over b x ch h body post four room whole pos fits) (
      ap (λ n. take n (x ∷ ch ∷ (bytes_32LE (length body) ++ (body ++ post)))) pos'
      ∙ take-length (x ∷ ch ∷ (bytes_32LE (length body) ++ body)) post)
  where
    post : List ℕ
    post = drop b.cur_pos b.buffer

    whole : b.buffer ≡ x ∷ ch ∷ (h ++ (body ++ post))
    whole =
        sym (take-append-drop b.cur_pos b.buffer)
        ∙ ap (λ t. t ++ post) text
        ∙ ap (λ t. x ∷ ch ∷ t) (append_assoc h body post)

    pos : b.cur_pos ≡ header_size + length body
    pos = omega (
      arith,
      ap length text,
      length-take b.cur_pos b.buffer,
      w.sized,
      w.within,
      length-append h body,
      four,
    )

    pos' : (calc_size b).cur_pos ≡ length (x ∷ ch ∷ (bytes_32LE (length body) ++ body))
    pos' = omega (arith, pos)

f_out-Appends :
    (junk channel : ℕ)
    → Appends (new_buffer junk) (start_byte ∷ channel ∷ bytes_32LE 0) (f_out junk channel)
unfolding f_out
f_out-Appends junk channel =
    let w = new_buffer-IsWf junk in
    let one = put_8-Appends (new_buffer junk) w start_byte in
    let two = put_8-Appends (put_8 start_byte (new_buffer junk)) one.wf channel in
    Appends-trans (Appends-trans one two)
      (put_32LE-Appends (put_8 channel (put_8 start_byte (new_buffer junk))) two.wf 0)

fs_out-Appends :
    (junk channel fam stype : ℕ)
    → Appends
        (new_buffer junk)
        (start_byte ∷ channel ∷ (bytes_32LE 0 ++ fam % 256 ∷ stype % 256 ∷ []))
        (fs_out junk channel fam stype)
unfolding fs_out f_out
fs_out-Appends junk channel fam stype =
    let start = f_out-Appends junk channel in
    let one = put_8-Appends (f_out junk channel) start.wf (fam % 256) in
    Appends-trans start (
      Appends-trans one
        (put_8-Appends (put_8 (fam % 256) (f_out junk channel)) one.wf (stype % 256)))

new_buffer_empty : (junk : ℕ) → as_string (new_buffer junk) ≡ []
unfolding as_string new_buffer
new_buffer_empty junk = refl

new_buffer_room : (junk : ℕ) → header_size < (new_buffer junk).bufsize
unfolding new_buffer
new_buffer_room junk = omega arith

-- Whatever is appended to a started packet, the packet that OCALC makes is the start byte, the
-- channel, the length of all that follows the header, little end first, and what follows: for FS_outV2
-- its two bytes and what was appended, for F_outV2 what was appended, if that is shorter than
-- 2 ^ 32 - 2.
pub packets_layout :
    (junk channel fam stype : ℕ) (s : List ℕ) (b c : OutBuffer)
    → Appends (fs_out junk channel fam stype) s b
    → Appends (f_out junk channel) s c
    → length s + 2 < 2 ^ 32
    → (ocalc b ≡ start_byte ∷ channel ∷ (bytes_32LE (length s + 2) ++ fam % 256 ∷ stype % 256 ∷ s))
      × (ocalc c ≡ start_byte ∷ channel ∷ (bytes_32LE (length s) ++ s))
packets_layout junk channel fam stype s b c p q fits = (
  ocalc_layout b start_byte channel (bytes_32LE 0) (fam % 256 ∷ stype % 256 ∷ s) p.wf
        (omega (arith, new_buffer_room junk, fs.grown, p.grown)) refl
        (p.text ∙ ap (λ t. t ++ s) fs_text) (omega arith)
      ∙ ap (λ n. start_byte ∷ channel ∷ (bytes_32LE n ++ fam % 256 ∷ stype % 256 ∷ s)) two_more,
  ocalc_layout c start_byte channel (bytes_32LE 0) s q.wf
      (omega (arith, new_buffer_room junk, f.grown, q.grown)) refl
      (q.text ∙ ap (λ t. t ++ s) f_text) (omega arith),
)
  where
    fs :
        Appends
          (new_buffer junk)
          (start_byte ∷ channel ∷ (bytes_32LE 0 ++ fam % 256 ∷ stype % 256 ∷ []))
          (fs_out junk channel fam stype)
    fs = fs_out-Appends junk channel fam stype

    f : Appends (new_buffer junk) (start_byte ∷ channel ∷ bytes_32LE 0) (f_out junk channel)
    f = f_out-Appends junk channel

    fs_text :
        as_string (fs_out junk channel fam stype)
        ≡ start_byte ∷ channel ∷ (bytes_32LE 0 ++ fam % 256 ∷ stype % 256 ∷ [])
    fs_text =
        fs.text
        ∙ ap (λ t. t ++ (start_byte ∷ channel ∷ (bytes_32LE 0 ++ fam % 256 ∷ stype % 256 ∷ [])))
            (new_buffer_empty junk)

    f_text : as_string (f_out junk channel) ≡ start_byte ∷ channel ∷ bytes_32LE 0
    f_text = f.text ∙ ap (λ t. t ++ (start_byte ∷ channel ∷ bytes_32LE 0)) (new_buffer_empty junk)

    two_more : length {A = ℕ} (fam % 256 ∷ stype % 256 ∷ s) ≡ length s + 2
    two_more = omega arith
