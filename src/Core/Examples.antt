-- ===== src/Core/Examples.antt =====
-- The theorems on core/oscar_buffer.h and core/oscar_buffer.cpp at concrete buffers.
mod Texts
use tusa.Common.{ℕ, ◌+◌, ◌*◌, ◌%◌, ◌^◌, ◌<◌, ◌≡◌, arith, [], ◌∷◌, ◌++◌, length, ltb, true}
use tusa.Common.{if◌then◌else◌}
use tusa.Core.Buffer.Out.{
  put_8_raw, adjust, put_bytes_raw, OutBuffer, new_buffer, put_8, put_16LE, put_16BE, put_32LE,
  put_32BE, put_pn, put_pstr, put_l_str, put_l_l_str, bytes_32LE,
}
use tusa.Core.Buffer.In.{
  InBuffer, remains, get_8, get_16LE, get_16BE, get_32LE, get_32BE, get_pn_loop, get_pn, get_pstr,
  get_l_str, get_l_l_str, unpack,
}
use tusa.Core.Buffer.Appends.{IsWf, new_buffer-IsWf}
use tusa.Core.Buffer.Put.{put_8-Appends, put_32LE-Appends}
use tusa.Core.Buffer.RoundTrip.{ReadsBack, words-ReadsBack, put_pn-ReadsBack, strings-ReadsBack}
use tusa.Core.Buffer.Bounds.{Advances, readers-Advances, get_pn_loop-while}
use tusa.Core.Buffer.Serial.{
  unsigned_char, char, unsigned_short, short, unsigned_int, int, long, bool, get_seq, put_seq,
  push_back, insert,
}
use tusa.Core.Buffer.Laws.{unsigned_int-Lawful}
use tusa.Core.Buffer.Numbers.{numbers-ReadsBack, long-ReadsBack}
use tusa.Core.Buffer.Containers.{containers-ReadsBack}
use tusa.Core.Buffer.Flap.{header_size, start_byte, fs_out, f_out, ocalc, packets_layout}

-- A buffer that holds one byte.
abbrev one_byte : OutBuffer
one_byte = put_8 7 (new_buffer 0)

one_byte-IsWf : IsWf one_byte
one_byte-IsWf = (put_8-Appends (new_buffer 0) (new_buffer-IsWf 0) 7).wf

put_pn-ReadsBack_example : ReadsBack get_pn 4000000000 one_byte (put_pn 4000000000 one_byte)
put_pn-ReadsBack_example = put_pn-ReadsBack one_byte 4000000000 one_byte-IsWf (omega arith)

strings-ReadsBack_example :
    ReadsBack get_pstr (104 ∷ 105 ∷ []) one_byte (put_pstr (104 ∷ 105 ∷ []) one_byte)
    × ReadsBack get_l_l_str (104 ∷ 105 ∷ []) one_byte (put_l_l_str (104 ∷ 105 ∷ []) one_byte)
    × ReadsBack get_l_str (33 ∷ []) one_byte (put_l_str (33 ∷ []) one_byte)
strings-ReadsBack_example =
    strings-ReadsBack one_byte (104 ∷ 105 ∷ []) (33 ∷ []) one_byte-IsWf (omega arith) (omega arith)

containers-ReadsBack_example :
    ReadsBack
      (get_seq unsigned_int push_back (9 ∷ []))
      ((9 ∷ []) ++ (3 ∷ 500 ∷ []))
      one_byte
      (put_seq unsigned_int (3 ∷ 500 ∷ []) one_byte)
    × ReadsBack
        (get_seq unsigned_int (insert ltb) [])
        (3 ∷ 500 ∷ [])
        one_byte
        (put_seq unsigned_int (3 ∷ 500 ∷ []) one_byte)
containers-ReadsBack_example =
    containers-ReadsBack unsigned_int-Lawful ltb one_byte (3 ∷ 500 ∷ []) (9 ∷ []) one_byte-IsWf
      (omega arith) (omega arith, (omega arith, tt)) (tt, (ground arith, tt))

-- A packed number that is cut off.
abbrev cut_off : InBuffer
cut_off = record { bytes = 129 ∷ 130 ∷ []; out_pos = 0 }

readers-Advances_example :
    Advances cut_off (get_8 cut_off).1
    × Advances cut_off (get_16LE cut_off).1
    × Advances cut_off (get_16BE cut_off).1
    × Advances cut_off (get_32LE cut_off).1
    × Advances cut_off (get_32BE cut_off).1
    × Advances cut_off (get_pn cut_off).1
    × Advances cut_off (get_pstr cut_off).1
    × Advances cut_off (get_l_str cut_off).1
    × Advances cut_off (get_l_l_str cut_off).1
    × Advances cut_off (unpack 3 cut_off).1
readers-Advances_example = readers-Advances cut_off 3 (omega arith)

get_pn_loop-while_example :
    (get_pn_loop 3 0 cut_off ≡ (
      if ltb (get_8 cut_off).0 0x80
      then (0 * 2 ^ 7 % 2 ^ 32 + (get_8 cut_off).0 % 128, (get_8 cut_off).1)
      else get_pn_loop 3 (0 * 2 ^ 7 % 2 ^ 32 + (get_8 cut_off).0 % 128) (get_8 cut_off).1))
    × ((get_pn_loop 3 0 cut_off).0 < 2 ^ 32)
unfolding remains
get_pn_loop-while_example = get_pn_loop-while 3 0 cut_off (omega arith) (omega arith)

-- The two kinds of packets, started on the channel 5.
f_out-IsWf : IsWf (f_out 0 5)
unfolding f_out
f_out-IsWf =
    let one = put_8-Appends (new_buffer 0) (new_buffer-IsWf 0) 22 in
    let two = put_8-Appends (put_8 22 (new_buffer 0)) one.wf 5 in
    (put_32LE-Appends (put_8 5 (put_8 22 (new_buffer 0))) two.wf 0).wf

fs_out-IsWf : IsWf (fs_out 0 5 1 2)
unfolding fs_out f_out
fs_out-IsWf =
    let one = put_8-Appends (f_out 0 5) f_out-IsWf 1 in
    (put_8-Appends (put_8 1 (f_out 0 5)) one.wf 2).wf

abbrev packet : OutBuffer
packet = put_8 65 (f_out 0 5)

packet-IsWf : IsWf packet
packet-IsWf = (put_8-Appends (f_out 0 5) f_out-IsWf 65).wf

packet_room : header_size < packet.bufsize
unfolding put_8 put_32LE f_out new_buffer put_8_raw adjust put_bytes_raw
packet_room = omega arith
