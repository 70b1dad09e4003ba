-- ===== src/Core/Buffer/Bounds.antt =====
-- Readers of core/oscar_buffer.cpp on any input: they stay inside the array, and get_pn ends.
use tusa.Common.{ℕ, zero, suc, ◌+◌, ◌*◌, ◌%◌, ◌^◌, ◌≤◌, ◌<◌, ◌≡◌, refl, ◌∙◌, arith}
use tusa.Common.{List, [], length}
use tusa.Common.{false, ltb, if◌then◌else◌, Bool-cases, inl, inr}
use tusa.Core.Buffer.In.{
  InBuffer, remains, before_end, unpack, get_8, get_16LE, get_16BE, get_32LE, get_32BE, get_chars,
  get_pn_loop, get_pn, get_pstr, get_l_str, get_l_l_str,
}

-- `b'` is `b` read further, and not past the end.
pub record Advances (b b' : InBuffer) : Type 0 where
  pub same : b'.bytes ≡ b.bytes
  pub onward : b.out_pos ≤ b'.out_pos
  pub inside : b'.out_pos ≤ length b'.bytes

pub Advances-trans : {a b c : InBuffer} → Advances a b → Advances b c → Advances a c
Advances-trans p q = record {
  same = q.same ∙ p.same;
  onward = omega (arith, p.onward, q.onward);
  inside = q.inside;
}

get_8-Advances : (b : InBuffer) → b.out_pos ≤ length b.bytes → Advances b (get_8 b).1
unfolding get_8
get_8-Advances b h = ground arith

get_16LE-Advances : (b : InBuffer) → b.out_pos ≤ length b.bytes → Advances b (get_16LE b).1
unfolding get_16LE
get_16LE-Advances b h = ground arith

get_16BE-Advances : (b : InBuffer) → b.out_pos ≤ length b.bytes → Advances b (get_16BE b).1
unfolding get_16BE
get_16BE-Advances b h = ground arith

get_32LE-Advances : (b : InBuffer) → b.out_pos ≤ length b.bytes → Advances b (get_32LE b).1
unfolding get_32LE
get_32LE-Advances b h = ground arith

get_32BE-Advances : (b : InBuffer) → b.out_pos ≤ length b.bytes → Advances b (get_32BE b).1
unfolding get_32BE
get_32BE-Advances b h = ground arith

get_chars-Advances :
    (n : ℕ) (acc : List ℕ) (b : InBuffer)
    → b.out_pos ≤ length b.bytes
    → Advances b (get_chars n acc b).1
unfolding get_chars
get_chars-Advances zero acc b h = record { same = refl; onward = omega arith; inside = h }
get_chars-Advances (suc n) acc b h = elim (Bool-cases (before_end b)) [
  | inl more ↦
      let one : Advances b (get_8 b).1 = get_8-Advances b h in
      rw more (Advances-trans one (get_chars-Advances n _ (get_8 b).1 one.inside))
  | inr done ↦ rw done (record { same = refl; onward = omega arith; inside = h })
]

get_pn_loop-Advances :
    (fuel nn : ℕ) (b : InBuffer) → b.out_pos ≤ length b.bytes → Advances b (get_pn_loop fuel nn b).1
unfolding get_pn_loop
get_pn_loop-Advances zero nn b h = record { same = refl; onward = omega arith; inside = h }
get_pn_loop-Advances (suc fuel) nn b h =
    let one : Advances b (get_8 b).1 = get_8-Advances b h in
    elim (Bool-cases (ltb (get_8 b).0 0x80)) [
      | inl last ↦ rw last one
      | inr more ↦ rw more (Advances-trans one (get_pn_loop-Advances fuel _ (get_8 b).1 one.inside))
    ]

get_pn-Advances : (b : InBuffer) → b.out_pos ≤ length b.bytes → Advances b (get_pn b).1
unfolding get_pn
get_pn-Advances b h = get_pn_loop-Advances (suc (remains b)) 0 b h

unpack-Advances : (n : ℕ) (b : InBuffer) → b.out_pos ≤ length b.bytes → Advances b (unpack n b).1
unfolding unpack
unpack-Advances n b h = ground arith

get_pstr-Advances : (b : InBuffer) → b.out_pos ≤ length b.bytes → Advances b (get_pstr b).1
unfolding get_pstr
get_pstr-Advances b h =
    let len : Advances b (get_pn b).1 = get_pn-Advances b h in
    Advances-trans len (get_chars-Advances _ [] (get_pn b).1 len.inside)

get_l_str-Advances : (b : InBuffer) → b.out_pos ≤ length b.bytes → Advances b (get_l_str b).1
unfolding get_l_str
get_l_str-Advances b h =
    let len : Advances b (get_16LE b).1 = get_16LE-Advances b h in
    Advances-trans len (get_chars-Advances _ [] (get_16LE b).1 len.inside)

get_l_l_str-Advances : (b : InBuffer) → b.out_pos ≤ length b.bytes → Advances b (get_l_l_str b).1
unfolding get_l_l_str
get_l_l_str-Advances b h =
    let len : Advances b (get_32LE b).1 = get_32LE-Advances b h in
    Advances-trans len (get_chars-Advances _ [] (get_32LE b).1 len.inside)

-- From a position inside the array, each reader leaves the bytes alone, moves onward and stays
-- inside, whatever the bytes are: fixed-width words, packed numbers, the three kinds of strings and
-- a run of n bytes.
pub readers-Advances :
    (b : InBuffer) (n : ℕ)
    → b.out_pos ≤ length b.bytes
    → Advances b (get_8 b).1
      × Advances b (get_16LE b).1
      × Advances b (get_16BE b).1
      × Advances b (get_32LE b).1
      × Advances b (get_32BE b).1
      × Advances b (get_pn b).1
      × Advances b (get_pstr b).1
      × Advances b (get_l_str b).1
      × Advances b (get_l_l_str b).1
      × Advances b (unpack n b).1
readers-Advances b n h = (
  get_8-Advances b h,
  get_16LE-Advances b h,
  get_16BE-Advances b h,
  get_32LE-Advances b h,
  get_32BE-Advances b h,
  get_pn-Advances b h,
  get_pstr-Advances b h,
  get_l_str-Advances b h,
  get_l_l_str-Advances b h,
  unpack-Advances n b h,
)

-- A byte with the top bit set is no byte past the end, so it was taken from the array.
get_8_shrinks : (b : InBuffer) → ltb (get_8 b).0 0x80 ≡ false → remains (get_8 b).1 < remains b
unfolding get_8 remains
get_8_shrinks b h = ground arith

get_pn_loop_enough :
    (fuel fuel' nn : ℕ) (b : InBuffer)
    → remains b < fuel
    → remains b < fuel'
    → get_pn_loop fuel nn b ≡ get_pn_loop fuel' nn b
unfolding get_pn_loop
get_pn_loop_enough zero fuel' nn b h k = absurd (omega arith)
get_pn_loop_enough (suc fuel) zero nn b h k = absurd (omega arith)
get_pn_loop_enough (suc fuel) (suc fuel') nn b h k = elim (Bool-cases (ltb (get_8 b).0 0x80)) [
  | inl last ↦ rw last refl
  | inr more ↦ rw more (
      get_pn_loop_enough fuel fuel' _ (get_8 b).1 (omega (arith, get_8_shrinks b more))
        (omega (arith, get_8_shrinks b more)))
]

get_pn_loop-lt : (fuel nn : ℕ) (b : InBuffer) → nn < 2 ^ 32 → (get_pn_loop fuel nn b).0 < 2 ^ 32
unfolding get_pn_loop
get_pn_loop-lt zero nn b h = h
get_pn_loop-lt (suc fuel) nn b h = elim (Bool-cases (ltb (get_8 b).0 0x80)) [
  | inl last ↦ rw last (omega arith)
  | inr more ↦ rw more (get_pn_loop-lt fuel _ (get_8 b).1 (omega arith))
]

get_pn_loop_more :
    (fuel nn : ℕ) (b : InBuffer)
    → ltb (get_8 b).0 0x80 ≡ false
    → get_pn_loop (suc fuel) nn b
      ≡ get_pn_loop fuel (nn * 2 ^ 7 % 2 ^ 32 + (get_8 b).0 % 128) (get_8 b).1
unfolding get_pn_loop
get_pn_loop_more fuel nn b e = rw e refl

get_pn_loop_step :
    (fuel nn : ℕ) (b : InBuffer)
    → remains b < suc fuel
    → get_pn_loop (suc fuel) nn b ≡ (
        if ltb (get_8 b).0 0x80
        then (nn * 2 ^ 7 % 2 ^ 32 + (get_8 b).0 % 128, (get_8 b).1)
        else get_pn_loop (suc fuel) (nn * 2 ^ 7 % 2 ^ 32 + (get_8 b).0 % 128) (get_8 b).1)
get_pn_loop_step fuel nn b h = elim (Bool-cases (ltb (get_8 b).0 0x80)) [
  | inl last ↦ unfold get_pn_loop in rw last refl
  | inr more ↦
      get_pn_loop_more fuel nn b more
      ∙ get_pn_loop_enough fuel (suc fuel) _ (get_8 b).1 (omega (arith, get_8_shrinks b more))
          (omega (arith, get_8_shrinks b more))
      ∙ rw more refl
]

-- The fuel of get_pn_loop is no part of what it computes: with more fuel than there are bytes left
-- it obeys the equation of the source's `while (1)`, with the same fuel for the next round, and NN
-- stays an unsigned int.
pub get_pn_loop-while :
    (fuel nn : ℕ) (b : InBuffer)
    → remains b < fuel
    → nn < 2 ^ 32
    → (get_pn_loop fuel nn b ≡ (
        if ltb (get_8 b).0 0x80
        then (nn * 2 ^ 7 % 2 ^ 32 + (get_8 b).0 % 128, (get_8 b).1)
        else get_pn_loop fuel (nn * 2 ^ 7 % 2 ^ 32 + (get_8 b).0 % 128) (get_8 b).1))
      × ((get_pn_loop fuel nn b).0 < 2 ^ 32)
get_pn_loop-while zero nn b h k = absurd (omega arith)
get_pn_loop-while (suc fuel) nn b h k =
    (get_pn_loop_step fuel nn b h, get_pn_loop-lt (suc fuel) nn b k)
