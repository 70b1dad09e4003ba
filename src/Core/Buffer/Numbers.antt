-- ===== src/Core/Buffer/Numbers.antt =====
-- What the operators << and >> of core/oscar_buffer.h do to numbers of each width.
use tusa.Common.{ℕ, ◌%◌, ◌^◌, ◌<◌, Bool}
use tusa.Core.Buffer.Out.{OutBuffer}
use tusa.Core.Buffer.Appends.{IsWf}
use tusa.Core.Buffer.Put.{put_pn-Appends}
use tusa.Core.Buffer.RoundTrip.{ReadsBack, Reads-ReadsBack}
use tusa.Core.Buffer.Serial.{unsigned_char, char, unsigned_short, short, int, long, bool}
use tusa.Core.Buffer.Laws.{
  Lawful-ReadsBack, unsigned_char-Lawful, char-Lawful, unsigned_short-Lawful, short-Lawful,
  int-Lawful, bool-Lawful, long-Reads,
}

-- In a well-formed buffer every char, short and int, signed or not, given by its bit pattern, and every
-- bool reads back as itself.
pub numbers-ReadsBack :
    (b : OutBuffer) (c s i : ℕ) (t : Bool)
    → IsWf b
    → c < 2 ^ 8
    → s < 2 ^ 16
    → i < 2 ^ 32
    → ReadsBack unsigned_char.get c b (unsigned_char.put c b)
      × ReadsBack char.get c b (char.put c b)
      × ReadsBack unsigned_short.get s b (unsigned_short.put s b)
      × ReadsBack short.get s b (short.put s b)
      × ReadsBack int.get i b (int.put i b)
      × ReadsBack bool.get t b (bool.put t b)
numbers-ReadsBack b c s i t w hc hs hi = (
  Lawful-ReadsBack unsigned_char-Lawful b c w hc,
  Lawful-ReadsBack char-Lawful b c w hc,
  Lawful-ReadsBack unsigned_short-Lawful b s w hs,
  Lawful-ReadsBack short-Lawful b s w hs,
  Lawful-ReadsBack int-Lawful b i w hi,
  Lawful-ReadsBack bool-Lawful b t w tt,
)

-- In a well-formed buffer a long of 64 bits, given by its bit pattern, reads back as the number that its
-- low 32 bits are. So one from 2 ^ 32 on, and each that is negative, reads back as another number.
pub long-ReadsBack :
    (b : OutBuffer) (v : ℕ) → IsWf b → ReadsBack long.get (v % 2 ^ 32) b (long.put v b)
long-ReadsBack b v w =
    Reads-ReadsBack long.get _ (v % 2 ^ 32) (long-Reads v) (put_pn-Appends b w (v % 2 ^ 32))
