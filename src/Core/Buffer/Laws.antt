-- ===== src/Core/Buffer/Laws.antt =====
-- The operators << and >> as an interface with laws, and the laws of the operators of
-- core/oscar_buffer.h: of numbers, strings, pairs and containers.
use tusa.Common.{ℕ, ◌%◌, ◌^◌, ◌<◌, ◌≡◌, refl, arith}
use tusa.Common.{List, ◌++◌, append_assoc, length, Bool, true, false, if◌then◌else◌}
use tusa.Core.Buffer.Out.{OutBuffer}
use tusa.Core.Buffer.Appends.{IsWf, Appends, Appends-trans}
use tusa.Core.Buffer.Put.{bytes_pn, bytes_pstr, put_pn-Appends, put_pstr-Appends}
use tusa.Core.Buffer.Reads.{Reads, get_pn-Reads, get_pstr-Reads}
use tusa.Core.Buffer.RoundTrip.{ReadsBack, Reads-ReadsBack}
use tusa.Core.Buffer.Serial.{
  Operators, extend, get_cut, unsigned_char, char, unsigned_short, short, unsigned_int, int, long,
  bool, string, pair,
}

-- What << writes for a value that is valid, and that >> reads it back.
pub record Lawful {A : Type 0} (x : Operators A) (Valid : A → Type 0) : Type 0 where
  pub bytes : A → List ℕ
  pub writes : (v : A) → Valid v → (b : OutBuffer) → IsWf b → Appends b (bytes v) (x.put v b)
  pub reads : (v : A) → Valid v → Reads x.get (bytes v) v

-- Whatever has lawful operators reads back.
pub Lawful-ReadsBack :
    {A : Type 0} {x : Operators A} {Valid : A → Type 0}
    → Lawful x Valid
    → (b : OutBuffer) (v : A) → IsWf b
    → Valid v
    → ReadsBack x.get v b (x.put v b)
Lawful-ReadsBack {x = x} l b v w h =
    Reads-ReadsBack x.get (l.bytes v) v (l.reads v h) (l.writes v h b w)

-- get_pn and a cut give back what the written number is modulo 2 ^ w.
get_cut-Reads : (w n v : ℕ) → n < 2 ^ 32 → n % 2 ^ w ≡ v → Reads (get_cut w) (bytes_pn n) v
get_cut-Reads w n v h e pre rest = rw (get_pn-Reads n h pre rest, e) refl

abbrev pub IsBelow : ℕ → ℕ → Type 0
IsBelow w n = n < 2 ^ w

pub unsigned_char-Lawful : Lawful unsigned_char (IsBelow 8)
unsigned_char-Lawful = record {
  bytes = bytes_pn;
  writes = λ v h b w. put_pn-Appends b w v;
  reads = λ v h. get_cut-Reads 8 v v (omega arith) (omega arith);
}

pub char-Lawful : Lawful char (IsBelow 8)
char-Lawful = record {
  bytes = λ v. bytes_pn (extend 8 v);
  writes = λ v h b w. put_pn-Appends b w (extend 8 v);
  reads = λ v h. get_cut-Reads 8 (extend 8 v) v (ground arith) (ground arith);
}

pub unsigned_short-Lawful : Lawful unsigned_short (IsBelow 16)
unsigned_short-Lawful = record {
  bytes = bytes_pn;
  writes = λ v h b w. put_pn-Appends b w v;
  reads = λ v h. get_cut-Reads 16 v v (omega arith) (omega arith);
}

pub short-Lawful : Lawful short (IsBelow 16)
short-Lawful = record {
  bytes = λ v. bytes_pn (extend 16 v);
  writes = λ v h b w. put_pn-Appends b w (extend 16 v);
  reads = λ v h. get_cut-Reads 16 (extend 16 v) v (ground arith) (ground arith);
}

pub unsigned_int-Lawful : Lawful unsigned_int (IsBelow 32)
unsigned_int-Lawful = record {
  bytes = bytes_pn;
  writes = λ v h b w. put_pn-Appends b w v;
  reads = λ v h. get_pn-Reads v h;
}

pub int-Lawful : Lawful int (IsBelow 32)
int-Lawful = unsigned_int-Lawful

pub bool-Lawful : Lawful bool (λ _. Unit)
bool-Lawful = record {
  bytes = λ v. bytes_pn (if v then 1 else 0);
  writes = λ v h b w. put_pn-Appends b w (if v then 1 else 0);
  reads = λ v h pre rest. bool-reads v pre rest;
}
  where
    bool-reads : (v : Bool) → Reads bool.get (bytes_pn (if v then 1 else 0)) v
    bool-reads true pre rest = rw (get_pn-Reads 1 (omega arith) pre rest) refl
    bool-reads false pre rest = rw (get_pn-Reads 0 (omega arith) pre rest) refl

-- A long is read back as the number that its low 32 bits are.
pub long-Reads : (v : ℕ) → Reads long.get (bytes_pn (v % 2 ^ 32)) (v % 2 ^ 32)
long-Reads v = get_pn-Reads (v % 2 ^ 32) (omega arith)

-- A long that fits 32 bits and is not negative reads back as itself.
pub long-Lawful : Lawful long (IsBelow 32)
long-Lawful = record {
  bytes = λ v. bytes_pn (v % 2 ^ 32);
  writes = λ v h b w. put_pn-Appends b w (v % 2 ^ 32);
  reads = λ v h. let e : v % 2 ^ 32 ≡ v = omega arith in rw e (get_pn-Reads v h);
}

pub string-Lawful : Lawful string (λ s. length s < 2 ^ 31)
string-Lawful = record {
  bytes = bytes_pstr;
  writes = λ v h b w. put_pstr-Appends b w v h;
  reads = λ v h. get_pstr-Reads v (omega arith);
}

module _ {A B : Type 0} {x : Operators A} {y : Operators B} {P : A → Type 0} {Q : B → Type 0}
    (l : Lawful x P) (m : Lawful y Q) where
  pub pair-Lawful : Lawful (pair x y) (λ v. P v.0 × Q v.1)
  pair-Lawful = record {
    bytes = λ v. l.bytes v.0 ++ m.bytes v.1;
    writes = λ v h b w.
        let first : Appends b (l.bytes v.0) (x.put v.0 b) = l.writes v.0 h.0 b w in
        Appends-trans first (m.writes v.1 h.1 (x.put v.0 b) first.wf);
    reads = λ v h pre rest. rw (
      append_assoc (l.bytes v.0) (m.bytes v.1) rest,
      l.reads v.0 h.0 pre (m.bytes v.1 ++ rest),
      m.reads v.1 h.1 (pre ++ l.bytes v.0) rest,
      append_assoc pre (l.bytes v.0) (m.bytes v.1),
    );
  }

-- Operators that go through those of another type, as a struct's go through its fields'.
abbrev pub via : {A B : Type 0} → (A → B) → (B → A) → Operators B → Operators A
via f g x = record { put = λ a. x.put (f a); get = λ b. let (v, b') = x.get b in (g v, b') }

pub via-Lawful :
    {A B : Type 0} {x : Operators B} {P : B → Type 0} (f : A → B) (g : B → A)
    → ((a : A) → g (f a) ≡ a)
    → Lawful x P
    → Lawful (via f g x) (λ a. P (f a))
via-Lawful f g e l = record {
  bytes = λ a. l.bytes (f a);
  writes = λ a h b w. l.writes (f a) h b w;
  reads = λ a h pre rest. rw (l.reads (f a) h pre rest, e a) refl;
}
