-- ===== src/Core/Buffer/Serial.antt =====
-- The operators << and >> of core/oscar_buffer.h and core/oscar_buffer.cpp: every number is a packed
-- unsigned int, cut to the type's width on the way in. A signed value is its bit pattern.
use tusa.Common.{ℕ, zero, suc, ◌+◌, ◌-◌, ◌%◌, ◌^◌, List, [], ◌∷◌, ◌++◌, Bool}
use tusa.Common.{length, ltb, ◌==◌, not, if◌then◌else◌}
use tusa.Core.Buffer.Out.{OutBuffer, put_pn, put_pstr}
use tusa.Core.Buffer.In.{InBuffer, get_pn, get_pstr}

-- A type's two operators.
pub record Operators {ℓ} (A : Type ℓ) : Type ℓ where
  pub put : A → OutBuffer → OutBuffer
  pub get : InBuffer → A × InBuffer

-- A pattern of 8 or 16 bits as an unsigned int, by the sign's extension.
abbrev pub extend : ℕ → ℕ → ℕ
extend w c = if ltb c (2 ^ (w - 1)) then c else c + 2 ^ 32 - 2 ^ w

-- get_pn, cut to w bits
abbrev pub get_cut : ℕ → InBuffer → ℕ × InBuffer
get_cut w b = let (n, b') = get_pn b in (n % 2 ^ w, b')

abbrev pub unsigned_char : Operators ℕ
unsigned_char = record { put = put_pn; get = get_cut 8 }

abbrev pub char : Operators ℕ
char = record { put = λ c. put_pn (extend 8 c); get = get_cut 8 }

abbrev pub unsigned_short : Operators ℕ
unsigned_short = record { put = put_pn; get = get_cut 16 }

abbrev pub short : Operators ℕ
short = record { put = λ c. put_pn (extend 16 c); get = get_cut 16 }

abbrev pub unsigned_int : Operators ℕ
unsigned_int = record { put = put_pn; get = get_pn }

-- An int goes through unsigned int and back with its bits unchanged.
abbrev pub int : Operators ℕ
int = record { put = put_pn; get = get_pn }

-- unsigned long and long, of 64 bits, are cut to 32 bits by put_pn((int)c).
abbrev pub long : Operators ℕ
long = record { put = λ c. put_pn (c % 2 ^ 32); get = get_pn }

abbrev pub bool : Operators Bool
bool = record {
  put = λ c. put_pn (if c then 1 else 0);
  get = λ b. let (n, b') = get_pn b in (not (n == 0), b');
}

abbrev pub string : Operators (List ℕ)
string = record { put = put_pstr; get = get_pstr }

module _ {ℓ κ} {A : Type ℓ} {B : Type κ} (x : Operators A) (y : Operators B) where
  abbrev pub pair : Operators (A × B)
  pair = record {
    put = λ v b. y.put v.1 (x.put v.0 b);
    get = λ b. let (s, b') = x.get b in let (t, b'') = y.get b' in ((s, t), b'');
  }

module _ {ℓ} {A : Type ℓ} (x : Operators A) where
  -- for (j = v.begin(); j != v.end(); j++) b << *j
  unfoldable pub put_all : List A → OutBuffer → OutBuffer
  put_all [] b = b
  put_all (t ∷ v) b = put_all v (x.put t b)

  -- The operators << of vector, list, deque, set and map.
  unfoldable pub put_seq : List A → OutBuffer → OutBuffer
  put_seq v b = put_all v (put_pn (length v % 2 ^ 32) b)

  module _ (add : A → List A → List A) where
    -- for (j = 0; j < n; j++) { T t; b >> t; add t to v }
    unfoldable pub get_all : ℕ → List A → InBuffer → List A × InBuffer
    get_all zero v b = (v, b)
    get_all (suc n) v b = let (t, b') = x.get b in get_all n (add t v) b'

    -- The operators >>, which add to what `v` holds.
    unfoldable pub get_seq : List A → InBuffer → List A × InBuffer
    unfolding get_all
    get_seq v b = let (n, b') = get_pn b in get_all n v b'

-- vector, list and deque: v.push_back(t)
abbrev pub push_back {ℓ} : {A : Type ℓ} → A → List A → List A
push_back t v = v ++ t ∷ []

module _ {ℓ} {A : Type ℓ} (lt : A → A → Bool) where
  -- set and map keep their elements in the order of `lt`; v.insert(t) leaves an element that is
  -- there. A map is a set of pairs in the order of their keys.
  unfoldable pub insert : A → List A → List A
  insert t [] = t ∷ []
  insert t (u ∷ v) = if lt t u then t ∷ u ∷ v else if lt u t then u ∷ insert t v else u ∷ v

module _ {ℓ} {A : Type ℓ} (x : Operators A) where
  -- Into a new container, as the `T t` of an enclosing operator >> is.
  abbrev pub vector : Operators (List A)
  vector = record { put = put_seq x; get = get_seq x push_back [] }

  abbrev pub set_of : (A → A → Bool) → Operators (List A)
  set_of lt = record { put = put_seq x; get = get_seq x (insert lt) [] }

module _ {ℓ κ} {K : Type ℓ} {V : Type κ} (x : Operators K) (y : Operators V) where
  abbrev pub map_of : (K → K → Bool) → Operators (List (K × V))
  map_of lt = set_of (pair x y) (λ s t. lt s.0 t.0)
