-- ===== src/Core/Buffer/Containers.antt =====
-- The laws of the container operators of core/oscar_buffer.h: vectors keep their order, sets and
-- maps come back sorted.
use tusa.Common.{ℕ, ◌%◌, ◌^◌, ◌<◌, ◌≡◌, refl, sym, ap, ◌∙◌, arith}
use tusa.Common.{List, [], ◌∷◌, ◌++◌, append_assoc, append-nil, length, All, Bool, true, false, ltb}
use tusa.Core.Buffer.Out.{OutBuffer, put_pn}
use tusa.Core.Buffer.In.{InBuffer}
use tusa.Core.Buffer.Appends.{IsWf, Appends, Appends-nil, Appends-trans}
use tusa.Core.Buffer.Put.{bytes_pn, put_pn-Appends}
use tusa.Core.Buffer.Reads.{Reads, get_pn-Reads}
use tusa.Core.Buffer.Serial.{
  Operators, put_all, put_seq, get_all, get_seq, push_back, insert, vector, set_of,
}
use tusa.Core.Buffer.Laws.{Lawful}
use tusa.Core.Buffer.RoundTrip.{ReadsBack, Reads-ReadsBack}

module _ {A : Type 0} where
  -- The container after `add t` for each t of v in its order.
  abbrev pub add_all : (A → List A → List A) → List A → List A → List A
  add_all add [] v = v
  add_all add (t ∷ ts) v = add_all add ts (add t v)

  pub add_all-push_back : (ts v : List A) → add_all push_back ts v ≡ v ++ ts
  add_all-push_back [] v = sym (append-nil v)
  add_all-push_back (t ∷ ts) v = add_all-push_back ts (v ++ t ∷ []) ∙ append_assoc v (t ∷ []) ts

module _ {A : Type 0} (lt : A → A → Bool) where
  -- `t` stands behind everything in `v`.
  abbrev pub IsAbove : A → List A → Type 0
  IsAbove t v = All (λ u. (lt t u ≡ false) × (lt u t ≡ true)) v

  -- The elements ascend strictly, as std::set and std::map keep them.
  abbrev pub IsAscending : List A → List A → Type 0
  IsAscending v [] = Unit
  IsAscending v (t ∷ ts) = IsAbove t v × IsAscending (v ++ t ∷ []) ts

  insert-append : (t : A) (v : List A) → IsAbove t v → insert lt t v ≡ v ++ t ∷ []
  unfolding insert
  insert-append t [] h = refl
  insert-append t (u ∷ v) h = rw (h.0.0, h.0.1, insert-append t v h.1) refl

  pub add_all-insert : (ts v : List A) → IsAscending v ts → add_all (insert lt) ts v ≡ v ++ ts
  add_all-insert [] v h = sym (append-nil v)
  add_all-insert (t ∷ ts) v h =
      rw (insert-append t v h.0) (add_all-insert ts (v ++ t ∷ []) h.1 ∙ append_assoc v (t ∷ []) ts)

-- A list in the order of natural keys ascends.
module _ {A : Type 0} (key : A → ℕ) where
  abbrev pub IsSortedBy : List A → Type 0
  IsSortedBy [] = Unit
  IsSortedBy (t ∷ ts) = All (λ u. key t < key u) ts × IsSortedBy ts

  abbrev lt_key : A → A → Bool
  lt_key s t = ltb (key s) (key t)

  abbrev AreBelow : List A → List A → Type 0
  AreBelow v ts = All (λ u. All (λ t. key u < key t) ts) v

  IsAbove-AreBelow :
      (t : A) (v ts : List A) → AreBelow v (t ∷ ts) → IsAbove lt_key t v × AreBelow v ts
  IsAbove-AreBelow t [] ts h = (tt, tt)
  IsAbove-AreBelow t (u ∷ v) ts h =
      let (p, q) = IsAbove-AreBelow t v ts h.1 in
      let below : key u < key t = h.0.0 in (((ground arith, ground arith), p), (h.0.1, q))

  AreBelow-append :
      (v : List A) (t : A) (ts : List A)
      → AreBelow v ts
      → All (λ u. key t < key u) ts
      → AreBelow (v ++ t ∷ []) ts
  AreBelow-append [] t ts h k = (k, tt)
  AreBelow-append (u ∷ v) t ts h k = (h.0, AreBelow-append v t ts h.1 k)

  IsAscending-from : (v ts : List A) → AreBelow v ts → IsSortedBy ts → IsAscending lt_key v ts
  IsAscending-from v [] h s = tt
  IsAscending-from v (t ∷ ts) h s =
      let (p, q) = IsAbove-AreBelow t v ts h in
      (p, IsAscending-from (v ++ t ∷ []) ts (AreBelow-append v t ts q s.0) s.1)

  pub IsSortedBy-IsAscending : (ts : List A) → IsSortedBy ts → IsAscending lt_key [] ts
  IsSortedBy-IsAscending ts s = IsAscending-from [] ts tt s

module _ {A : Type 0} {x : Operators A} {P : A → Type 0} (l : Lawful x P) where
  abbrev pub bytes_all : List A → List ℕ
  bytes_all [] = []
  bytes_all (t ∷ v) = l.bytes t ++ bytes_all v

  abbrev pub bytes_seq : List A → List ℕ
  bytes_seq v = bytes_pn (length v % 2 ^ 32) ++ bytes_all v

  put_all-Appends :
      (v : List A) → All P v → (b : OutBuffer) → IsWf b → Appends b (bytes_all v) (put_all x v b)
  unfolding put_all
  put_all-Appends [] h b w = Appends-nil w
  put_all-Appends (t ∷ v) h b w =
      let first : Appends b (l.bytes t) (x.put t b) = l.writes t h.0 b w in
      Appends-trans first (put_all-Appends v h.1 (x.put t b) first.wf)

  pub put_seq-Appends :
      (v : List A) → All P v → (b : OutBuffer) → IsWf b → Appends b (bytes_seq v) (put_seq x v b)
  unfolding put_seq
  put_seq-Appends v h b w =
      let n = put_pn-Appends b w (length v % 2 ^ 32) in
      Appends-trans n (put_all-Appends v h (put_pn (length v % 2 ^ 32) b) n.wf)

  get_all-Reads :
      (add : A → List A → List A) (ts v : List A)
      → All P ts
      → Reads (get_all x add (length ts) v) (bytes_all ts) (add_all add ts v)
  unfolding get_all
  get_all-Reads add [] v h pre rest = rw append-nil refl
  get_all-Reads add (t ∷ ts) v h pre rest = rw (append_assoc (l.bytes t) (bytes_all ts) rest) (
      ap (λ (r : A × InBuffer). get_all x add (length ts) (add r.0 v) r.1)
        (l.reads t h.0 pre (bytes_all ts ++ rest))
      ∙ get_all-Reads add ts (add t v) h.1 (pre ++ l.bytes t) rest
      ∙ rw (append_assoc pre (l.bytes t) (bytes_all ts)) refl)

  -- A container reads back into `v` as the elements added to it one by one.
  pub get_seq-Reads :
      (add : A → List A → List A) (ts v : List A)
      → length ts < 2 ^ 32
      → All P ts
      → Reads (get_seq x add v) (bytes_seq ts) (add_all add ts v)
  unfolding get_seq
  get_seq-Reads add ts v h hs pre rest =
      let fits : length ts % 2 ^ 32 ≡ length ts = omega arith in
      rw
        (
          fits,
          append_assoc (bytes_pn (length ts)) (bytes_all ts) rest,
          get_pn-Reads (length ts) h pre (bytes_all ts ++ rest),
        )
        (get_all-Reads add ts v hs (pre ++ bytes_pn (length ts)) rest
          ∙ rw (append_assoc pre (bytes_pn (length ts)) (bytes_all ts)) refl)

  -- The values that a vector, and a set, can carry.
  abbrev pub IsVector : List A → Type 0
  IsVector v = (length v < 2 ^ 32) × All P v

  pub vector-Lawful : Lawful (vector x) IsVector
  vector-Lawful = record {
    bytes = bytes_seq;
    writes = λ v h. put_seq-Appends v h.1;
    reads = λ v h.
        let r : Reads (get_seq x push_back []) (bytes_seq v) (add_all push_back v []) =
          get_seq-Reads push_back v [] h.0 h.1 in
        rw (add_all-push_back v []) at r;
  }

  pub set_of-Lawful :
      (lt : A → A → Bool)
      → Lawful (set_of x lt) (λ v. (length v < 2 ^ 32) × All P v × IsAscending lt [] v)
  set_of-Lawful lt = record {
    bytes = bytes_seq;
    writes = λ v h. put_seq-Appends v h.1;
    reads = λ v h.
        let r : Reads (get_seq x (insert lt) []) (bytes_seq v) (add_all (insert lt) v []) =
          get_seq-Reads (insert lt) v [] h.0 h.1 in
        rw (add_all-insert lt v [] h.2) at r;
  }

-- If an element's operators are lawful, a container of fewer than 2 ^ 32 valid elements reads back:
-- a vector behind the elements that the receiving vector had, in its order, and a set or a map in
-- ascending order into an empty one as itself.
pub containers-ReadsBack :
    {A : Type 0} {x : Operators A} {P : A → Type 0} (l : Lawful x P) (lt : A → A → Bool)
    (b : OutBuffer) (v old : List A)
    → IsWf b
    → length v < 2 ^ 32
    → All P v
    → IsAscending lt [] v
    → ReadsBack (get_seq x push_back old) (old ++ v) b (put_seq x v b)
      × ReadsBack (get_seq x (insert lt) []) v b (put_seq x v b)
containers-ReadsBack {x = x} l lt b v old w h hs asc = (
  Reads-ReadsBack (get_seq x push_back old) (bytes_seq l v) (old ++ v) in_order
      (put_seq-Appends l v hs b w),
  Reads-ReadsBack (get_seq x (insert lt) []) (bytes_seq l v) v sorted (put_seq-Appends l v hs b w),
)
  where
    in_order : Reads (get_seq x push_back old) (bytes_seq l v) (old ++ v)
    in_order = rw (add_all-push_back v old) at (get_seq-Reads l push_back v old h hs)

    sorted : Reads (get_seq x (insert lt) []) (bytes_seq l v) v
    sorted = rw (add_all-insert lt v [] asc) at (get_seq-Reads l (insert lt) v [] h hs)
