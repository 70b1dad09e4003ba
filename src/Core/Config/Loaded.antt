-- ===== src/Core/Config/Loaded.antt =====
-- What the settings of a section are after load_m_file of core/str_lib1.cpp.
use tusa.Common.{
  ℕ, ◌≡◌, refl, ap, sym, append_assoc, ◌∙◌, List, [], ◌∷◌, ◌++◌, map, append-nil, Bool, true, false,
  ◌||◌, ◌==◌, if◌then◌else◌, All, arith,
}
use tusa.Common.Maps.{member}
use tusa.Common.Dicts.{Dict, lookup, same_string, lookup-at_name}
use mathlib.Core.Option.{Option, none, some}
use tusa.Bot.Texts.{c_str, is_space, join}
use tusa.Bot.Texts.Split.{IsToken, split_tok-join}
use tusa.Core.Config.{
  Files, is_blank, all_blank, skip_spaces, cut_line, full_key, value, store, add_pair, take_line,
  load_line, load_lines, load_body, load_m_file, line_ends,
}

-- A key whose line is none of a section or a comment and has no space before it
unfoldable pub is_plain : List ℕ → Bool
is_plain [] = false
is_plain (c ∷ k) = if is_space c || c == 35 || c == 37 then false else true

unfoldable pub is_file : List ℕ → Bool
is_file [] = false
is_file (c ∷ v) = c == 36

abbrev pub IsEntry : List ℕ × List ℕ → Type 0
IsEntry e = (is_plain e.0 ≡ true) × All (λ x. (x == 61) ≡ false) e.0 × (is_file e.1 ≡ false)

abbrev pub line : List ℕ × List ℕ → List ℕ
line e = e.0 ++ 61 ∷ e.1

-- The last of the values given to a key, or what it had before
unfoldable pub last_value :
    List ℕ → List ℕ → Option (List ℕ) → List (List ℕ × List ℕ) → Option (List ℕ)
unfolding same_string full_key
last_value section j d [] = d
last_value section j d ((k, v) ∷ es) =
    last_value section j (if same_string (full_key section k) j then some v else d) es

cut_line-line :
    (k v : List ℕ) → All (λ x. (x == 61) ≡ false) k → cut_line (k ++ 61 ∷ v) ≡ some (k, v)
unfolding cut_line
cut_line-line [] v h = refl
cut_line-line (c ∷ k) v (e, h) = rw (e, cut_line-line k v h) refl

value-plain : (files : Files) (v : List ℕ) → is_file v ≡ false → value files v ≡ v
unfolding value is_file
value-plain files [] h = refl
value-plain files (c ∷ v) h = rw h refl

plain-tests :
    (c : ℕ) (k : List ℕ)
    → is_plain (c ∷ k) ≡ true
    → (is_blank c ≡ false) × (is_space c ≡ false) × ((c == 35) ≡ false) × ((c == 37) ≡ false)
unfolding is_plain
plain-tests c k h = (ground arith, ground arith, ground arith, ground arith)

load_line-line :
    (files : Files) (section : List ℕ) (m : Dict (List ℕ)) (k v : List ℕ)
    → IsEntry (k, v)
    → load_line files section m (line (k, v)) ≡ (section, store (full_key section k) v m)
unfolding load_line take_line all_blank skip_spaces is_plain add_pair
load_line-line files section m [] v (p, q, r) = cc
load_line-line files section m (c ∷ k) v (p, q, r) =
    let (a, b, d, e) = plain-tests c k p in
    rw (load_line, all_blank, a, skip_spaces, b, take_line, d, e, cut_line-line (c ∷ k) v q)
      (rw (add_pair, value-plain files v r) refl)

load_lines-last :
    (files : Files) (section j : List ℕ) (m : Dict (List ℕ)) (es : List (List ℕ × List ℕ))
    → All IsEntry es
    → lookup j (load_lines files section m (map line es)) ≡ last_value section j (lookup j m) es
unfolding load_lines last_value
load_lines-last files section j m [] h = refl
load_lines-last files section j m ((k, v) ∷ es) (h, hs) =
    rw (load_lines, load_line-line files section m k v h)
      (load_lines-last files section j (store (full_key section k) v m) es hs
        ∙ ap (λ d. last_value section j d es) (lookup-at_name j (full_key section k) [] (λ w. v) m))

c_str-append :
    (u v : List ℕ) → All (λ x. member x (0 ∷ line_ends) ≡ false) u → c_str (u ++ v) ≡ u ++ c_str v
unfolding c_str member
c_str-append [] v h = refl
c_str-append (c ∷ u) v (e, h) =
    let z : (c == 0) ≡ false = ground arith in rw (c_str, z, c_str-append u v h) refl

c_str-join :
    (arr : List (List ℕ))
    → All (IsToken (0 ∷ line_ends)) arr
    → c_str (join (10 ∷ []) arr) ≡ join (10 ∷ []) arr
unfolding c_str join
c_str-join [] h = refl
c_str-join (x ∷ []) (t, h) = ap c_str (sym (append-nil x)) ∙ c_str-append x [] t.1 ∙ append-nil x
c_str-join (x ∷ y ∷ arr) (t, h) =
    let rest = join (10 ∷ []) (y ∷ arr) in
    rw (append_assoc x (10 ∷ []) rest, c_str-append x (10 ∷ rest) t.1, c_str-join (y ∷ arr) h) refl

weaker :
    (w : List ℕ)
    → All (λ x. member x (0 ∷ line_ends) ≡ false) w
    → All (λ x. member x line_ends ≡ false) w
unfolding member
weaker [] h = tt
weaker (c ∷ w) (e, h) = (ground arith, weaker w h)

tokens : (arr : List (List ℕ)) → All (IsToken (0 ∷ line_ends)) arr → All (IsToken line_ends) arr
tokens [] h = tt
tokens (w ∷ arr) ((n, t), h) = ((n, weaker w t), tokens arr h)

load_body-lines :
    (files : Files) (arr : List (List ℕ))
    → All (IsToken (0 ∷ line_ends)) arr
    → load_body files (some (join (10 ∷ []) arr)) ≡ load_lines files [] [] arr
unfolding load_body
load_body-lines files arr h =
    rw
      (
        c_str-join arr h,
        split_tok-join line_ends (10 ∷ []) arr (omega arith) (refl, tt) (tokens arr h),
      )
      refl

-- load_m_file of a file that has a section and then lines with a key, = and a value gives each key, behind the
-- section's name and _, the last of its values, and no other key any, if no line has a zero or an end of a line
-- in it, and the keys start with no space, # or %, have no = in them, and the values do not start with $.
pub load_m_file-last :
    (files : Files) (fn section j : List ℕ) (es : List (List ℕ × List ℕ))
    → files fn ≡ some (join (10 ∷ []) ((37 ∷ section) ∷ map line es))
    → All (IsToken (0 ∷ line_ends)) ((37 ∷ section) ∷ map line es)
    → All IsEntry es
    → lookup j (load_m_file files fn) ≡ last_value section j none es
unfolding load_m_file load_lines load_line take_line all_blank skip_spaces lookup
load_m_file-last files fn section j es p t h =
    rw (p, load_body-lines files ((37 ∷ section) ∷ map line es) t)
      (load_lines-last files section j [] es h)
