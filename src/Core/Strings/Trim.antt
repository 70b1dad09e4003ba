-- ===== src/Core/Strings/Trim.antt =====
-- What trim of core/str_lib.cpp leaves of a text.
use tusa.Common.{append-nil, sym, ℕ, ◌≡◌, refl, ◌∙◌, ap, List, [], ◌∷◌, ◌++◌, true}
use tusa.Common.{All, Bool-cases, inl, inr}
use tusa.Bot.Texts.{is_space}
use tusa.Core.Strings.{pop_front, pop_back, trim}

abbrev pub IsBlank : List ℕ → Type 0
IsBlank s = All (λ c. is_space c ≡ true) s

pop_front-blank : (pre s : List ℕ) → IsBlank pre → pop_front (pre ++ s) ≡ pop_front s
unfolding pop_front
pop_front-blank [] s h = refl
pop_front-blank (c ∷ pre) s (e, h) = rw (pop_front, e) (pop_front-blank pre s h)

pop_back-nil : (post : List ℕ) → IsBlank post → pop_back post ≡ []
unfolding pop_back
pop_back-nil [] h = refl
pop_back-nil (c ∷ post) (e, h) = rw (pop_back, pop_back-nil post h, e) refl

pop_back-blank : (s post : List ℕ) → IsBlank post → pop_back (s ++ post) ≡ pop_back s
unfolding pop_back
pop_back-blank [] post h = pop_back-nil post h
pop_back-blank (c ∷ s) post h = rw (pop_back, pop_back-blank s post h) refl

pop_both :
    (s post : List ℕ) → IsBlank post → pop_back (pop_front (s ++ post)) ≡ pop_back (pop_front s)
unfolding pop_front
pop_both [] post h =
    ap (λ p. pop_back (pop_front p)) (sym (append-nil post))
    ∙ ap pop_back (pop_front-blank post [] h)
pop_both (c ∷ s) post h = elim (Bool-cases (is_space c)) [
  | inl e ↦ rw (pop_front, e) (pop_both s post h)
  | inr e ↦ rw (pop_front, e) (pop_back-blank (c ∷ s) post h)
]

-- Spaces before and behind a text make no difference to trim.
pub trim-padded :
    (pre s post : List ℕ) → IsBlank pre → IsBlank post → trim (pre ++ (s ++ post)) ≡ trim s
unfolding trim
trim-padded pre s post h k = ap pop_back (pop_front-blank pre (s ++ post) h) ∙ pop_both s post k
