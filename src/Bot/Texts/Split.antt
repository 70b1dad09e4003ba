-- ===== src/Bot/Texts/Split.antt =====
-- What splitTOK of bot/bot-shared/utils.cpp finds in a text, and that it undoes join.
use tusa.Common.{ℕ, ◌≡◌, refl, ◌∙◌, sym, ap, List, [], ◌∷◌, ◌++◌, append-nil, append_assoc}
use tusa.Common.{◌<◌, length, true, false, arith, Bool-cases, inl, inr, All, if◌then◌else◌}
use tusa.Common.Maps.{member}
use tusa.Bot.Texts.{push, split_loop, split_tok, join}

-- A text that is not empty and has none of the separators.
abbrev pub IsToken : List ℕ → List ℕ → Type 0
IsToken seps w = (0 < length w) × All (λ x. member x seps ≡ false) w

split_loop-word :
    (seps w rest tmp : List ℕ) (res : List (List ℕ))
    → All (λ x. member x seps ≡ false) w
    → split_loop seps (w ++ rest) tmp res ≡ split_loop seps rest (tmp ++ w) res
unfolding split_loop
split_loop-word seps [] rest tmp res h = rw (append-nil tmp) refl
split_loop-word seps (c ∷ w) rest tmp res (e, h) =
    rw (split_loop, e)
      (split_loop-word seps w rest (tmp ++ c ∷ []) res h
        ∙ ap (λ t. split_loop seps rest t res) (append_assoc tmp (c ∷ []) w))

split_loop-seps :
    (seps p rest : List ℕ) (res : List (List ℕ))
    → All (λ x. member x seps ≡ true) p
    → split_loop seps (p ++ rest) [] res ≡ split_loop seps rest [] res
unfolding split_loop push
split_loop-seps seps [] rest res h = refl
split_loop-seps seps (c ∷ p) rest res (e, h) =
    rw (split_loop, e) (split_loop-seps seps p rest res h)

push-some : (seps w : List ℕ) (res : List (List ℕ)) → IsToken seps w → push w res ≡ res ++ w ∷ []
unfolding push
push-some seps [] res (p, h) = absurd (omega arith)
push-some seps (c ∷ w) res h = refl

-- The separators between two tokens, and the rest behind them.
split_loop-pattern :
    (seps p w rest : List ℕ) (res : List (List ℕ))
    → 0 < length p
    → All (λ x. member x seps ≡ true) p
    → IsToken seps w
    → split_loop seps (p ++ rest) w res ≡ split_loop seps rest [] (res ++ w ∷ [])
unfolding split_loop
split_loop-pattern seps [] w rest res n h t = absurd (omega arith)
split_loop-pattern seps (c ∷ p) w rest res n (e, h) t =
    rw (split_loop, e, push-some seps w res t) (split_loop-seps seps p rest (res ++ w ∷ []) h)

split_loop-join :
    (seps p : List ℕ) (arr res : List (List ℕ))
    → 0 < length p
    → All (λ x. member x seps ≡ true) p
    → All (IsToken seps) arr
    → split_loop seps (join p arr) [] res ≡ res ++ arr
unfolding join split_loop
split_loop-join seps p [] res n h t = sym (append-nil res)
split_loop-join seps p (x ∷ []) res n h (t, ts) =
    ap (λ s. split_loop seps s [] res) (sym (append-nil x))
    ∙ split_loop-word seps x [] [] res t.1
    ∙ push-some seps x res t
split_loop-join seps p (x ∷ y ∷ arr) res n h (t, ts) =
    ap (λ s. split_loop seps s [] res) (append_assoc x p (join p (y ∷ arr)))
    ∙ split_loop-word seps x (p ++ join p (y ∷ arr)) [] res t.1
    ∙ split_loop-pattern seps p x (join p (y ∷ arr)) res n h t
    ∙ split_loop-join seps p (y ∷ arr) (res ++ x ∷ []) n h ts
    ∙ append_assoc res (x ∷ []) (y ∷ arr)

-- splitTOK finds again what join has put together, if the pattern between consists of separators, is
-- not empty, and no element is empty or has a separator in it.
pub split_tok-join :
    (seps p : List ℕ) (arr : List (List ℕ))
    → 0 < length p
    → All (λ x. member x seps ≡ true) p
    → All (IsToken seps) arr
    → split_tok seps (join p arr) ≡ arr
unfolding split_tok
split_tok-join seps p arr n h t = split_loop-join seps p arr [] n h t

-- The characters that are no separators.
unfoldable pub kept : List ℕ → List ℕ → List ℕ
kept seps [] = []
kept seps (c ∷ s) = if member c seps then kept seps s else c ∷ kept seps s

unfoldable pub concat : List (List ℕ) → List ℕ
concat [] = []
concat (w ∷ ws) = w ++ concat ws

concat-append : (u v : List (List ℕ)) → concat (u ++ v) ≡ concat u ++ concat v
unfolding concat
concat-append [] v = refl
concat-append (w ∷ u) v = rw (concat-append u v) (sym (append_assoc w (concat u) (concat v)))

concat-push : (w : List ℕ) (res : List (List ℕ)) → concat (push w res) ≡ concat res ++ w
unfolding push concat
concat-push [] res = sym (append-nil (concat res))
concat-push (c ∷ w) res = rw (concat-append res ((c ∷ w) ∷ []), append-nil w) refl

concat-split_loop :
    (seps src tmp : List ℕ) (res : List (List ℕ))
    → concat (split_loop seps src tmp res) ≡ (concat res ++ tmp) ++ kept seps src
unfolding split_loop kept
concat-split_loop seps [] tmp res = rw (append-nil (concat res ++ tmp)) (concat-push tmp res)
concat-split_loop seps (c ∷ src) tmp res = elim (Bool-cases (member c seps)) [
  | inl e ↦
      rw
        (
          e,
          concat-split_loop seps src [] (push tmp res),
          concat-push tmp res,
          append-nil (concat res ++ tmp),
        )
        refl
  | inr e ↦
      rw (e, concat-split_loop seps src (tmp ++ c ∷ []) res)
        (rw
          (
            append_assoc (concat res) (tmp ++ c ∷ []) (kept seps src),
            append_assoc tmp (c ∷ []) (kept seps src),
            append_assoc (concat res) tmp (c ∷ kept seps src),
          )
          refl)
]

All-append :
    (seps : List ℕ) (u v : List (List ℕ))
    → All (IsToken seps) u
    → All (IsToken seps) v
    → All (IsToken seps) (u ++ v)
All-append seps [] v h k = k
All-append seps (w ∷ u) v (t, h) k = (t, All-append seps u v h k)

All-end : (P : ℕ → Type 0) (w : List ℕ) (c : ℕ) → All P w → P c → All P (w ++ c ∷ [])
All-end P [] c h k = (k, tt)
All-end P (x ∷ w) c (t, h) k = (t, All-end P w c h k)

push-IsToken :
    (seps w : List ℕ) (res : List (List ℕ))
    → All (λ x. member x seps ≡ false) w
    → All (IsToken seps) res
    → All (IsToken seps) (push w res)
unfolding push
push-IsToken seps [] res h t = t
push-IsToken seps (c ∷ w) res h t = All-append seps res ((c ∷ w) ∷ []) t ((omega arith, h), tt)

split_loop-IsToken :
    (seps src tmp : List ℕ) (res : List (List ℕ))
    → All (λ x. member x seps ≡ false) tmp
    → All (IsToken seps) res
    → All (IsToken seps) (split_loop seps src tmp res)
unfolding split_loop
split_loop-IsToken seps [] tmp res h t = push-IsToken seps tmp res h t
split_loop-IsToken seps (c ∷ src) tmp res h t = elim (Bool-cases (member c seps)) [
  | inl e ↦
      rw (split_loop, e)
        (split_loop-IsToken seps src [] (push tmp res) tt (push-IsToken seps tmp res h t))
  | inr e ↦
      rw (split_loop, e)
        (split_loop-IsToken seps src (tmp ++ c ∷ []) res
          (All-end (λ x. member x seps ≡ false) tmp c h e) t)
]

-- Whatever the text is, no token that splitTOK finds is empty or has a separator in it, and the
-- tokens one behind the other are the text without its separators.
pub split_tok-IsToken :
    (seps src : List ℕ)
    → All (IsToken seps) (split_tok seps src) × (concat (split_tok seps src) ≡ kept seps src)
unfolding split_tok concat
split_tok-IsToken seps src =
    (split_loop-IsToken seps src [] [] tt tt, concat-split_loop seps src [] [])
