-- ===== src/Chat/Notes/Dirs.antt =====
-- The directories of users in chatserver/notes_containers.cpp.
use tusa.Common.{ℕ, ◌+◌, ◌-◌, ◌*◌, ◌/◌, ◌%◌, ◌<◌, ◌≡◌, ◌≢◌, refl, ◌∙◌, sym, ap, List, [], ◌∷◌}
use tusa.Common.{ltb, if-cases, arith}
use mathlib.Core.Option.{Option, none, some}
use tusa.Chat.Notes.{cache_dir}

-- The id of a directory
unfoldable id_of : Option (List ℕ) → ℕ
id_of (some (l ∷ u ∷ [])) = u
id_of (some (l ∷ u ∷ v ∷ [])) = u * 100 + v
id_of (some (l ∷ u ∷ v ∷ w ∷ [])) = u * 10000 + v * 100 + w
id_of (some (l ∷ u ∷ v ∷ w ∷ x ∷ [])) = u * 10000 + w * 100 + x
id_of _ = 0

two : (u : ℕ) → u / 100 * 100 + u % 100 ≡ u
two u = omega arith

three : (u : ℕ) → u / 10000 * 10000 + (u - u / 10000 * 10000) / 100 * 100 + u % 100 ≡ u
three u = omega arith

four : (u : ℕ) → u / 1000000 * 10000 + (u - u / 1000000 * 10000) / 100 * 100 + u % 100 ≡ u
four u = omega arith

id_of-cache_dir : (uid : ℕ) → uid < 100000000 → id_of (cache_dir uid) ≡ uid
unfolding id_of cache_dir
id_of-cache_dir uid h =
    if-cases (λ d. id_of d ≡ uid) (ltb uid 100) _ _ (λ e. refl)
      (λ a.
        if-cases (λ d. id_of d ≡ uid) (ltb uid 10000) _ _ (λ e. two uid)
          (λ b.
            if-cases (λ d. id_of d ≡ uid) (ltb uid 1000000) _ _ (λ e. three uid)
              (λ c.
                if-cases (λ d. id_of d ≡ uid) (ltb uid 100000000) _ none (λ e. four uid)
                  (λ d. ground arith))))

-- Two ids below 10 ^ 8 that differ have directories that differ.
pub cache_dir-differs :
    (u v : ℕ) → u < 100000000 → v < 100000000 → u ≢ v → cache_dir u ≢ cache_dir v
cache_dir-differs u v h k n e = n (sym (id_of-cache_dir u h) ∙ ap id_of e ∙ id_of-cache_dir v k)
