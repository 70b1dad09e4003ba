-- ===== src/Bot/Mafia/Roles/Shares.antt =====
-- The numbers that assign_roles computes.
use tusa.Common.{ℕ, zero, suc, ◌+◌, ◌-◌, ◌*◌, ◌/◌, ◌≤◌, ◌<◌, ◌≡◌, ◌∙◌}
use tusa.Common.{ltb, ◌==◌, if◌then◌else◌, arith, if-both, if-cases}
use tusa.Bot.Mafia.Roles.{
  Parts, add_doc, add_man, add_bom, add_kat, add_val, add_mir, share_round, share_loop, first_parts,
  share_roles, at_least_one,
}

-- All roles that are given, and the players left.
abbrev pub given : Parts → ℕ
given p = p.mirs + p.mafs + p.kats + p.docs + p.mans + p.boms + p.vals

-- q has given roles to some of those left in p.
abbrev IsNext : Parts → Parts → Type 0
IsNext p q = (given q + q.left ≡ given p + p.left) × (q.left ≤ p.left)

IsNext-trans : (p q r : Parts) → IsNext p q → IsNext q r → IsNext p r
IsNext-trans p q r (a, b) (c, d) = (omega arith, omega arith)

add_doc-IsNext : (sz : ℕ) (p : Parts) → IsNext p (add_doc sz p)
add_doc-IsNext sz p = ground arith

add_man-IsNext : (sz : ℕ) (p : Parts) → IsNext p (add_man sz p)
add_man-IsNext sz p = ground arith

add_bom-IsNext : (sz : ℕ) (p : Parts) → IsNext p (add_bom sz p)
add_bom-IsNext sz p = ground arith

add_kat-IsNext : (sz : ℕ) (p : Parts) → IsNext p (add_kat sz p)
add_kat-IsNext sz p = ground arith

add_val-IsNext : (sz : ℕ) (p : Parts) → IsNext p (add_val sz p)
add_val-IsNext sz p = ground arith

add_mir-IsNext : (p : Parts) → IsNext p (add_mir p) × (0 < p.left → (add_mir p).left < p.left)
add_mir-IsNext p = ground arith

add_mir-after :
    (p q : Parts) → IsNext p q → 0 < p.left → IsNext p (add_mir q) × ((add_mir q).left < p.left)
add_mir-after p q n h = ground arith

share_round-IsNext :
    (sz : ℕ) (p : Parts)
    → 0 < p.left
    → IsNext p (share_round sz p) × ((share_round sz p).left < p.left)
unfolding share_round
share_round-IsNext sz p h =
    let q1 = add_doc sz p in
    let q2 = add_man sz q1 in
    let q3 = add_bom sz q2 in
    let q4 = add_kat sz q3 in
    let q5 = add_val sz q4 in
    let n5 = IsNext-trans p q1 q5 (add_doc-IsNext sz p) (
      IsNext-trans q1 q2 q5 (add_man-IsNext sz q1) (
        IsNext-trans q2 q3 q5 (add_bom-IsNext sz q2)
          (IsNext-trans q3 q4 q5 (add_kat-IsNext sz q3) (add_val-IsNext sz q4)))) in
    add_mir-after p q5 n5 h

share_loop-next :
    (n : ℕ) (p q r : Parts)
    → p.left ≤ suc n
    → IsNext p q × (q.left < p.left)
    → (q.left ≤ n → (given r ≡ given q + q.left) × (r.left ≡ 0))
    → (given r ≡ given p + p.left) × (r.left ≡ 0)
share_loop-next n p q r h s f = let l = f (omega arith) in (omega (arith, l.0), l.1)

share_loop-given :
    (fuel sz : ℕ) (p : Parts)
    → p.left ≤ fuel
    → (given (share_loop fuel sz p) ≡ given p + p.left) × ((share_loop fuel sz p).left ≡ 0)
unfolding share_loop
share_loop-given zero sz p h = (omega arith, omega arith)
share_loop-given (suc n) sz p h =
    if-cases (λ (r : Parts). (given r ≡ given p + p.left) × (r.left ≡ 0)) (p.left == 0) p
      (share_loop n sz (share_round sz p)) (λ e. ground arith)
      (λ e.
        share_loop-next n p (share_round sz p) (share_loop n sz (share_round sz p)) h
          (share_round-IsNext sz p (ground arith)) (share_loop-given n sz (share_round sz p)))

first_parts-fit :
    (sz c : ℕ) → 3 ≤ sz → c ≤ sz * 45 / 100 → at_least_one (sz * 25 / 100) + 1 + at_least_one c ≤ sz
first_parts-fit sz c h e = ground (arith, h, e)

townsmen-below : (sz : ℕ) → (if ltb 20 sz then sz * 45 / 100 else sz * 40 / 100) ≤ sz * 45 / 100
townsmen-below sz =
    if-both (λ (r : ℕ). r ≤ sz * 45 / 100) (ltb 20 sz) (sz * 45 / 100) (sz * 40 / 100) (omega arith)
      (omega arith)

fill : (sz a b : ℕ) → a + 1 + b ≤ sz → b + a + 1 + 0 + 0 + 0 + 0 + (sz - a - 1 - b) ≡ sz
fill sz a b h = omega arith

first_parts-given : (sz : ℕ) → 3 ≤ sz → given (first_parts sz) + (first_parts sz).left ≡ sz
unfolding first_parts
first_parts-given sz h =
    let c = if ltb 20 sz then sz * 45 / 100 else sz * 40 / 100 in
    fill sz (at_least_one (sz * 25 / 100)) (at_least_one c)
      (first_parts-fit sz c h (townsmen-below sz))

-- From three players on, as process_game asks for, the loop of assign_roles ends, and the numbers of
-- the roles, the townsmen included, add up to the number of the players.
pub share_roles-given :
    (sz : ℕ) → 3 ≤ sz → (given (share_roles sz) ≡ sz) × ((share_roles sz).left ≡ 0)
unfolding share_roles
share_roles-given sz h =
    let l = share_loop-given (first_parts sz).left sz (first_parts sz) (omega arith) in
    (l.0 ∙ first_parts-given sz h, l.1)
