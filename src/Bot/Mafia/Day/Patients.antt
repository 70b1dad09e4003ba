-- ===== src/Bot/Mafia/Day/Patients.antt =====
-- The doctor's patients, in the loops of do_day.
use tusa.Common.{ℕ, ◌+◌, ◌≡◌, refl, sym, ◌∙◌, ap, List, [], ◌∷◌, true, false, ◌||◌, not}
use tusa.Common.{leb, ◌==◌, ◌^◌, if◌then◌else◌, Bool-cases, inl, inr, if-both, if-cases, ==_iff}
use tusa.Common.Maps.{find, update, find-update}
use mathlib.Core.Option
use mathlib.Core.Option.{Option, none, some}
use tusa.Bot.Mafia.State.{maf, is_role, User, Users, map_users, add_score, ids}
use tusa.Bot.Mafia.Day.{
  Body, kill, save, share_score, maf_score, man_score, kat_score, val_score, maf_kill, maf_day,
  man_day, doc_day, kat_day, bom_day, val_day, order_target, order_of, order_loop, carry_out,
}

-- Of the user k nothing is changed that kills, and who is a patient stays one.
abbrev Spares : ℕ → User → Users → Type 0
Spares k z m = (w : User) × (find k m ≡ some w) × (w.doced ≡ true) × (w.killed ≡ z.killed)

find-map_users :
    (k : ℕ) (f : User → User) (m : Users) → find k (map_users f m) ≡ Option.map f (find k m)
unfolding find map_users
find-map_users k f [] = refl
find-map_users k f ((i, u) ∷ m) = elim (Bool-cases (i == k)) [
  | inl e ↦ rw e refl
  | inr e ↦ rw e (find-map_users k f m)
]

-- A change of users that keeps both members keeps a patient alive.
abbrev IsHarmless : (User → User) → Type 0
IsHarmless f = (w : User) → ((f w).doced ≡ w.doced) × ((f w).killed ≡ w.killed)

update-Spares :
    (k i : ℕ) (z : User) (f : User → User) (m : Users)
    → IsHarmless f
    → Spares k z m
    → Spares k z (update i f m)
update-Spares k i z f m h (w, p, d, e) = elim (Bool-cases (i == k)) [
  | inl t ↦ (f w, rw (find-update k i f m, t, p) refl, (h w).0 ∙ d, (h w).1 ∙ e)
  | inr t ↦ (w, rw (find-update k i f m, t) p, d, e)
]

map_users-Spares :
    (k : ℕ) (z : User) (f : User → User) (m : Users)
    → IsHarmless f
    → Spares k z m
    → Spares k z (map_users f m)
map_users-Spares k z f m h (w, p, d, e) =
    (f w, find-map_users k f m ∙ ap (λ o. Option.map f o) p, (h w).0 ∙ d, (h w).1 ∙ e)

-- Who is no patient is another user.
is_other :
    (k j : ℕ) (z u : User) (m : Users)
    → find j m ≡ some u
    → u.doced ≡ false
    → Spares k z m
    → j == k ≡ false
is_other k j z u m q n (w, p, d, e) = elim (Bool-cases (j == k)) [
  | inl t ↦
      let same : some w ≡ some u = sym p ∙ (ap (λ x. find x m) (sym ((==_iff j k).0 t)) ∙ q) in cc
  | inr t ↦ t
]

kill-Spares :
    (k j : ℕ) (z : User) (m : Users) → j == k ≡ false → Spares k z m → Spares k z (update j kill m)
kill-Spares k j z m t (w, p, d, e) = (w, rw (find-update k j kill m, t) p, d, e)

add_score-IsHarmless : (s : ℕ) → IsHarmless (add_score s)
add_score-IsHarmless s w = (refl, refl)

save-Spares : (k : ℕ) (z u : User) (m : Users) → Spares k z m → Spares k z (save u m)
unfolding save
save-Spares k z u m s = update-Spares k u.parent z (add_score 20) m (add_score-IsHarmless 20) s

share_score-IsHarmless : (s : ℕ) → IsHarmless (share_score s)
unfolding share_score
share_score-IsHarmless s w =
    if-both (λ (r : User). (r.doced ≡ w.doced) × (r.killed ≡ w.killed)) w.marked_for_delete w
      (if is_role w.role maf then add_score s w else w) (refl, refl)
      (if-both (λ (r : User). (r.doced ≡ w.doced) × (r.killed ≡ w.killed)) (is_role w.role maf)
        (add_score s w) w (refl, refl) (refl, refl))

maf_kill-Spares : (k i : ℕ) (z u : User) (m : Users) → Spares k z m → Spares k z (maf_kill i u m)
unfolding maf_kill
maf_kill-Spares k i z u m s =
    if-both (λ (r : Users). Spares k z r) (leb (2 ^ 31) (maf_score u.role)) _ _
      (update-Spares k i z (add_score (maf_score u.role)) m
        (add_score-IsHarmless (maf_score u.role)) s)
      (map_users-Spares k z (share_score (maf_score u.role)) m
        (share_score-IsHarmless (maf_score u.role)) s)

-- The bodies of the loops leave patients alive.
abbrev IsSparing : Body → Type 0
IsSparing body =
    (k i j : ℕ) (z u t : User) (m : Users)
    → find j m ≡ some t
    → Spares k z m
    → Spares k z (body i j u t m)

-- The kill of a maniac or of Katani, with its score.
strike-Spares :
    (k i j n : ℕ) (z t : User) (m : Users)
    → find j m ≡ some t
    → Spares k z m
    → Spares k z (if t.doced then save t m else update i (add_score n) (update j kill m))
strike-Spares k i j n z t m q s =
    if-cases (λ (r : Users). Spares k z r) t.doced (save t m)
      (update i (add_score n) (update j kill m)) (λ e. save-Spares k z t m s)
      (λ e.
        update-Spares k i z (add_score n) (update j kill m) (add_score-IsHarmless n)
          (kill-Spares k j z m (is_other k j z t m q e s) s))

maf_day-IsSparing : IsSparing maf_day
unfolding maf_day
maf_day-IsSparing k i j z u t m q s =
    if-both (λ (r : Users). Spares k z r) _ m _ s
      (if-cases (λ (r : Users). Spares k z r) t.doced (save t m) (update j kill (maf_kill i t m))
        (λ e. save-Spares k z t m s)
        (λ e.
          kill-Spares k j z (maf_kill i t m) (is_other k j z t m q e s)
            (maf_kill-Spares k i z t m s)))

man_day-IsSparing : IsSparing man_day
unfolding man_day
man_day-IsSparing k i j z u t m q s =
    if-both (λ (r : Users). Spares k z r) _ m _ s (strike-Spares k i j (man_score t.role) z t m q s)

doc_day-IsSparing : IsSparing doc_day
unfolding doc_day
doc_day-IsSparing k i j z u t m q s =
    let f : User → User =
      λ w. record w { doc_self = if u.order == u.id then u.doc_self + 1 else 0 } in
    let s1 = update-Spares k i z f m (λ w. (refl, refl)) s in
    if-both (λ (r : Users). Spares k z r) _ m _ s
      (if-both (λ (r : Users). Spares k z r) u.valed (update i f m)
        (update i (add_score 5) (update i f m)) s1
        (update-Spares k i z (add_score 5) (update i f m) (add_score-IsHarmless 5) s1))

kat_day-IsSparing : IsSparing kat_day
unfolding kat_day
kat_day-IsSparing k i j z u t m q s =
    if-both (λ (r : Users). Spares k z r) _ m _ s
      (if-both (λ (r : Users). Spares k z r) u.order_type _ (update i (add_score 10) m)
        (strike-Spares k i j (kat_score t.role) z t m q s)
        (update-Spares k i z (add_score 10) m (add_score-IsHarmless 10) s))

bom_day-IsSparing : IsSparing bom_day
unfolding bom_day
bom_day-IsSparing k i j z u t m q s =
    if-both (λ (r : Users). Spares k z r) _ m _ s
      (update-Spares k i z (add_score 10) m (add_score-IsHarmless 10) s)

val_day-IsSparing : IsSparing val_day
unfolding val_day
val_day-IsSparing k i j z u t m q s =
    if-both (λ (r : Users). Spares k z r) _ m _ s
      (update-Spares k i z (add_score (val_score t.role)) m
        (add_score-IsHarmless (val_score t.role)) s)

order_target-Spares :
    (body : Body) (k i : ℕ) (z u : User) (o : Option User) (m : Users)
    → IsSparing body
    → find u.order m ≡ o
    → Spares k z m
    → Spares k z (order_target body i u o m)
unfolding order_target
order_target-Spares body k i z u none m h q s = s
order_target-Spares body k i z u (some t) m h q s = h k i u.order z u t m q s

order_of-Spares :
    (body : Body) (k i : ℕ) (z : User) (o : Option User) (m : Users)
    → IsSparing body
    → Spares k z m
    → Spares k z (order_of body i o m)
unfolding order_of
order_of-Spares body k i z none m h s = s
order_of-Spares body k i z (some u) m h s =
    if-both (λ (r : Users). Spares k z r) (u.marked_for_delete || not u.order_done) m
      (order_target body i u (find u.order m) m) s
      (order_target-Spares body k i z u (find u.order m) m h refl s)

order_loop-Spares :
    (body : Body) (k : ℕ) (z : User) (is : List ℕ) (m : Users)
    → IsSparing body
    → Spares k z m
    → Spares k z (order_loop body is m)
unfolding order_loop
order_loop-Spares body k z [] m h s = s
order_loop-Spares body k z (i ∷ is) m h s =
    order_loop-Spares body k z is (order_of body i (find i m) m) h
      (order_of-Spares body k i z (find i m) m h s)

-- Whatever the orders of the night are, a user who is the doctor's patient is in the game after them,
-- is killed only if killed before, and is still the patient.
pub carry_out-Spares :
    (k : ℕ) (z : User) (m : Users)
    → find k m ≡ some z
    → z.doced ≡ true
    → (w : User) × (find k (carry_out m) ≡ some w) × (w.doced ≡ true) × (w.killed ≡ z.killed)
unfolding carry_out
carry_out-Spares k z m p d =
    let is = ids m in
    let m1 = order_loop maf_day is m in
    let m2 = order_loop man_day is m1 in
    let m3 = order_loop doc_day is m2 in
    let m4 = order_loop kat_day is m3 in
    let m5 = order_loop bom_day is m4 in
    let s1 = order_loop-Spares maf_day k z is m maf_day-IsSparing (z, p, d, refl) in
    let s2 = order_loop-Spares man_day k z is m1 man_day-IsSparing s1 in
    let s3 = order_loop-Spares doc_day k z is m2 doc_day-IsSparing s2 in
    let s4 = order_loop-Spares kat_day k z is m3 kat_day-IsSparing s3 in
    let s5 = order_loop-Spares bom_day k z is m4 bom_day-IsSparing s4 in
    order_loop-Spares val_day k z is m5 val_day-IsSparing s5
