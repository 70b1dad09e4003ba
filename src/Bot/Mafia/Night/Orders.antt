-- ===== src/Bot/Mafia/Night/Orders.antt =====
-- Who may give which order in the night, and when the morning comes.
use tusa.Common.{ℕ, ◌≡◌, refl, ◌∙◌, Bool, true, false, ◌&&◌, not}
use tusa.Common.{ltb, ◌==◌, if◌then◌else◌, arith, Bool-cases, inl, inr, if-both}
use tusa.Common.Maps.{find, update, find-update}
use mathlib.Core.Option.{Option, none, some}
use tusa.Bot.Mafia.State.{Role, maf, kat, man, doc, bom, val, mir, User, Users}
use tusa.Bot.Mafia.Night.{doc_order, check_order, kill_order, val_order, night_order}

-- A role's own part of the rules.
abbrev pub may_role : ℕ → User → Role → Bool
may_role to u r = elim r [
  | mir ↦ false
  | maf ↦ u.main_maf
  | doc ↦ not (to == u.id && ltb 2 u.doc_self)
  | kat ↦ true
  | man ↦ true
  | bom ↦ true
  | val ↦ true
]

pub night_order-refused :
    (from to : ℕ) (dbl : Bool) (u : User) (m : Users) (r : Role)
    → u.role ≡ r
    → may_role to u r ≡ false
    → night_order from to dbl u m ≡ none
unfolding night_order
night_order-refused from to dbl u m maf e h = rw (e, h) refl
night_order-refused from to dbl u m kat e h = cc
night_order-refused from to dbl u m man e h = cc
night_order-refused from to dbl u m doc e h = rw e (ground (arith, h))
night_order-refused from to dbl u m bom e h = cc
night_order-refused from to dbl u m val e h = cc
night_order-refused from to dbl u m mir e h = rw e refl

-- The order of the user `from` is against `to`.
abbrev pub HasOrder : ℕ → ℕ → Users → Type 0
HasOrder from to m = (w : User) × (find from m ≡ some w) × (w.order ≡ to) × (w.order_done ≡ true)

set-HasOrder :
    (from to : ℕ) (f : User → User) (m : Users) (u : User)
    → find from m ≡ some u
    → ((w : User) → ((f w).order ≡ to) × ((f w).order_done ≡ true))
    → HasOrder from to (update from f m)
set-HasOrder from to f m u p h =
    (f u, rw (find-update from from f m, p) (ground arith), (h u).0, (h u).1)

update-HasOrder :
    (from to k : ℕ) (f : User → User) (m : Users)
    → ((w : User) → ((f w).order ≡ w.order) × ((f w).order_done ≡ w.order_done))
    → HasOrder from to m
    → HasOrder from to (update k f m)
update-HasOrder from to k f m h (w, p, a, b) = elim (Bool-cases (k == from)) [
  | inl e ↦ (f w, rw (find-update from k f m, e, p) refl, (h w).0 ∙ a, (h w).1 ∙ b)
  | inr e ↦ (w, rw (find-update from k f m, e) p, a, b)
]

abbrev IsThere : ℕ → Users → Type 0
IsThere k m = (w : User) × (find k m ≡ some w)

update-IsThere : (i k : ℕ) (f : User → User) (m : Users) → IsThere i m → IsThere i (update k f m)
update-IsThere i k f m (w, p) = elim (Bool-cases (k == i)) [
  | inl e ↦ (f w, rw (find-update i k f m, e, p) refl)
  | inr e ↦ (w, rw (find-update i k f m, e) p)
]

-- The orders of the doctor and the girl release whom they chose before, set the order and mark the target.
chosen-HasOrder :
    (from to : ℕ) (b : Bool) (old : ℕ) (free : User → User) (set : User → User) (mark : User → User)
    (m : Users)
    → ((w : User) → ((set w).order ≡ to) × ((set w).order_done ≡ true))
    → ((w : User) → ((mark w).order ≡ w.order) × ((mark w).order_done ≡ w.order_done))
    → IsThere from m
    → HasOrder from to (update to mark (update from set (if b then update old free m else m)))
chosen-HasOrder from to b old free set mark m h k t =
    let m1 = if b then update old free m else m in
    let there : IsThere from m1 =
      if-both (λ (r : Users). IsThere from r) b (update old free m) m
        (update-IsThere from old free m t) t in
    update-HasOrder from to to mark (update from set m1) k
      (set-HasOrder from to set m1 there.0 there.1 h)

abbrev pub GivesOrder : ℕ → ℕ → Option Users → Type 0
GivesOrder from to o = (m : Users) × (o ≡ some m) × HasOrder from to m

check_order-HasOrder :
    (from to : ℕ) (m : Users) (u : User)
    → find from m ≡ some u
    → HasOrder from to (check_order from to m)
unfolding check_order
check_order-HasOrder from to m u p =
    set-HasOrder from to (λ w. record w { order = to; order_type = false; order_done = true }) m u p
      (λ w. (refl, refl))

kill_order-HasOrder :
    (from to : ℕ) (m : Users) (u : User)
    → find from m ≡ some u
    → HasOrder from to (kill_order from to m)
unfolding kill_order
kill_order-HasOrder from to m u p =
    set-HasOrder from to (λ w. record w { order = to; order_type = true; order_done = true }) m u p
      (λ w. (refl, refl))

doc_order-HasOrder :
    (from to : ℕ) (m : Users) (u : User)
    → find from m ≡ some u
    → HasOrder from to (doc_order from to u m)
unfolding doc_order
doc_order-HasOrder from to m u p =
    chosen-HasOrder from to u.order_done u.order (λ w. record w { doced = false })
      (λ w. record w { order = to; order_done = true })
      (λ w. record w { doced = true; parent = from }) m (λ w. (refl, refl)) (λ w. (refl, refl))
      (u, p)

val_order-HasOrder :
    (from to : ℕ) (m : Users) (u : User)
    → find from m ≡ some u
    → HasOrder from to (val_order from to u m)
unfolding val_order
val_order-HasOrder from to m u p =
    chosen-HasOrder from to u.order_done u.order (λ w. record w { valed = false })
      (λ w. record w { order = to; order_done = true }) (λ w. record w { valed = true }) m
      (λ w. (refl, refl)) (λ w. (refl, refl)) (u, p)

pub night_order-given :
    (from to : ℕ) (dbl : Bool) (u : User) (m : Users) (r : Role)
    → u.role ≡ r
    → find from m ≡ some u
    → may_role to u r ≡ true
    → GivesOrder from to (night_order from to dbl u m)
unfolding night_order
night_order-given from to dbl u m maf e p h =
    (kill_order from to m, rw (e, h) refl, kill_order-HasOrder from to m u p)
night_order-given from to dbl u m kat e p h = (
  if dbl then kill_order from to m else check_order from to m,
  rw e refl,
  if-both (λ (r : Users). HasOrder from to r) dbl (kill_order from to m) (check_order from to m)
      (kill_order-HasOrder from to m u p) (check_order-HasOrder from to m u p),
)
night_order-given from to dbl u m man e p h =
    (kill_order from to m, rw e refl, kill_order-HasOrder from to m u p)
night_order-given from to dbl u m doc e p h =
    (doc_order from to u m, rw e (ground (arith, h)), doc_order-HasOrder from to m u p)
night_order-given from to dbl u m bom e p h =
    (check_order from to m, rw e refl, check_order-HasOrder from to m u p)
night_order-given from to dbl u m val e p h =
    (val_order from to u m, rw e refl, val_order-HasOrder from to m u p)
night_order-given from to dbl u m mir e p h = cc
