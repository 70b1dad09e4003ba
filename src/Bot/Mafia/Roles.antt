-- ===== src/Bot/Mafia/Roles.antt =====
-- The roles in bot/bot-mafia-new/game.cpp: assign_role, assign_roles, accept_role, decline_role,
-- and check_roles.
pub mod Keeps
pub mod Shares
use tusa.Common.{
  ℕ, zero, suc, ◌+◌, ◌-◌, ◌*◌, ◌/◌, ◌%◌, ◌^◌, List, [], ◌∷◌, Bool, true, false, not, ◌&&◌, ◌||◌,
}
use tusa.Common.{ltb, ◌==◌, if◌then◌else◌, length}
use tusa.Common.Maps.{find, update}
use mathlib.Core.Option.{Option, none, some}
use tusa.Bot.Mafia.State.{
  Role, maf, kat, man, doc, bom, val, mir, is_role, minus, User, Users, Game, map_users, add_score,
  is_active,
}

abbrev pub is_free : Option User → Bool
is_free none = false
is_free (some u) = is_role u.role mir

-- The loop of assign_role. `rand` is the random number of each round, and the rounds left are
-- 1001 at first: the source leaves the loop when its counter cc passes 1000.
unfoldable pub assign_loop : (rounds : ℕ) → (rand : ℕ → ℕ) → ℕ → Role → Users → Users
assign_loop zero rand cnt role m = m
assign_loop (suc rounds) rand cnt role m =
    let z = rand rounds % length m + 1 in
    let taken =
      assign_loop rounds rand (cnt - 1) role (update z (λ u. record u { role = role }) m) in
    let missed = assign_loop rounds rand cnt role m in
    if cnt == 0 then m else if is_free (find z m) then taken else missed

unfoldable pub assign_role : (ℕ → ℕ) → ℕ → Role → Users → Users
unfolding assign_loop
assign_role rand cnt role m = assign_loop 1001 rand cnt role m

-- The numbers of the roles.
pub record Parts : Type 0 where
  pub mirs : ℕ
  pub mafs : ℕ
  pub kats : ℕ
  pub docs : ℕ
  pub mans : ℕ
  pub boms : ℕ
  pub vals : ℕ
  pub left : ℕ

-- The six statements of the body of the loop `while (left > 0)`, on `sz` players.
abbrev pub add_doc : ℕ → Parts → Parts
add_doc sz p =
    if ltb 0 p.left && not (ltb 0 p.docs && ltb sz (30 * p.docs))
    then record p { docs = p.docs + 1; left = p.left - 1 }
    else p

abbrev pub add_man : ℕ → Parts → Parts
add_man sz p =
    if ltb 0 p.left && not (ltb 0 p.mans && ltb sz (10 * p.mans))
    then record p { mans = p.mans + 1; left = p.left - 1 }
    else p

-- The source tests `sz<15*man` here.
abbrev pub add_bom : ℕ → Parts → Parts
add_bom sz p =
    if ltb 0 p.left && not (ltb 0 p.boms && ltb sz (15 * p.mans))
    then record p { boms = p.boms + 1; left = p.left - 1 }
    else p

abbrev pub add_kat : ℕ → Parts → Parts
add_kat sz p =
    if ltb 0 p.vals && ltb 0 p.left && not (ltb 0 p.kats && ltb sz (20 * p.kats))
    then record p { kats = p.kats + 1; left = p.left - 1 }
    else p

abbrev pub add_val : ℕ → Parts → Parts
add_val sz p =
    if ltb 0 p.left && not (ltb 0 p.vals && ltb sz (30 * p.vals))
    then record p { vals = p.vals + 1; left = p.left - 1 }
    else p

abbrev pub add_mir : Parts → Parts
add_mir p = if ltb 0 p.left then record p { mirs = p.mirs + 1; left = p.left - 1 } else p

unfoldable pub share_round : ℕ → Parts → Parts
share_round sz p = add_mir (add_val sz (add_kat sz (add_bom sz (add_man sz (add_doc sz p)))))

-- Each round takes one from `left` at least.
unfoldable pub share_loop : ℕ → ℕ → Parts → Parts
unfolding share_round
share_loop zero sz p = p
share_loop (suc fuel) sz p =
    let rest = share_loop fuel sz (share_round sz p) in if p.left == 0 then p else rest

abbrev pub at_least_one : ℕ → ℕ
at_least_one n = if ltb n 1 then 1 else n

unfoldable pub first_parts : ℕ → Parts
first_parts sz =
    let mirs = at_least_one (if ltb 20 sz then sz * 45 / 100 else sz * 40 / 100) in
    let mafs = at_least_one (sz * 25 / 100) in
    record {
      mirs = mirs;
      mafs = mafs;
      kats = 1;
      docs = 0;
      mans = 0;
      boms = 0;
      vals = 0;
      left = sz - mafs - 1 - mirs;
    }

unfoldable pub share_roles : ℕ → Parts
unfolding share_loop first_parts
share_roles sz = let p = first_parts sz in share_loop p.left sz p

-- `rand k` are the random numbers of the k-th call of assign_role.
unfoldable pub assign_roles : (ℕ → ℕ → ℕ) → Game → Game
unfolding share_roles assign_role
assign_roles rand g =
    let p = share_roles (length g.gamers_by_nick) in
    let m1 = assign_role (rand 0) p.docs doc g.gamers_by_id in
    let m2 = assign_role (rand 1) p.vals val m1 in
    let m3 = assign_role (rand 2) p.boms bom m2 in
    let m4 = assign_role (rand 3) p.mans man m3 in
    let m5 = assign_role (rand 4) p.kats kat m4 in
    record g { gamers_by_id = assign_role (rand 5) p.mafs maf m5 }

-- The end of accept_role: all users who must accept a role have done so.
abbrev pub must_accept : Option User → Bool
must_accept none = false
must_accept (some u) = is_active u && not (is_role u.role mir) && not u.accepted

unfoldable pub all_accepted : List (List ℕ × ℕ) → Users → Bool
all_accepted [] m = true
all_accepted ((k, i) ∷ nicks) m = not (must_accept (find i m)) && all_accepted nicks m

abbrev pub accept : User → User
accept u = if is_role u.role mir then u else record u { accepted = true }

-- time_t
abbrev pub role_accept_time : ℕ
role_accept_time = 90

unfoldable pub accept_users : Option ℕ → Users → Users
accept_users none m = m
accept_users (some i) m = update i accept m

-- accept_role; `who` is the user of the nick, if there is one.
unfoldable pub accept_role : Option ℕ → Game → Game
unfolding accept_users all_accepted
accept_role who g =
    let m = accept_users who g.gamers_by_id in
    record g {
      gamers_by_id = m;
      roles_assign_time =
          if all_accepted g.gamers_by_nick m
          then g.roles_assign_time - role_accept_time
          else g.roles_assign_time;
    }

-- decline_role: the role goes to another user first.
unfoldable pub decline_user : (ℕ → ℕ) → ℕ → Option User → Users → Users
unfolding assign_role
decline_user rand i none m = m
decline_user rand i (some u) m =
    if is_role u.role mir
    then m
    else update i (λ w. add_score (minus 50) (record w { role = mir }))
        (assign_role rand 1 u.role m)

unfoldable pub decline_role : (ℕ → ℕ) → Option ℕ → Users → Users
unfolding decline_user
decline_role rand none m = m
decline_role rand (some i) m = decline_user rand i (find i m) m

unfoldable pub check_role : User → User
check_role u =
    if not u.marked_for_delete && not (is_role u.role mir) && not u.accepted
    then record u { role = mir }
    else u

unfoldable pub check_roles : List (List ℕ × ℕ) → Users → Users
unfolding check_role
check_roles [] m = m
check_roles ((k, i) ∷ nicks) m = check_roles nicks (update i check_role m)
