-- ===== src/Bot/Mafia/Command/Return.antt =====
-- A player who leaves the channel and comes back, in bot/bot-mafia-new/command.cpp.
use tusa.Common.{
  ℕ, ◌≡◌, refl, sym, ◌∙◌, ap, List, true, false, ◌||◌, ◌==◌, arith, Bool-cases, inl, inr, ==_iff,
  if-true, if-false,
}
use tusa.Common.Maps.{find, update, find-update}
use mathlib.Core.Option.{some}
use mathlib.Core.Path.{subst}
use tusa.Bot.Mafia.State.{User, Users, Game}
use tusa.Bot.Mafia.Command.{
  is_running, find_player, go, change_player, process_quit, come_back, process_join,
}

come_back-go :
    (u : User)
    → u.marked_for_delete ≡ false
    → u.left ≡ false
    → u.chnick ≡ false
    → come_back (go u) ≡ u
come_back-go u h e d =
    ap (λ x. come_back x) (if-false u.marked_for_delete u (record u { left = true }) h)
    ∙ (if-false (u.marked_for_delete || u.chnick) (record u { left = true })
          (record u { left = false }) (ground (arith, h, d))
        ∙ ap (λ b. record u { left = b }) (sym e))

left_users :
    (i k : ℕ) (m : Users) (u : User)
    → find i m ≡ some u
    → come_back (go u) ≡ u
    → find k (update i come_back (update i go m)) ≡ find k m
left_users i k m u p e = find-update k i come_back (update i go m) ∙ elim (Bool-cases (i == k)) [
  | inl t ↦
      let q : find k m ≡ some u = subst (λ x. find x m ≡ some u) ((==_iff i k).0 t) p in
      rw (t, find-update k i go m, t, q) (ap (λ x. some x) e)
  | inr t ↦ rw (t, find-update k i go m, t) refl
]

process_quit-leaves :
    (nick : List ℕ) (i : ℕ) (g : Game)
    → is_running g ≡ true
    → find_player nick g ≡ some i
    → process_quit nick g ≡ record g { gamers_by_id = update i go g.gamers_by_id }
unfolding process_quit change_player
process_quit-leaves nick i g r p =
    if-true (is_running g) (change_player go (find_player nick g) g) g r
    ∙ ap (λ o. change_player go o g) p

process_join-returns :
    (nick : List ℕ) (i : ℕ) (g : Game)
    → is_running g ≡ true
    → find_player nick g ≡ some i
    → process_join nick g
      ≡ record g { voiced = true; gamers_by_id = update i come_back g.gamers_by_id }
unfolding process_join change_player find_player
process_join-returns nick i g r p =
    let h = record g { voiced = true } in
    if-true (is_running h) (change_player come_back (find_player nick h) h) h r
    ∙ ap (λ o. change_player come_back o h) p

-- A player in a running or prepared game who leaves the channel and returns under the same nick before
-- he is counted out is as before, and so is every other player.
pub process_join-process_quit :
    (nick : List ℕ) (i k : ℕ) (g : Game) (u : User)
    → is_running g ≡ true
    → find_player nick g ≡ some i
    → find i g.gamers_by_id ≡ some u
    → u.marked_for_delete ≡ false
    → u.left ≡ false
    → u.chnick ≡ false
    → find k (process_join nick (process_quit nick g)).gamers_by_id ≡ find k g.gamers_by_id
unfolding find_player
process_join-process_quit nick i k g u r p q h e d =
    let m = g.gamers_by_id in
    let away = record g { gamers_by_id = update i go m } in
    ap (λ x. find k (process_join nick x).gamers_by_id) (process_quit-leaves nick i g r p)
    ∙ (ap (λ (x : Game). find k x.gamers_by_id) (process_join-returns nick i away r p)
        ∙ left_users i k m u q (come_back-go u h e d))
