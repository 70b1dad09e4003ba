-- ===== src/Bot/Mafia/Finish/Verdict.antt =====
-- The verdicts of process_for_end_game.
use tusa.Common.{ℕ, ◌+◌, ◌≤◌, ◌≡◌, ◌⊎◌, refl, true, false}
use tusa.Common.{arith}
use mathlib.Core.Option.{some}
use tusa.Bot.Mafia.State.{maf, man, mir, doc}
use tusa.Bot.Mafia.Finish.{Judgement, judge, final_score}

-- The verdicts that the numbers of the roles allow.
abbrev pub IsSettled : (mirs mafs mans kats docs boms : ℕ) → Judgement → Type 0
IsSettled mirs mafs mans kats docs boms j =
    ((j.end ≡ false) × (j.draw ≡ false) × (1 ≤ mafs + mans))
    ⊎ (((j.end ≡ true) × (j.draw ≡ true) × (1 ≤ mafs + mans) × (mirs + kats + docs + boms ≤ 1))
        ⊎ (((j.end ≡ true) × (j.winner ≡ some mir) × (mafs ≡ 0) × (mans ≡ 0))
            ⊎ (((j.end ≡ true)
                  × (j.winner ≡ some maf)
                  × (kats ≡ 0)
                  × (mirs + docs + boms ≤ mafs)
                  × (mirs + docs + boms ≤ 2))
                ⊎ ((j.end ≡ true)
                    × (j.winner ≡ some man)
                    × (1 ≤ mans)
                    × (mafs ≡ 0)
                    × (kats ≡ 0)
                    × (mirs + docs + boms ≤ 1)))))

-- For all numbers of the roles the verdict is one of five. The game goes on, and then a mafioso or a maniac is
-- left. It is a draw, and then one of them is left and of townsmen, inspectors, doctors and bums one
-- at most. The town wins, and no mafioso and no maniac is left. The mafia wins, no inspector is left, and
-- the others of the town are two at most and no more than the mafiosi. The maniac wins, no mafioso and
-- no inspector is left, and of the town one at most.
pub judge_lem :
    (mirs mafs mans kats docs boms : ℕ)
    → IsSettled mirs mafs mans kats docs boms (judge mirs mafs mans kats docs boms)
unfolding judge
judge_lem mirs mafs mans kats docs boms = ground arith

-- Where the maniac wins and it is no draw, he gets nothing, and each townsman and each doctor gets 50.
pub final_score-man :
    (j : Judgement)
    → j.draw ≡ false
    → j.winner ≡ some man
    → (final_score j man ≡ 0) × (final_score j mir ≡ 50) × (final_score j doc ≡ 50)
unfolding final_score
final_score-man j h e = rw (h, e) (refl, refl, refl)
