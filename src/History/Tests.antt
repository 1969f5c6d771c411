-- ===== src/History/Tests.antt =====
-- Runs of userland/shell/history.c: the commands a and b, entered in turn.
use grace_os.Text.{Text, same_text}
use grace_os.History.{History, hist_init, hist_add, hist_prev, hist_get}
use grace_os.History.Entries.{Holds, remember, hist_add-Holds, hist_get-Holds}
use grace_os.Prelude.{◌≡◌, refl, Option, some, [], ◌∷◌, arith}

abbrev a : Text
a = 97 ∷ []

abbrev b : Text
b = 98 ∷ []

hist_init-Holds : Holds hist_init []
unfolding hist_init
hist_init-Holds = record {
  counted = refl;
  room = omega arith;
  head_in = omega arith;
  each = λ i h. absurd (omega arith);
}

abbrev entered : History
entered = hist_add (hist_add hist_init a) b

entered-Holds : Holds entered (a ∷ b ∷ [])
unfolding same_text
entered-Holds =
    hist_add-Holds (hist_add hist_init a) b (a ∷ []) (hist_add-Holds hist_init a [] hist_init-Holds)

abbrev run_back : Option Text × History
run_back = hist_prev (hist_prev entered).1

back_shows : run_back.0 ≡ some a
unfolding hist_prev hist_add hist_init same_text
back_shows = refl

hist_add-Holds_example : Holds (hist_add entered b) (remember b (a ∷ b ∷ []))
hist_add-Holds_example = hist_add-Holds entered b (a ∷ b ∷ []) entered-Holds

hist_get-Holds_example : hist_get entered 1 ≡ some b
hist_get-Holds_example = hist_get-Holds entered (a ∷ b ∷ []) 1 entered-Holds
