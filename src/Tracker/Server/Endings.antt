-- ===== src/Tracker/Server/Endings.antt =====
-- The saves of the tracker server that end one after the other, in any order.
use avt_tracker.Base.{
  ℕ, List, [], ◌∷◌, Option, Bool, ◌≡◌, refl, ◌∙◌, arith, length, empty_of_length,
}
use avt_tracker.Base.Exec.{Result}
use avt_tracker.Base.Picks.{count_if}
use avt_tracker.Tracker.Ascii.{Doubles}
use avt_tracker.Tracker.Server.{Server, saved}
use avt_tracker.Tracker.Server.Answers.{EndAll, none_left, ends_at, length-saved}
use avt_tracker.Tracker.Server.Replies.{Reply, answered, answered-saved, waiting}

module _ (js : Doubles) (Saved Failure : Type 0) where
  -- Each save by its place among those that are left, with its outcome.
  unfoldable pub save_all :
      List (ℕ × Result Failure (Option Saved)) → Server js Saved Failure → Server js Saved Failure
  save_all [] s = s
  save_all ((n, outcome) ∷ list) s = save_all list (saved js Saved Failure n outcome s)

  answered-save_all :
      (test : Reply → Bool) (list : List (ℕ × Result Failure (Option Saved)))
      (s : Server js Saved Failure)
      → answered js Saved Failure test (save_all list s) ≡ answered js Saved Failure test s
  unfolding save_all
  answered-save_all test [] s = refl
  answered-save_all test ((n, outcome) ∷ list) s =
      answered-save_all test list (saved js Saved Failure n outcome s)
      ∙ answered-saved js Saved Failure test n outcome s

  pub saving-save_all :
      (list : List (ℕ × Result Failure (Option Saved))) (left : ℕ) (s : Server js Saved Failure)
      → EndAll js Saved Failure left list
      → length s.saving ≡ left
      → (save_all list s).saving ≡ []
  unfolding save_all
  saving-save_all _ _ s none_left size = empty_of_length s.saving size
  saving-save_all _ _ s (ends_at n left outcome others inside rest) size =
      saving-save_all others left (saved js Saved Failure n outcome s) rest
        (length-saved js Saved Failure n left outcome s inside size)

  -- With no save left, the replies that were written or waiting are all written.
  pub written-save_all :
      (test : Reply → Bool) (list : List (ℕ × Result Failure (Option Saved)))
      (s : Server js Saved Failure)
      → (save_all list s).saving ≡ []
      → count_if test (save_all list s).written ≡ answered js Saved Failure test s
  unfolding count_if waiting
  written-save_all test list s empty =
      let nothing : count_if test (waiting js Saved Failure (save_all list s).saving) ≡ 0 =
        rw empty refl in
      omega (arith, answered-save_all test list s, nothing)
