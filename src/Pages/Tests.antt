-- ===== src/Pages/Tests.antt =====
-- Runs of the actions of the pages on small data.
use vetka_backend_panel.Prelude.{◌≡◌, refl, none, some, [], ◌∷◌, true, false}
use vetka_backend_panel.Prelude.Int.{pos, negsuc}
use vetka_backend_panel.Prelude.Effects.{err}
use vetka_backend_panel.Nodes.Models.{reply}
use vetka_backend_panel.Nodes.Samples.{world, status_body, response_body, applied}
use vetka_backend_panel.Nodes.Manager.Pushes.{deliveries}
use vetka_backend_panel.Handlers.Withheld.{Withheld}
use vetka_backend_panel.Pages.{Library, cut}
use vetka_backend_panel.Pages.Forms.{int_from_form, split_csv, bool_from_form}
use vetka_backend_panel.Pages.UserPages.{disable_user_page, delete_user_page, unassign_node_page}
use vetka_backend_panel.Pages.Withdrawn.{pages-Withheld}
use vetka_backend_panel.World.{World}

abbrev reachable : World
reachable = world (reply 200 status_body ∷ reply 200 (response_body applied) ∷ []) []

abbrev library : Library
library = record { decode = λ s. none; encode = λ v. ""; parse_time = λ s. err "cannot parse" }

ports : split_csv " 2012-2022, ,3000 " ≡ "2012-2022" ∷ "3000" ∷ []
unfolding split_csv
ports = refl

negative_quota : int_from_form "-12" ≡ negsuc 11
unfolding int_from_form
negative_quota = refl

no_number : int_from_form "12x" ≡ pos 0
unfolding int_from_form
no_number = refl

unchecked : bool_from_form ("false" ∷ []) true ≡ false
unfolding bool_from_form
unchecked = refl

first_colon : cut "row-1: dial: refused" ≡ some ("row-1", "dial: refused")
unfolding cut
first_colon = refl

pages-Withheld_example :
    Withheld "user-1"
      (deliveries reachable.sent)
      (disable_user_page library "en" "user-1" reachable).1
    × Withheld "user-1"
        (deliveries reachable.sent)
        (delete_user_page library "en" "user-1" reachable).1
    × Withheld "user-1"
        (deliveries reachable.sent)
        (unassign_node_page library "en" "user-1" "row-1" reachable).1
pages-Withheld_example = pages-Withheld library "en" "user-1" "row-1" reachable
