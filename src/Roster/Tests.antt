-- ===== src/Roster/Tests.antt =====
-- Rosters of one and of two people.
use authnd.Base.{codes, text_eq, get, put, ℕ, ◌≡◌, refl, ◌↔◌, inl, inr, [], ◌∷◌, arith}
use authnd.Directory.{Identity}
use authnd.Fixtures.{swap_case, alice}
use authnd.Roster.{Roster, Indexed, ok, clash, fold_name, new_roster, names_of}
use authnd.Roster.Folding.{Closes, SameFold, fold_name_iff}
use authnd.Roster.Unclashing.{AllAgree, IsKeyed, new_roster_unclashing}

abbrev shouting : Identity
shouting = record alice { name = codes "ALICE" }

abbrev one : Roster
one = record { by_name = (codes "alice", alice) ∷ []; local = codes "alice" ∷ [] }

one_is_served : new_roster swap_case (alice ∷ []) (alice ∷ []) ≡ ok one
unfolding new_roster authnd.Roster.clashes get put names_of
one_is_served = refl

two_clash : new_roster swap_case (alice ∷ shouting ∷ []) [] ≡ clash alice shouting
unfolding new_roster authnd.Roster.clashes get put text_eq fold_name authnd.Roster.least_in_orbit
two_clash = refl

new_roster_unclashing_example : AllAgree swap_case (alice ∷ []) × IsKeyed one.by_name
new_roster_unclashing_example =
    new_roster_unclashing swap_case (alice ∷ []) (alice ∷ []) one one_is_served

swap_case-Closes : (r : ℕ) → Closes swap_case r
unfolding Closes
swap_case-Closes r = inr (inl (ground arith))

fold_name_iff_example :
    (fold_name swap_case (codes "Ann") ≡ fold_name swap_case (codes "aNN"))
    ↔ SameFold swap_case (codes "Ann") (codes "aNN")
fold_name_iff_example = fold_name_iff swap_case swap_case-Closes (codes "Ann") (codes "aNN")
