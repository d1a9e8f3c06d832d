-- ===== src/Entries/Sorted.antt =====
-- helpers.go, `sortedOf`: which people it gives, and in which order.
use mathlib.Core.Path.{subst}
use authnd.Base.{
  if◌then◌else◌, Bool-cases, Text, Map, ℕ, ◌+◌, ◌≡◌, refl, sym, ap, ◌∙◌, inl, inr, Bool, List, [],
  ◌∷◌, map, arith,
}
use authnd.Directory.{Identity}
use authnd.Groups.{sort, insert, text_lt}
use authnd.Groups.Order.{NonDescending, sort-NonDescending}
use authnd.Roster.{Roster}
use authnd.Entries.Publication.{insert_person, sort_people, sorted_of}

-- How many of these people have a property.
abbrev pub tally : (Identity → Bool) → List Identity → ℕ
tally p [] = 0
tally p (id ∷ ids) = (if p id then 1 else 0) + tally p ids

-- The people of a map, one for each key.
abbrev pub people_of : Map Identity → List Identity
people_of [] = []
people_of ((n, id) ∷ m) = id ∷ people_of m

abbrev pub names_in : List Identity → List Text
names_in ids = map (λ (id : Identity). id.name) ids

insert_person-names :
    (id : Identity) (ids : List Identity)
    → names_in (insert_person id ids) ≡ insert id.name (names_in ids)
unfolding insert_person insert
insert_person-names id [] = refl
insert_person-names id (other ∷ ids) = ground (arith, insert_person-names id ids)

sort_people-names : (m : Map Identity) → names_in (sort_people m) ≡ sort (names_in (people_of m))
unfolding sort_people sort
sort_people-names [] = refl
sort_people-names ((n, id) ∷ m) =
    insert_person-names id (sort_people m) ∙ ap (insert id.name) (sort_people-names m)

insert_person-tally :
    (p : Identity → Bool) (id : Identity) (ids : List Identity)
    → tally p (insert_person id ids) ≡ tally p (id ∷ ids)
unfolding insert_person
insert_person-tally p id [] = refl
insert_person-tally p id (other ∷ ids) = elim (Bool-cases (text_lt other.name id.name)) [
  | inl e ↦ rw e (omega (arith, insert_person-tally p id ids))
  | inr e ↦ rw e refl
]

sort_people-tally :
    (p : Identity → Bool) (m : Map Identity) → tally p (sort_people m) ≡ tally p (people_of m)
unfolding sort_people
sort_people-tally p [] = refl
sort_people-tally p ((n, id) ∷ m) =
    insert_person-tally p id (sort_people m)
    ∙ ap (λ k. (if p id then 1 else 0) + k) (sort_people-tally p m)

-- The people of a roster by name: in the order of their names, and each as often as the roster has
-- them.
pub record IsByName (r : Roster) (ids : List Identity) : Type 0 where
  pub in_order : NonDescending (names_in ids)
  pub same : (p : Identity → Bool) → tally p ids ≡ tally p (people_of r.by_name)

pub sorted_of-IsByName : (r : Roster) → IsByName r (sorted_of r)
unfolding sorted_of
sorted_of-IsByName r = record {
  in_order =
      subst NonDescending (sym (sort_people-names r.by_name))
        (sort-NonDescending (names_in (people_of r.by_name)));
  same = λ p. sort_people-tally p r.by_name;
}
