-- ===== src/Entries/Tests.antt =====
-- A person with an attribute that no class allows.
use authnd.Base.{codes, text_eq, get, put, ◌≡◌, refl, inl, false, none, [], ◌∷◌}
use authnd.Samples.{schema, judge}
use authnd.Schema.{Attribute}
use authnd.Entries.{Entry, placed_and_validated}
use authnd.Entries.Published.{IsJudged}
use authnd.Entries.Dropped.{may_drop, values_of, placed_and_validated-values}

abbrev uid : Attribute
uid = record { name = codes "uid"; values = codes "alice" ∷ [] }

abbrev shoe_size : Attribute
shoe_size = record { name = codes "shoeSize"; values = codes "42" ∷ [] }

abbrev alice_entry : Entry
alice_entry = record {
  name = codes "alice";
  dn = codes "uid=alice,ou=people,dc=x";
  group = false;
  shape = codes "account" ∷ [];
  missing_posix = [];
  no_sid = none;
  attributes = uid ∷ shoe_size ∷ [];
  given = codes "shoeSize" ∷ [];
  dropped = [];
  invalid = none;
  declared = [];
  left_off = [];
  judged = none;
}

is_judged : IsJudged schema alice_entry
unfolding IsJudged
is_judged = inl refl

is_published : (placed_and_validated schema none alice_entry).invalid ≡ none
unfolding placed_and_validated text_eq put get judge authnd.Entries.is_placed
is_published = refl

keeps_uid :
    may_drop (codes "shoeSize" ∷ []) (codes "uid") (judge alice_entry.dn alice_entry.attributes)
    ≡ false
unfolding may_drop text_eq judge
keeps_uid = refl

placed_and_validated-values_example :
    values_of (codes "uid") (placed_and_validated schema none alice_entry).attributes
    ≡ values_of (codes "uid") alice_entry.attributes
placed_and_validated-values_example =
    placed_and_validated-values schema none alice_entry (codes "uid") is_judged keeps_uid
