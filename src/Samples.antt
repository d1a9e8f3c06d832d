-- ===== src/Samples.antt =====
-- A small schema that the tests run on: a site's auxiliary classes above the account class.
use authnd.Base.{
  ◌==◌, if◌then◌else◌, any, All, Text, codes, is_empty, to_lower, text_eq, Map, ℕ, ◌^◌, ◌≡◌, refl,
  ap, Bool, false, not, ◌&&◌, ◌||◌, Option, none, some, List, [], ◌∷◌,
}
use authnd.Schema.{
  Resolves, Inherits, auxiliary, structural, Class, class, nil, cons, facts, Attribute,
  missing_required, unknown_attribute, Judgement, passes, problems, governed_by, Schema,
}
use authnd.Fixtures.{ascii, alice}
use authnd.Directory.{Identity}
use authnd.Server.{GroupFacts, GroupSnapshot, Snapshot}

abbrev pub account : Class
account =
    class (record { ref = 1; name = codes "account"; kind = structural; must = 1 ∷ []; may = [] })
      nil

abbrev pub uid_object : Class
uid_object =
    class (record { ref = 2; name = codes "uidObject"; kind = auxiliary; must = 1 ∷ []; may = [] })
      nil

abbrev pub member_class : Class
member_class =
    class (record { ref = 3; name = codes "siteMember"; kind = auxiliary; must = []; may = 2 ∷ [] })
      nil

-- A class below siteMember that wants a badge.
abbrev pub staff_class : Class
staff_class =
    class
      (record { ref = 4; name = codes "siteStaff"; kind = auxiliary; must = 3 ∷ []; may = 2 ∷ [] })
      (cons member_class nil)

abbrev pub classes : List Class
classes = account ∷ uid_object ∷ member_class ∷ staff_class ∷ []

named : Text → List Class → Option Class
named n [] = none
named n (c ∷ cs) =
    let rest = named n cs in if text_eq (to_lower ascii (facts c).name) n then some c else rest

unfoldable pub class_named : Text → Option Class
unfolding named text_eq
class_named n = named (to_lower ascii n) classes

unfoldable pub type_named : Text → Option ℕ
type_named n =
    if text_eq n (codes "uid")
    then some 1
    else if text_eq n (codes "room")
    then some 2
    else if text_eq n (codes "badge")
    then some 3
    else none

unfoldable pub has_value : Text → Text → List Attribute → Bool
has_value n v as_ =
    any (λ (a : Attribute). text_eq a.name n && (is_empty v || any (text_eq v) a.values)) as_

-- A badge is wanted of siteStaff, and a shoe size of nobody.
unfoldable pub judge : Text → List Attribute → Judgement
unfolding has_value
judge dn as_ =
    if has_value (codes "objectClass") (codes "siteStaff") as_
      && not (has_value (codes "badge") [] as_)
    then problems (
        record { kind = missing_required; attribute = codes "badge"; class = codes "siteStaff" }
        ∷ [])
    else if has_value (codes "shoeSize") [] as_
    then problems
        (record { kind = unknown_attribute; attribute = codes "shoeSize"; class = [] } ∷ [])
    else passes

abbrev pub schema : Schema
schema = record {
  judge = judge;
  object_class = class_named;
  object_classes = classes;
  is_class = λ a b. (facts a).ref == (facts b).ref;
  attribute_type = type_named;
  describe = type_named;
  is_type = λ a b. a == b;
  content_rule = λ c. none;
  structure_rules = [];
  govern = λ dn as_ r. governed_by r;
  first_type = λ dn. some (codes "dc");
  max_message = 2 ^ 25;
}

pub class_named-ignores_case :
    (n m : Text)
    → to_lower ascii n ≡ to_lower ascii m
    → schema.object_class n ≡ schema.object_class m
unfolding class_named
class_named-ignores_case n m e = ap (λ x. named x classes) e

-- The classes that the configuration declares, by their lower-case names.
abbrev pub table : Map Class
table = (codes "sitestaff", staff_class) ∷ (codes "sitemember", member_class) ∷ []

pub table-lawful : All (λ (e : Text × Class). Resolves schema e.1 × Inherits e.1) table
unfolding Resolves Inherits class_named
table-lawful = (((refl, ((refl, tt), tt)), (tt, tt, tt)), (((refl, tt), tt), tt))

-- A member of staff without a badge, of whom the configuration also says a class that was not
-- checked.
abbrev pub bob : Identity
bob = record alice {
  name = codes "bob";
  object_classes = codes "siteStaff" ∷ codes "SiteMember" ∷ codes "sitePet" ∷ [];
  attributes = (codes "room", codes "12" ∷ []) ∷ [];
}

abbrev pub crew : GroupFacts
crew = record {
  members = codes "bob" ∷ [];
  attributes = [];
  declared = codes "siteMember" ∷ [];
  missing = false;
}

abbrev pub groups : GroupSnapshot
groups = record { names = codes "crew" ∷ []; by = (codes "crew", crew) ∷ [] }

abbrev pub snapshot : Snapshot
snapshot = record {
  people = record { by_name = (codes "bob", bob) ∷ (codes "alice", alice) ∷ []; local = [] };
  groups = groups;
  built = 0;
}
