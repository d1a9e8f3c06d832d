-- ===== src/Structure/Tests.antt =====
-- `checkStructure` run on a small tree.
use authnd.Base.{
  ◌↔◌, if◌then◌else◌, Text, codes, text_eq, ℕ, ◌≡◌, refl, true, false, Option, none, some, List, [],
  ◌∷◌,
}
use authnd.Fixtures.{site}
use authnd.Samples.{has_value}
use authnd.Schema.{Attribute, Governed, governed_by, unplaced, Schema}
use authnd.Entries.{Tree}
use authnd.Structure.{
  active, nothing_placed, badly_named, suffix_named_by, people, accepted, refused, check_structure,
}
use authnd.Structure.Placed.{IsStanding}
use authnd.Structure.Exact.{check_structure_iff}

-- Every entry is governed by rule 7, but one of the account class has no rule.
unfoldable places : Text → List Attribute → Option ℕ → Governed
unfolding has_value
places dn as_ r =
    if has_value (codes "objectClass") (codes "account") as_ then unplaced else governed_by (some 7)

unfoldable dc_alone : Text → Option ℕ
unfolding text_eq
dc_alone n = if text_eq n (codes "dc") then some 9 else none

abbrev ruled : Schema
ruled = record authnd.Samples.schema {
  structure_rules = true ∷ false ∷ [];
  attribute_type = dc_alone;
  govern = places;
}

abbrev kept_tree : Tree
kept_tree = record { people = some 7; groups = some 7 }

ruled_is_accepted : check_structure ruled site ≡ accepted (some kept_tree)
unfolding check_structure authnd.Structure.active authnd.Structure.check_suffix
    authnd.Structure.check_under authnd.Structure.verdict authnd.Structure.check_container
    authnd.Structure.check_governed authnd.Structure.none_placed authnd.Structure.probe_all
    authnd.Structure.probed authnd.Structure.probe authnd.Structure.container_class
    authnd.Structure.class_for authnd.Structure.class_named authnd.Structure.is_type_of places
    dc_alone
ruled_is_accepted = refl

-- With obsolete rules only, nothing is checked.
obsolete_is_accepted :
    check_structure (record ruled { structure_rules = true ∷ [] }) site ≡ accepted none
unfolding check_structure authnd.Structure.active
obsolete_is_accepted = refl

odd_suffix_is_refused :
    check_structure (record ruled { first_type = λ dn. some (codes "cn") }) site
    ≡ refused (suffix_named_by (codes "cn") ∷ [])
unfolding check_structure authnd.Structure.active authnd.Structure.check_suffix
    authnd.Structure.container_class authnd.Structure.class_for authnd.Structure.class_named
    authnd.Structure.is_type_of dc_alone
odd_suffix_is_refused = refl

check_structure_iff_example :
    (check_structure ruled site ≡ accepted (some kept_tree))
    ↔ ((active ruled.structure_rules ≡ true) × IsStanding ruled site kept_tree)
check_structure_iff_example = check_structure_iff ruled site kept_tree
