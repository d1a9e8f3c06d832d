-- ===== src/Declared/Tests.antt =====
-- The declared classes of a small site.
use authnd.Base.{codes, to_lower, text_eq, get, All, ◌≡◌, refl, true, false, some, [], ◌∷◌}
use authnd.Schema.{Class, Classes, facts}
use authnd.Declared.{
  Declaration, declarations, check_declared, declarable, can, cannot, is_structural, undefined,
  derived_itself,
}
use authnd.Declared.Added.{has_key, skipped, with_declared}
use authnd.Declared.Added.Whole.{IsWhole, Extends}
use authnd.Declared.Added.Complete.{TableResolves, with_declared-IsWhole}
use authnd.Config.{Config, Range, GroupBlock}
use authnd.Declared.Checked.{all_refused, IsSettled}
use authnd.Declared.Settled.{check_declared-IsSettled}
use authnd.Fixtures.{ascii, swap_case, config}
use authnd.Samples.{account, staff_class, member_class, schema, table}

-- A class that the schema lacks, and one that authnd derives.
pet_is_undefined :
    declarable swap_case schema (codes "sitePet") ≡ cannot (undefined (codes "sitePet"))
unfolding declarable authnd.Roster.equal_fold text_eq authnd.Roster.fold_name
    authnd.Roster.least_in_orbit authnd.Samples.class_named
pet_is_undefined = refl

account_is_derived :
    declarable swap_case schema (codes "ACCOUNT") ≡ cannot (derived_itself (codes "ACCOUNT"))
unfolding declarable authnd.Roster.equal_fold text_eq authnd.Roster.fold_name
    authnd.Roster.least_in_orbit authnd.Samples.class_named
account_is_derived = refl

staff_is_declarable : declarable swap_case schema (codes "sitestaff") ≡ can staff_class
unfolding declarable authnd.Roster.equal_fold text_eq authnd.Roster.fold_name
    authnd.Roster.least_in_orbit authnd.Samples.class_named
staff_is_declarable = refl

-- A class after its superclass, once.
staff_is_added :
    with_declared swap_case schema ascii table []
      (codes "account" ∷ [])
      (codes "siteStaff" ∷ codes "siteMember" ∷ [])
    ≡ (
      codes "account" ∷ codes "siteMember" ∷ codes "siteStaff" ∷ [],
      codes "siteStaff" ∷ codes "siteMember" ∷ [],
    )
unfolding with_declared get text_eq skipped authnd.Declared.Added.skipped_by
    authnd.Declared.Added.walk authnd.Roster.equal_fold authnd.Roster.fold_name
    authnd.Roster.least_in_orbit authnd.Samples.class_named
staff_is_added = refl

table-resolves : TableResolves ascii swap_case schema table []
unfolding authnd.Schema.Resolves authnd.Samples.class_named
table-resolves = ((refl, ((refl, tt), tt)), ((refl, tt), tt))

staff_is_named : has_key (codes "siteStaff") (codes "siteStaff" ∷ []) ≡ true
unfolding text_eq
staff_is_named = refl

staff_is_found : get (to_lower ascii (codes "siteStaff")) table ≡ some staff_class
unfolding get text_eq
staff_is_found = refl

staff_stays : skipped ascii [] staff_class ≡ false
unfolding skipped authnd.Declared.Added.skipped_by
staff_stays = refl

with_declared-IsWhole_example :
    (has_key
        (codes "siteStaff")
        (with_declared swap_case schema ascii table []
          (codes "account" ∷ [])
          (codes "siteStaff" ∷ [])).1
      ≡ true)
    × IsWhole ascii swap_case schema [] staff_class
        (with_declared swap_case schema ascii table []
          (codes "account" ∷ [])
          (codes "siteStaff" ∷ [])).0
    × Extends ascii swap_case schema []
        (codes "account" ∷ [])
        (with_declared swap_case schema ascii table []
          (codes "account" ∷ [])
          (codes "siteStaff" ∷ [])).0
with_declared-IsWhole_example =
    with_declared-IsWhole ascii swap_case schema table [] table-resolves (codes "account" ∷ [])
      (codes "siteStaff" ∷ []) (codes "siteStaff") staff_class staff_is_named staff_is_found
      staff_stays

abbrev nowhere : Range
nowhere = record { filename = codes "site.hcl"; line = 3; column = 1 }

-- A group with a class that can be declared, and one that authnd derives.
abbrev site_group : GroupBlock
site_group = record {
  name = codes "crew";
  members = [];
  object_classes = codes "siteStaff" ∷ codes "account" ∷ [];
  object_classes_range = nowhere;
}

abbrev with_crew : Config
with_crew = record config { groups = site_group ∷ [] }

check_declared-IsSettled_example :
    ((check_declared ascii swap_case schema with_crew).refusals
      ≡ all_refused swap_case schema (declarations with_crew))
    × All
        (λ (d : Declaration).
          All
            (IsSettled ascii swap_case schema
              (check_declared ascii swap_case schema with_crew).declared)
            d.names)
        (declarations with_crew)
check_declared-IsSettled_example = check_declared-IsSettled ascii swap_case schema with_crew
