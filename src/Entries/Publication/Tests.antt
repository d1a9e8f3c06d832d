-- ===== src/Entries/Publication/Tests.antt =====
-- The publication of a small snapshot: a member of staff without a badge, and a group.
use authnd.Base.{
  is_some, All, Text, codes, text_eq, get, put, ◌≡◌, refl, true, false, ◌||◌, Option, none, some,
  List, [], ◌∷◌, map,
}
use authnd.Config.{tls}
use authnd.Config.Check.{loopback}
use authnd.Config.Check.Tests.{formats, with_hashes, with_hashes_accepted}
use authnd.Directory.{Identity}
use authnd.Server.{Site, Snapshot}
use authnd.Entries.{LeftOff, Entry, valid, placed_and_validated}
use authnd.Entries.Built.{given_names, person_entry, entry_of_group}
use authnd.Entries.Publication.{built_person, built_group, build}
use authnd.Entries.Published.{IsPublishable}
use authnd.Entries.Listed.{Publishes, build-Publishes}
use authnd.Entries.Sound.{build-IsPublishable}
use authnd.Entries.Hash.{nt_hash_protected, has_attribute, nt_password}
use authnd.Declared.Added.{has_key}
use authnd.Fixtures.{ascii, swap_case, alice, site}
use authnd.Samples.{
  schema, table, class_named-ignores_case, table-lawful, bob, crew, groups, snapshot,
}

abbrev shape_of : Option Entry → List Text
shape_of none = []
shape_of (some e) = e.shape

abbrev left_of : Option Entry → List Text
left_of none = []
left_of (some e) = map (λ (o : LeftOff). o.class) e.left_off

-- Without the badge, bob is published without siteStaff, and it is said.
bob_is_no_staff :
    shape_of (built_person ascii swap_case schema none table site bob)
    ≡ codes "account" ∷ codes "uidObject" ∷ codes "siteMember" ∷ []
unfolding built_person built_group authnd.Declared.Unmet.unmet person_entry entry_of_group
    authnd.Samples.judge text_eq authnd.Declared.Added.with_declared get
    authnd.Declared.Added.skipped authnd.Declared.Added.skipped_by authnd.Declared.Added.walk
    authnd.Roster.equal_fold authnd.Roster.fold_name authnd.Roster.least_in_orbit
    authnd.Entries.Built.has authnd.Samples.type_named authnd.Samples.class_named
    authnd.Entries.Built.samba_of authnd.Config.Samba.samba_sid authnd.Declared.Added.present
    authnd.Entries.Built.allows authnd.Entries.Built.derived authnd.Entries.Built.given_attributes
    given_names authnd.Entries.Built.hex_upper authnd.Entries.Built.key_attributes
    authnd.Entries.Built.samba_attributes authnd.Entries.Built.undeclared authnd.Entries.is_placed
    placed_and_validated authnd.Entries.validate authnd.Server.Names.dn_of
    authnd.Entries.Built.member_attributes authnd.Entries.Built.group_class put
    authnd.Declared.Unmet.left_by authnd.Declared.Unmet.classes_of
bob_is_no_staff = refl

bob_is_told :
    left_of (built_person ascii swap_case schema none table site bob)
    ≡ codes "sitePet" ∷ codes "siteStaff" ∷ []
unfolding built_person built_group authnd.Declared.Unmet.unmet person_entry entry_of_group
    authnd.Samples.judge text_eq authnd.Declared.Added.with_declared get
    authnd.Declared.Added.skipped authnd.Declared.Added.skipped_by authnd.Declared.Added.walk
    authnd.Roster.equal_fold authnd.Roster.fold_name authnd.Roster.least_in_orbit
    authnd.Entries.Built.has authnd.Samples.type_named authnd.Samples.class_named
    authnd.Entries.Built.samba_of authnd.Config.Samba.samba_sid authnd.Declared.Added.present
    authnd.Entries.Built.allows authnd.Entries.Built.derived authnd.Entries.Built.given_attributes
    given_names authnd.Entries.Built.hex_upper authnd.Entries.Built.key_attributes
    authnd.Entries.Built.samba_attributes authnd.Entries.Built.undeclared authnd.Entries.is_placed
    placed_and_validated authnd.Entries.validate authnd.Server.Names.dn_of
    authnd.Entries.Built.member_attributes authnd.Entries.Built.group_class put
    authnd.Declared.Unmet.left_by authnd.Declared.Unmet.classes_of
bob_is_told = refl

member_is_declared : has_key (codes "siteMember") crew.declared ≡ true
unfolding text_eq
member_is_declared = refl

crew_is_there : get (codes "crew") groups.by ≡ some crew
unfolding get text_eq
crew_is_there = refl

build-Publishes_example :
    Publishes site snapshot (build ascii swap_case schema none table site snapshot)
build-Publishes_example =
    build-Publishes ascii swap_case schema none table site class_named-ignores_case table-lawful
      snapshot

build-IsPublishable_example : All (IsPublishable schema none) (
    valid
      (build-Publishes ascii swap_case schema none table site class_named-ignores_case table-lawful
        snapshot).listed.entries)
build-IsPublishable_example =
    build-IsPublishable ascii swap_case schema none table site snapshot
      (build-Publishes ascii swap_case schema none table site class_named-ignores_case table-lawful
        snapshot).listed.entries
      (build-Publishes ascii swap_case schema none table site class_named-ignores_case table-lawful
        snapshot).listed.found

-- A site that publishes hashes over TLS, and a person with a hash and a SID.
abbrev hashes : Site
hashes = record site { cfg = with_hashes }

abbrev hashed : Identity
hashed = record alice {
  nt_key = some (171 ∷ 205 ∷ []);
  get_attribute = λ name. codes "S-1-5-21-1-2-3-1004" ∷ [];
}

abbrev hash_entry : Entry
hash_entry =
    placed_and_validated schema none (person_entry ascii swap_case schema table hashes hashed [])

hash_entry_is_built : built_person ascii swap_case schema none table hashes hashed ≡ some hash_entry
unfolding built_person built_group authnd.Declared.Unmet.unmet person_entry entry_of_group
    authnd.Samples.judge text_eq authnd.Declared.Added.with_declared get
    authnd.Declared.Added.skipped authnd.Declared.Added.skipped_by authnd.Declared.Added.walk
    authnd.Roster.equal_fold authnd.Roster.fold_name authnd.Roster.least_in_orbit
    authnd.Entries.Built.has authnd.Samples.type_named authnd.Samples.class_named
    authnd.Entries.Built.samba_of authnd.Config.Samba.samba_sid authnd.Declared.Added.present
    authnd.Entries.Built.allows authnd.Entries.Built.derived authnd.Entries.Built.given_attributes
    given_names authnd.Entries.Built.hex_upper authnd.Entries.Built.key_attributes
    authnd.Entries.Built.samba_attributes authnd.Entries.Built.undeclared authnd.Entries.is_placed
    placed_and_validated authnd.Entries.validate authnd.Server.Names.dn_of
    authnd.Entries.Built.member_attributes authnd.Entries.Built.group_class put
    authnd.Declared.Unmet.left_by authnd.Declared.Unmet.classes_of
hash_entry_is_built = refl

has_hash : has_attribute nt_password hash_entry.attributes ≡ true
unfolding built_person built_group authnd.Declared.Unmet.unmet person_entry entry_of_group
    authnd.Samples.judge text_eq authnd.Declared.Added.with_declared get
    authnd.Declared.Added.skipped authnd.Declared.Added.skipped_by authnd.Declared.Added.walk
    authnd.Roster.equal_fold authnd.Roster.fold_name authnd.Roster.least_in_orbit
    authnd.Entries.Built.has authnd.Samples.type_named authnd.Samples.class_named
    authnd.Entries.Built.samba_of authnd.Config.Samba.samba_sid authnd.Declared.Added.present
    authnd.Entries.Built.allows authnd.Entries.Built.derived authnd.Entries.Built.given_attributes
    given_names authnd.Entries.Built.hex_upper authnd.Entries.Built.key_attributes
    authnd.Entries.Built.samba_attributes authnd.Entries.Built.undeclared authnd.Entries.is_placed
    placed_and_validated authnd.Entries.validate authnd.Server.Names.dn_of
    authnd.Entries.Built.member_attributes authnd.Entries.Built.group_class put
    authnd.Declared.Unmet.left_by authnd.Declared.Unmet.classes_of
has_hash = refl

no_own_hash : has_key nt_password (given_names hashed.attributes) ≡ false
unfolding given_names
no_own_hash = refl

nt_hash_protected_example :
    (with_hashes.publish_nt_hash ≡ true)
    × (is_some with_hashes.samba ≡ true)
    × ((tls with_hashes || loopback with_hashes.listen) ≡ true)
nt_hash_protected_example =
    nt_hash_protected ascii swap_case schema none table hashes formats with_hashes hashed hash_entry
      with_hashes_accepted no_own_hash hash_entry_is_built has_hash

abbrev alice_entry : Entry
alice_entry =
    placed_and_validated schema none (person_entry ascii swap_case schema table site alice [])

alice_is_built : built_person ascii swap_case schema none table site alice ≡ some alice_entry
unfolding built_person built_group authnd.Declared.Unmet.unmet person_entry entry_of_group
    authnd.Samples.judge text_eq authnd.Declared.Added.with_declared get
    authnd.Declared.Added.skipped authnd.Declared.Added.skipped_by authnd.Declared.Added.walk
    authnd.Roster.equal_fold authnd.Roster.fold_name authnd.Roster.least_in_orbit
    authnd.Entries.Built.has authnd.Samples.type_named authnd.Samples.class_named
    authnd.Entries.Built.samba_of authnd.Config.Samba.samba_sid authnd.Declared.Added.present
    authnd.Entries.Built.allows authnd.Entries.Built.derived authnd.Entries.Built.given_attributes
    given_names authnd.Entries.Built.hex_upper authnd.Entries.Built.key_attributes
    authnd.Entries.Built.samba_attributes authnd.Entries.Built.undeclared authnd.Entries.is_placed
    placed_and_validated authnd.Entries.validate authnd.Server.Names.dn_of
    authnd.Entries.Built.member_attributes authnd.Entries.Built.group_class put
    authnd.Declared.Unmet.left_by authnd.Declared.Unmet.classes_of
alice_is_built = refl

abbrev crew_entry : Entry
crew_entry =
    placed_and_validated schema none
      (entry_of_group ascii swap_case schema table site (codes "crew") [] crew)

crew_is_built :
    built_group ascii swap_case schema none table site groups
      (codes "crew")
      (entry_of_group ascii swap_case schema table site (codes "crew") [] crew)
    ≡ some crew_entry
unfolding built_person built_group authnd.Declared.Unmet.unmet person_entry entry_of_group
    authnd.Samples.judge text_eq authnd.Declared.Added.with_declared get
    authnd.Declared.Added.skipped authnd.Declared.Added.skipped_by authnd.Declared.Added.walk
    authnd.Roster.equal_fold authnd.Roster.fold_name authnd.Roster.least_in_orbit
    authnd.Entries.Built.has authnd.Samples.type_named authnd.Samples.class_named
    authnd.Entries.Built.samba_of authnd.Config.Samba.samba_sid authnd.Declared.Added.present
    authnd.Entries.Built.allows authnd.Entries.Built.derived authnd.Entries.Built.given_attributes
    given_names authnd.Entries.Built.hex_upper authnd.Entries.Built.key_attributes
    authnd.Entries.Built.samba_attributes authnd.Entries.Built.undeclared authnd.Entries.is_placed
    placed_and_validated authnd.Entries.validate authnd.Server.Names.dn_of
    authnd.Entries.Built.member_attributes authnd.Entries.Built.group_class put
    authnd.Declared.Unmet.left_by authnd.Declared.Unmet.classes_of
crew_is_built = refl
