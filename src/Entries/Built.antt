-- ===== src/Entries/Built.antt =====
-- entries.go: the entry of a person and of a group, and the publication of a snapshot.
use authnd.Base.{
  ltb, ◌==◌, if◌then◌else◌, is_some, length, any, all, keep, Text, codes, is_empty, Casing,
  to_lower, Map, get, ℕ, ◌+◌, ◌-◌, ◌/◌, ◌%◌, Bool, true, false, not, ◌&&◌, ◌||◌, Option, none, some,
  List, [], ◌∷◌, ◌++◌,
}
use authnd.Config.{Config}
use authnd.Config.Samba.{Sid, sid, samba_sid}
use authnd.Directory.{Identity}
use authnd.Schema.{Class, facts, Attribute, Schema}
use authnd.Roster.{Fold}
use authnd.Server.{GroupFacts, GroupSnapshot, Site}
use authnd.Server.Names.{dn_of}
use authnd.Entries.{LeftOff, Entry}
use authnd.Declared.Added.{has_key, with_declared}

abbrev same_type : Option ℕ → Option ℕ → Bool
same_type (some a) (some b) = a == b
same_type _ _ = false

-- has
unfoldable pub has : Schema → Map (List Text) → Text → Bool
has s attrs name =
    any (λ (a : Text × List Text). same_type (s.describe a.0) (s.attribute_type name)) attrs

-- slices.Contains(types, want), where want may be nil
contains_type : List ℕ → Option ℕ → Bool
contains_type types none = false
contains_type types (some t) = any (λ x. x == t) types

class_allows : Option ℕ → Option Class → Bool
unfolding contains_type
class_allows want none = false
class_allows want (some c) = contains_type (facts c).must want || contains_type (facts c).may want

-- allows
unfoldable pub allows : Schema → List Text → Text → Bool
unfolding class_allows
allows s classes name = any (λ c. class_allows (s.attribute_type name) (s.object_class c)) classes

-- ldap.StringAttribute
abbrev pub attribute : Text → List Text → Attribute
attribute name values = record { name = name; values = values }

-- The attributes that a source gave.
unfoldable pub given_attributes : Map (List Text) → List Attribute
given_attributes [] = []
given_attributes ((name, values) ∷ attrs) = attribute name values ∷ given_attributes attrs

unfoldable pub given_names : Map (List Text) → List Text
given_names [] = []
given_names ((name, values) ∷ attrs) = name ∷ given_names attrs

-- One digit of upper-case hexadecimal.
hex_digit : ℕ → ℕ
hex_digit n = if ltb n 10 then b'0' + n else b'A' + (n - 10)

-- strings.ToUpper(hex.EncodeToString(key))
unfoldable pub hex_upper : Text → Text
unfolding hex_digit
hex_upper [] = []
hex_upper (c ∷ cs) = hex_digit (c / 16) ∷ hex_digit (c % 16) ∷ hex_upper cs

-- posixMust
abbrev pub posix_must : List Text
posix_must = codes "uidNumber" ∷ codes "gidNumber" ∷ codes "homeDirectory" ∷ []

-- undeclared: the classes that were not checked at startup.
unfoldable pub undeclared : Casing → Map Class → List Text → List LeftOff
undeclared u table [] = []
undeclared u table (n ∷ ns) =
    let rest = undeclared u table ns in
    if is_some (get (to_lower u n) table)
    then rest
    else record { class = n; missing = []; rule = []; super = [] } ∷ rest

-- off, of personEntry: whether a class that authnd derives is left off.
abbrev pub is_off : Casing → List Text → Text → Bool
is_off u skip name = has_key (to_lower u name) skip

-- What a person is published with for Samba: the hash, the SID, the class, and why not.
pub record Samba : Type 0 where
  pub value : Text
  pub sid : Text
  pub classes : List Text
  pub no_sid : Option Sid

abbrev pub nothing : Samba
nothing = record { value = []; sid = []; classes = []; no_sid = none }

samba_for : Text → Sid → Samba
samba_for key (sid []) = nothing
samba_for key (sid (c ∷ t)) = record {
  value = hex_upper key;
  sid = c ∷ t;
  classes = codes "sambaSamAccount" ∷ [];
  no_sid = none;
}
samba_for key why = record nothing { no_sid = some why }

with_key : Option Text → Sid → Samba
unfolding samba_for
with_key none found = nothing
with_key (some key) found = samba_for key found

-- The NT hash of a person, where the configuration publishes it and the class is not left off.
unfoldable pub samba_of : Config → Bool → Identity → Samba
unfolding with_key
samba_of cfg off id =
    if cfg.publish_nt_hash && not off then with_key id.nt_key (samba_sid cfg.samba id) else nothing

-- The structural classes of a person: whether they have an sn.
abbrev pub person_chain : Bool → List Text
person_chain true = codes "person" ∷ codes "organizationalPerson" ∷ codes "inetOrgPerson" ∷ []
person_chain false = codes "account" ∷ []

abbrev pub when : {A : Type 0} → Bool → A → List A
when true a = a ∷ []
when false a = []

-- The attributes that come with a hash; `given` are the person's own values of sambaSID.
unfoldable pub samba_attributes : Samba → List Text → List Attribute
samba_attributes m given =
    if is_empty m.value
    then []
    else when (length given == 0) (attribute (codes "sambaSID") (m.sid ∷ []))
      ++ attribute (codes "sambaNTPassword") (m.value ∷ []) ∷ []

unfoldable pub key_attributes : List Text → List Attribute
key_attributes [] = []
key_attributes (k ∷ ks) = attribute (codes "sshPublicKey") (k ∷ ks) ∷ []

module _ (u : Casing) (fold : Fold) (s : Schema) (table : Map Class) (site : Site) where
  -- The classes that authnd decides on: the structural chain, and those of what a person has.
  unfoldable pub derived : Identity → List Text → List Text
  derived id skip =
      let posix = all (has s id.attributes) posix_must in
      person_chain (has s id.attributes (codes "sn"))
      ++ (when (posix && not (is_off u skip (codes "posixAccount"))) (codes "posixAccount")
          ++ (when (not (is_off u skip (codes "ldapPublicKey")) && not (length id.keys == 0))
                (codes "ldapPublicKey")
              ++ ((samba_of site.cfg (is_off u skip (codes "sambaSamAccount")) id).classes
                  ++ when (not (is_off u skip (codes "uidObject"))) (codes "uidObject"))))

  -- personEntry
  unfoldable pub person_entry : Identity → List Text → Entry
  unfolding derived
  person_entry id skip =
      let hash = samba_of site.cfg (is_off u skip (codes "sambaSamAccount")) id in
      let (classes, added) =
        with_declared fold s u table skip (derived id skip) id.object_classes in
      record {
        name = id.name;
        dn = dn_of site.people_dn id.name;
        group = false;
        shape = classes;
        missing_posix = keep (λ m. not (has s id.attributes m)) posix_must;
        no_sid = hash.no_sid;
        attributes =
            attribute (codes "objectClass") (codes "top" ∷ classes)
              ∷ attribute (codes "uid") (id.name ∷ [])
              ∷ when (allows s classes (codes "cn")) (attribute (codes "cn") (id.name ∷ []))
            ++ (given_attributes id.attributes
                ++ (samba_attributes hash (id.get_attribute (codes "sambaSID"))
                    ++ key_attributes
                        (if is_off u skip (codes "ldapPublicKey") then [] else id.keys)));
        given = given_names id.attributes;
        dropped = [];
        invalid = none;
        declared = added;
        left_off = undeclared u table id.object_classes;
        judged = none;
      }

  -- The structural class of a group: a gidNumber, somebody in it, or neither.
  unfoldable pub group_class : Bool → List Text → Text
  group_class true members = codes "posixGroup"
  group_class false (m ∷ ms) = codes "groupOfNames"
  group_class false [] = codes "organizationalRole"

  unfoldable pub member_dns : List Text → List Text
  member_dns [] = []
  member_dns (m ∷ ms) = dn_of site.people_dn m ∷ member_dns ms

  -- The members as their class has them; none for an empty group.
  unfoldable pub member_attributes : Bool → List Text → List Attribute
  unfolding member_dns
  member_attributes posix [] = []
  member_attributes true (m ∷ ms) = attribute (codes "memberUid") (m ∷ ms) ∷ []
  member_attributes false (m ∷ ms) = attribute (codes "member") (member_dns (m ∷ ms)) ∷ []

  unfoldable pub entry_of_group : Text → List Text → GroupFacts → Entry
  entry_of_group name skip g =
      let posix = has s g.attributes (codes "gidNumber") in
      let (classes, added) =
        with_declared fold s u table skip (group_class posix g.members ∷ []) g.declared in
      record {
        name = name;
        dn = codes "cn=" ++ (name ++ b',' ∷ site.groups_dn);
        group = true;
        shape = classes;
        missing_posix = [];
        no_sid = none;
        attributes =
            attribute (codes "objectClass") (codes "top" ∷ classes)
              ∷ attribute (codes "cn") (name ∷ [])
              ∷ given_attributes g.attributes
            ++ member_attributes posix g.members;
        given = given_names g.attributes;
        dropped = [];
        invalid = none;
        declared = added;
        left_off = undeclared u table g.declared;
        judged = none;
      }

  unfoldable pub group_found : Text → List Text → Option GroupFacts → Option Entry
  unfolding entry_of_group
  group_found name skip none = none
  group_found name skip (some g) = if g.missing then none else some (entry_of_group name skip g)

  -- groupEntryFrom; none is ErrNoSuchGroup.
  unfoldable pub group_entry_from : GroupSnapshot → Text → List Text → Option Entry
  unfolding group_found
  group_entry_from g name skip = group_found name skip (get name g.by)
