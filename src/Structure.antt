-- ===== src/Structure.antt =====
-- structure.go: `checkStructure`, which holds the suffix and the two containers to the schema's DIT
-- structure rules before anything is read.
pub mod Placed
pub mod Exact
pub mod Tests
use authnd.Base.{
  ◌==◌, if◌then◌else◌, Text, codes, ℕ, ◌+◌, Bool, false, not, ◌||◌, Option, none, some, List, [],
  ◌∷◌, ◌++◌,
}
use authnd.Schema.{Attribute, Governed, governed_by, name_form_violation, unplaced, Schema}
use authnd.Server.{Site}
use authnd.Entries.{Tree}

-- containerClasses: the attribute of an RDN, and the class of a container named by it.
abbrev pub container_classes : List (Text × Text)
container_classes =
    (codes "dc", codes "domain")
    ∷ (codes "o", codes "organization")
    ∷ (codes "ou", codes "organizationalUnit")
    ∷ (codes "c", codes "country")
    ∷ (codes "l", codes "locality")
    ∷ []

-- personShapes and groupShapes
abbrev pub person_shapes : List (List Text)
person_shapes =
    (codes "account" ∷ [])
    ∷ (codes "person" ∷ codes "organizationalPerson" ∷ codes "inetOrgPerson" ∷ [])
    ∷ []

abbrev pub group_shapes : List (List Text)
group_shapes =
    (codes "posixGroup" ∷ []) ∷ (codes "groupOfNames" ∷ []) ∷ (codes "organizationalRole" ∷ []) ∷ []

pub data Container : Type 0 where
  people groups : Container

-- Why the tree is refused; a text is the class or the attribute that the message names.
pub data Fault : Type 0 where
  not_a_dn suffix_refused : Fault
  suffix_named_by : Text → Fault
  container_refused nothing_placed : Container → Fault
  badly_named : Container → Text → Fault

-- activeStructureRules; a rule is whether it is obsolete.
unfoldable pub active : List Bool → Bool
active [] = false
active (obsolete ∷ rules) = not obsolete || active rules

-- objectClasses
abbrev pub object_classes : List Text → List Attribute
object_classes chain = record { name = codes "objectClass"; values = codes "top" ∷ chain } ∷ []

unfoldable pub is_type_of : Schema → Option ℕ → Text → Bool
is_type_of s none attr = false
is_type_of s (some t) attr = elim (s.attribute_type attr) [ none ↦ false | some a ↦ t == a ]

unfoldable pub class_for : Schema → Option ℕ → List (Text × Text) → Option Text
unfolding is_type_of
class_for s t [] = none
class_for s t ((attr, class) ∷ more) =
    let rest = class_for s t more in if is_type_of s t attr then some class else rest

pub data Class : Type 0 where
  class : Text → Class
  fault : Fault → Class

unfoldable pub class_named : Text → Option Text → Class
class_named attr none = fault (suffix_named_by attr)
class_named attr (some c) = class c

-- containerClass
unfoldable pub container_class : Schema → Text → Class
unfolding class_for class_named
container_class s dn = elim (s.first_type dn) [
  | none ↦ fault not_a_dn
  | some attr ↦ class_named attr (class_for s (s.attribute_type attr) container_classes)
]

-- The class that a shape ends in.
abbrev pub leaf : List Text → Text
leaf [] = []
leaf (c ∷ []) = c
leaf (c ∷ d ∷ cs) = leaf (d ∷ cs)

-- A probe of this shape under a container that the rule `r` governs.
unfoldable pub probe : Schema → Text → Text → Option ℕ → List Text → Governed
probe s rdn dn r shape = s.govern (rdn ++ codes "=probe," ++ dn) (object_classes shape) r

-- The shapes so far: how many are placed or refused, and the faults.
pub record Probed : Type 0 where
  pub placed : ℕ
  pub faults : List Fault

unfoldable pub probed : Container → List Text → Governed → Probed → Probed
probed c shape (governed_by r) p = record p { placed = p.placed + 1 }
probed c shape name_form_violation p = record {
  placed = p.placed + 1;
  faults = p.faults ++ badly_named c (leaf shape) ∷ [];
}
probed c shape unplaced p = p

unfoldable pub probe_all :
    Schema → Container → Text → Text → Option ℕ → List (List Text) → Probed → Probed
unfolding probed probe
probe_all s c rdn dn r [] p = p
probe_all s c rdn dn r (shape ∷ shapes) p =
    probe_all s c rdn dn r shapes (probed c shape (probe s rdn dn r shape) p)

unfoldable pub none_placed : Container → Probed → List Fault
none_placed c p = if p.placed == 0 then p.faults ++ nothing_placed c ∷ [] else p.faults

unfoldable pub check_governed :
    Schema → Container → Text → Text → List (List Text) → Governed → Option ℕ × List Fault
unfolding probe_all none_placed
check_governed s c rdn dn shapes (governed_by r) =
    (r, none_placed c (probe_all s c rdn dn r shapes (record { placed = 0; faults = [] })))
check_governed s c rdn dn shapes _ = (none, container_refused c ∷ [])

-- One turn of the loop over the two containers: the rule that governs it, and the faults.
unfoldable pub check_container :
    Schema → Option ℕ → Container → Text → Text → List (List Text) → Option ℕ × List Fault
unfolding check_governed
check_container s root c rdn dn shapes =
    check_governed s c rdn dn shapes
      (s.govern dn (object_classes (codes "organizationalUnit" ∷ [])) root)

-- What checkStructure comes to: the tree that it keeps, or every fault.
pub data Checked : Type 0 where
  accepted : Option Tree → Checked
  refused : List Fault → Checked

unfoldable pub verdict : Option ℕ × List Fault → Option ℕ × List Fault → Checked
verdict (r, []) (q, []) = accepted (some (record { people = r; groups = q }))
verdict (r, es) (q, fs) = refused (es ++ fs)

unfoldable pub check_under : Schema → Site → Governed → Checked
unfolding verdict check_container
check_under s site (governed_by root) =
    verdict (check_container s root people (codes "uid") site.people_dn person_shapes)
      (check_container s root groups (codes "cn") site.groups_dn group_shapes)
check_under s site _ = refused (suffix_refused ∷ [])

unfoldable pub check_suffix : Schema → Site → Class → Checked
unfolding check_under
check_suffix s site (fault f) = refused (f ∷ [])
check_suffix s site (class c) =
    check_under s site (s.govern site.cfg.base_dn (object_classes (c ∷ [])) none)

-- checkStructure
unfoldable pub check_structure : Schema → Site → Checked
unfolding active check_suffix container_class
check_structure s site =
    if active s.structure_rules
    then check_suffix s site (container_class s site.cfg.base_dn)
    else accepted none
