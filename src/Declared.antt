-- ===== src/Declared.antt =====
-- declared.go: the auxiliary classes that the configuration declares, checked at startup, added to
-- an entry with their superclasses, and left off where the schema says so. A map[string]bool is
-- the list of its keys.
pub mod Added
pub mod Unmet
pub mod Checked
pub mod Settled
pub mod Conflicts
pub mod Tests
use authnd.Base.{
  if◌then◌else◌, any, Text, codes, Casing, to_lower, Map, put, Bool, false, ◌||◌, Option, none,
  some, List, [], ◌∷◌, ◌++◌,
}
use authnd.Config.{Config, Range, UserBlock, GroupBlock, DirectoryBlock}
use authnd.Schema.{
  auxiliary, structural, abstract_class, ClassKind, Class, facts, same_class, Schema,
}
use authnd.Roster.{Fold, equal_fold}

-- derivedClasses
abbrev pub derived_classes : List Text
derived_classes =
    codes "top"
    ∷ codes "account"
    ∷ codes "person"
    ∷ codes "organizationalPerson"
    ∷ codes "inetOrgPerson"
    ∷ codes "posixAccount"
    ∷ codes "ldapPublicKey"
    ∷ codes "sambaSamAccount"
    ∷ codes "uidObject"
    ∷ codes "posixGroup"
    ∷ codes "groupOfNames"
    ∷ codes "organizationalRole"
    ∷ []

-- How a block is named in a sentence.
pub data Block : Type 0 where
  user_block group_block users_block : Text → Block

pub data Field : Type 0 where
  object_classes group_object_classes : Field

-- declaration; what carries the classes (`of`) follows from the block and the field.
pub record Declaration : Type 0 where
  pub block : Block
  pub field : Field
  pub range : Range
  pub names : List Text

-- One declaration, where the list is not empty.
declared_by : Block → Field → Range → List Text → List Declaration
declared_by b f r [] = []
declared_by b f r (n ∷ ns) = record { block = b; field = f; range = r; names = n ∷ ns } ∷ []

user_declarations : List UserBlock → List Declaration
unfolding declared_by
user_declarations [] = []
user_declarations (u ∷ us) =
    declared_by (user_block u.name) object_classes u.object_classes_range u.object_classes
    ++ user_declarations us

group_declarations : List GroupBlock → List Declaration
unfolding declared_by
group_declarations [] = []
group_declarations (g ∷ gs) =
    declared_by (group_block g.name) object_classes g.object_classes_range g.object_classes
    ++ group_declarations gs

directory_declarations : List DirectoryBlock → List Declaration
unfolding declared_by
directory_declarations [] = []
directory_declarations (b ∷ bs) =
    declared_by (users_block b.kind) object_classes b.object_classes_range b.object_classes
    ++ (declared_by (users_block b.kind) group_object_classes b.group_object_classes_range
          b.group_object_classes
        ++ directory_declarations bs)

-- declarations
pub declarations : Config → List Declaration
unfolding user_declarations group_declarations directory_declarations
declarations c =
    user_declarations c.users
    ++ (group_declarations c.groups ++ directory_declarations c.directories)

-- Why a class cannot be declared; the text is its name.
pub data Refusal : Type 0 where
  derived_itself undefined is_structural is_abstract : Text → Refusal

pub data Declarable : Type 0 where
  can : Class → Declarable
  cannot : Refusal → Declarable

-- oc != nil && oc == other, of pointers that may be nil
abbrev pub is_that : Option Class → Option Class → Bool
is_that (some a) (some b) = same_class a b
is_that _ _ = false

of_kind : Text → Class → ClassKind → Declarable
of_kind name c auxiliary = can c
of_kind name c structural = cannot (is_structural name)
of_kind name c abstract_class = cannot (is_abstract name)

of_class : Text → Option Class → Declarable
unfolding of_kind
of_class name none = cannot (undefined name)
of_class name (some c) = of_kind name c (facts c).kind

pub is_derived : Fold → Schema → Text → Bool
is_derived fold s name =
    any (λ d. equal_fold fold d name || is_that (s.object_class name) (s.object_class d))
      derived_classes

-- declarable
pub declarable : Fold → Schema → Text → Declarable
unfolding of_class is_derived
declarable fold s name =
    if is_derived fold s name
    then cannot (derived_itself name)
    else of_class name (s.object_class name)

-- s.declared, and the refusals with the declaration that each is in.
pub record Held : Type 0 where
  pub declared : Map Class
  pub refusals : List (Declaration × Refusal)

hold : Casing → Declaration → Text → Declarable → Held → Held
hold u d name (can c) h = record h { declared = put (to_lower u name) c h.declared }
hold u d name (cannot r) h = record h { refusals = h.refusals ++ (d, r) ∷ [] }

hold_names : Casing → Fold → Schema → Declaration → List Text → Held → Held
unfolding hold
hold_names u fold s d [] h = h
hold_names u fold s d (n ∷ ns) h = hold_names u fold s d ns (hold u d n (declarable fold s n) h)

pub hold_all : Casing → Fold → Schema → List Declaration → Held → Held
unfolding hold_names
hold_all u fold s [] h = h
hold_all u fold s (d ∷ ds) h = hold_all u fold s ds (hold_names u fold s d d.names h)

-- checkDeclared; it fails where there are refusals, with all of them.
pub check_declared : Casing → Fold → Schema → Config → Held
unfolding hold_all declarations
check_declared u fold s c =
    hold_all u fold s (declarations c) (record { declared = []; refusals = [] })
