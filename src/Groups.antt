-- ===== src/Groups.antt =====
-- groups.go: every group that the sources and the people name, read once.
pub mod Order
pub mod Unique
pub mod Whole
pub mod Tests
use authnd.Base.{
  ltb, if◌then◌else◌, Text, text_eq, Map, put, ◌+◌, Bool, true, false, Option, none, some, List, [],
  ◌∷◌, ◌++◌,
}
use authnd.Directory.{Identity}
use authnd.Server.{GroupFacts, GroupSnapshot}

-- What a set answers about one group: a value, or an error with the value that comes beside it;
-- directory.ErrNoSuchGroup is told apart.
pub data Lookup (A : Type 0) : Type 0 where
  found : A → Lookup A
  no_such_group : A → Lookup A
  broken : Lookup A

-- A source: whether it is a directory.GroupLister, and the list it gives; none is an error.
pub record GroupSource : Type 0 where
  pub lists : Bool
  pub group_names : Option (List Text)

-- directory.Set, frozen.
pub record FrozenSet : Type 0 where
  pub sources : List GroupSource
  pub members : Text → Lookup (List Text)
  pub attributes : Text → Lookup (Map (List Text))
  pub declared : Text → Lookup (List Text)

-- The order of strings: of UTF-8 bytes, which is that of the code points.
unfoldable pub text_lt : Text → Text → Bool
text_lt [] [] = false
text_lt [] (b ∷ t) = true
text_lt (a ∷ s) [] = false
text_lt (a ∷ s) (b ∷ t) =
    let rest = text_lt s t in if ltb a b then true else if ltb b a then false else rest

unfoldable pub insert : Text → List Text → List Text
insert x [] = x ∷ []
insert x (b ∷ l) = let rest = insert x l in if text_lt b x then b ∷ rest else x ∷ b ∷ l

-- slices.Sort
unfoldable pub sort : List Text → List Text
unfolding insert
sort [] = []
sort (x ∷ l) = insert x (sort l)

compact_from : Text → List Text → List Text
compact_from a [] = []
compact_from a (b ∷ l) = if text_eq a b then compact_from a l else b ∷ compact_from b l

-- slices.Compact
pub compact : List Text → List Text
unfolding compact_from
compact [] = []
compact (a ∷ l) = a ∷ compact_from a l

and_then : Option (List Text) → Option (List Text) → Option (List Text)
and_then (some a) (some b) = some (a ++ b)
and_then _ _ = none

-- The names that the listing sources give; none where one of them fails.
pub listed_names : List GroupSource → Option (List Text)
unfolding and_then
listed_names [] = some []
listed_names (s ∷ ss) =
    let rest = listed_names ss in if s.lists then and_then s.group_names rest else rest

-- The names that the people give.
pub person_names : List Identity → List Text
person_names [] = []
person_names (id ∷ ids) = id.groups ++ person_names ids

abbrev missing_group : GroupFacts
missing_group = record { members = []; attributes = []; declared = []; missing = true }

with_classes : List Text → Map (List Text) → Lookup (List Text) → Option GroupFacts
with_classes members attributes (found classes) =
    some
      (record { members = members; attributes = attributes; declared = classes; missing = false })
with_classes members attributes (no_such_group classes) =
    some
      (record { members = members; attributes = attributes; declared = classes; missing = false })
with_classes members attributes broken = none

with_attributes : List Text → Lookup (Map (List Text)) → Lookup (List Text) → Option GroupFacts
unfolding with_classes
with_attributes members (found attributes) classes = with_classes members attributes classes
with_attributes members (no_such_group attributes) classes = with_classes members attributes classes
with_attributes members broken classes = none

with_members :
    Lookup (List Text) → Lookup (Map (List Text)) → Lookup (List Text) → Option GroupFacts
unfolding with_attributes
with_members (found members) attributes classes = with_attributes members attributes classes
with_members (no_such_group members) attributes classes = some missing_group
with_members broken attributes classes = none

-- One turn of readGroups' loop; none is an error.
pub facts_of : FrozenSet → Text → Option GroupFacts
unfolding with_members
facts_of set name = with_members (set.members name) (set.attributes name) (set.declared name)

add_group : Text → Option GroupFacts → Option GroupSnapshot → Option GroupSnapshot
add_group name (some facts) (some g) =
    some (record { names = name ∷ g.names; by = put name facts g.by })
add_group name _ _ = none

fill : FrozenSet → List Text → Option GroupSnapshot
unfolding add_group
fill set [] = some (record { names = []; by = [] })
fill set (name ∷ names) = add_group name (facts_of set name) (fill set names)

read_named : FrozenSet → List Identity → Option (List Text) → Option GroupSnapshot
unfolding fill sort compact person_names
read_named set people none = none
read_named set people (some names) = fill set (compact (sort (names ++ person_names people)))

-- readGroups; none is an error, of a set that cannot be frozen first of all.
unfoldable pub read_groups : Option FrozenSet → List Identity → Option GroupSnapshot
unfolding read_named listed_names text_lt facts_of
read_groups none people = none
read_groups (some set) people = read_named set people (listed_names set.sources)
