-- ===== src/Entries/Publication.antt =====
-- entries.go: `build`, every entry of a snapshot, each held to the schema.
pub mod Tests
use authnd.Base.{if◌then◌else◌, Text, Casing, Map, Option, none, some, List, [], ◌∷◌, ◌++◌}
use authnd.Directory.{Identity}
use authnd.Schema.{Class, Schema}
use authnd.Roster.{Fold, Roster}
use authnd.Groups.{text_lt}
use authnd.Server.{GroupSnapshot, Snapshot, Site}
use authnd.Entries.{LeftOff, Entry, Tree, placed_and_validated}
use authnd.Entries.Built.{person_entry, group_entry_from}
use authnd.Declared.Unmet.{Left, unmet}

unfoldable pub insert_person : Identity → List Identity → List Identity
insert_person id [] = id ∷ []
insert_person id (other ∷ ids) =
    let rest = insert_person id ids in
    if text_lt other.name id.name then other ∷ rest else id ∷ other ∷ ids

unfoldable pub sort_people : Map Identity → List Identity
unfolding insert_person
sort_people [] = []
sort_people ((n, id) ∷ m) = insert_person id (sort_people m)

-- sortedOf
unfoldable pub sorted_of : Roster → List Identity
unfolding sort_people text_lt
sorted_of r = sort_people r.by_name

-- What an entry is published without is added to what it says already.
unfoldable pub with_left : List LeftOff → Entry → Entry
with_left off e = record e { left_off = e.left_off ++ off }

unfoldable pub rebuilt_without :
    (List Text → Option Entry) → Entry → List LeftOff → List Text → Option Entry
unfolding with_left
rebuilt_without again e [] skip = some e
rebuilt_without again e (o ∷ os) skip = elim (again skip) [
  | none ↦ none
  | some e' ↦ some (with_left (o ∷ os) e')
]

-- An entry that is built again without what is left off, `again` of the classes to skip.
unfoldable pub rebuilt : (List Text → Option Entry) → Option (Entry × Left) → Option Entry
unfolding rebuilt_without
rebuilt again none = none
rebuilt again (some (e, left)) = rebuilt_without again e left.off left.skip

unfoldable pub and_entry : Option Entry → Option (List Entry) → Option (List Entry)
and_entry (some e) (some es) = some (e ∷ es)
and_entry _ _ = none

unfoldable pub both : Option (List Entry) → Option (List Entry) → Option (List Entry)
both (some es) (some fs) = some (es ++ fs)
both _ _ = none

module _ (u : Casing) (fold : Fold) (s : Schema) (tree : Option Tree) (table : Map Class)
    (site : Site) where
  unfoldable pub held : Option Entry → Option Entry
  held none = none
  held (some e) = some (placed_and_validated s tree e)

  -- One turn of the loop over the people; none is a panic.
  unfoldable pub built_person : Identity → Option Entry
  unfolding held rebuilt
  built_person id = held (
      rebuilt (λ skip. some (person_entry u fold s table site id skip))
        (unmet u s (person_entry u fold s table site id [])))

  unfoldable pub built_people : List Identity → Option (List Entry)
  unfolding built_person and_entry
  built_people [] = some []
  built_people (id ∷ ids) = and_entry (built_person id) (built_people ids)

  -- One turn of the loop over the groups, for an entry.
  unfoldable pub built_group : GroupSnapshot → Text → Entry → Option Entry
  unfolding held rebuilt
  built_group g name e = held (rebuilt (group_entry_from u fold s table site g name) (unmet u s e))

  unfoldable pub built_groups : GroupSnapshot → List Text → Option (List Entry)
  unfolding built_group and_entry
  built_groups g [] = some []
  built_groups g (name ∷ names) =
      let rest = built_groups g names in
      elim (group_entry_from u fold s table site g name []) [
        | none ↦ rest
        | some e ↦ and_entry (built_group g name e) rest
      ]

  -- build; none is a panic.
  unfoldable pub build : Snapshot → Option (List Entry)
  unfolding built_people built_groups both sorted_of
  build sn = both (built_people (sorted_of sn.people)) (built_groups sn.groups sn.groups.names)
