-- ===== src/Groups/Tests.antt =====
-- One source with two groups, and a person in a third.
use authnd.Base.{is_some, codes, true, false, some, [], ◌∷◌}
use authnd.Server.{GroupSnapshot, GroupFacts}
use authnd.Groups.{found, no_such_group, GroupSource, FrozenSet}

abbrev source : GroupSource
source = record { lists = true; group_names = some (codes "b" ∷ codes "a" ∷ codes "b" ∷ []) }

abbrev set : FrozenSet
set = record {
  sources = source ∷ [];
  members = λ n. found (codes "alice" ∷ []);
  attributes = λ n. no_such_group [];
  declared = λ n. no_such_group [];
}

abbrev facts : GroupFacts
facts = record { members = codes "alice" ∷ []; attributes = []; declared = []; missing = false }

abbrev two_groups : GroupSnapshot
two_groups = record {
  names = codes "a" ∷ codes "b" ∷ [];
  by = (codes "b", facts) ∷ (codes "a", facts) ∷ [];
}
