-- ===== src/Entries/Complete.antt =====
-- entries.go: the entry of a person or a group, and what it tells of the declared classes.
use authnd.Base.{
  All, Text, codes, Casing, to_lower, Map, get, ◌≡◌, refl, false, Option, some, List, [], ◌∷◌,
  arith,
}
use authnd.Directory.{Identity}
use authnd.Schema.{Class, Schema}
use authnd.Roster.{Fold}
use authnd.Server.{Site, GroupFacts, GroupSnapshot}
use authnd.Entries.{Entry, Tree}
use authnd.Entries.Built.{
  person_entry, derived, group_class, has, group_entry_from, group_found, entry_of_group,
}
use authnd.Entries.Publication.{rebuilt, built_person, built_group}
use authnd.Entries.Known.{IsLawful}
use authnd.Entries.Told.{IsBuilt}
use authnd.Entries.Rebuilt.{Again, Tells, rebuilt-Tells, held-Tells}
use authnd.Declared.Unmet.{unmet}

module _ (u : Casing) (fold : Fold) (s : Schema) (table : Map Class) (site : Site) where
  person-IsBuilt :
      (id : Identity) (skip : List Text)
      → IsBuilt u fold s table site skip id.object_classes
          (person_entry u fold s table site id skip)
  unfolding person_entry
  person-IsBuilt id skip = record {
    classes = derived u fold s table site id skip;
    declared = refl;
    left_off = refl;
  }

  person-Again :
      (lawful : All (λ (e : Text × Class). IsLawful s e.1) table) (id : Identity) (skip : List Text)
      → Again u fold s table site lawful id.object_classes
          (λ skip. some (person_entry u fold s table site id skip))
          skip
  person-Again lawful id skip = record {
    entry = person_entry u fold s table site id skip;
    found = refl;
    built = person-IsBuilt id skip;
  }

  group-IsBuilt :
      (name : Text) (g : GroupFacts) (skip : List Text)
      → IsBuilt u fold s table site skip g.declared (entry_of_group u fold s table site name skip g)
  unfolding entry_of_group
  group-IsBuilt name g skip = record {
    classes =
        group_class u fold s table site (has s g.attributes (codes "gidNumber")) g.members ∷ [];
    declared = refl;
    left_off = refl;
  }

  group-Again :
      (lawful : All (λ (e : Text × Class). IsLawful s e.1) table) (g : GroupSnapshot) (name : Text)
      (facts : GroupFacts)
      → get name g.by ≡ some facts
      → facts.missing ≡ false
      → (skip : List Text)
      → Again u fold s table site lawful facts.declared
          (group_entry_from u fold s table site g name)
          skip
  unfolding group_entry_from group_found
  group-Again lawful g name facts found there skip = record {
    entry = entry_of_group u fold s table site name skip facts;
    found = ground (arith, found, there);
    built = group-IsBuilt name facts skip;
  }

module _ (u : Casing) (fold : Fold) (s : Schema) (tree : Option Tree) (table : Map Class)
    (site : Site)
    (ignores_case : (n m : Text)
      → to_lower u n ≡ to_lower u m
      → s.object_class n ≡ s.object_class m)
    (lawful : All (λ (e : Text × Class). IsLawful s e.1) table) where
  pub person-Tells :
      (id : Identity)
      → Tells u fold s table site lawful id.object_classes
          (built_person u fold s tree table site id)
  unfolding built_person
  person-Tells id =
      let again = person-Again u fold s table site lawful id in
      let e = person_entry u fold s table site id [] in
      let build : List Text → Option Entry =
        λ skip. some (person_entry u fold s table site id skip) in
      held-Tells u fold s table site lawful id.object_classes build again ignores_case tree
        (rebuilt build (unmet u s e))
        (rebuilt-Tells u fold s table site lawful id.object_classes build again ignores_case e
          (person-IsBuilt u fold s table site id []))

  pub group-Tells :
      (g : GroupSnapshot) (name : Text) (facts : GroupFacts)
      → get name g.by ≡ some facts
      → facts.missing ≡ false
      → Tells u fold s table site lawful facts.declared (
          built_group u fold s tree table site g name
            (entry_of_group u fold s table site name [] facts))
  unfolding built_group
  group-Tells g name facts found there =
      let again = group-Again u fold s table site lawful g name facts found there in
      let e = entry_of_group u fold s table site name [] facts in
      let build = group_entry_from u fold s table site g name in
      held-Tells u fold s table site lawful facts.declared build again ignores_case tree
        (rebuilt build (unmet u s e))
        (rebuilt-Tells u fold s table site lawful facts.declared build again ignores_case e
          (group-IsBuilt u fold s table site name facts []))
