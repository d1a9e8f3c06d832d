-- ===== src/Entries/Listed.antt =====
-- entries.go, `build`: the entries of a publication, and their order.
use authnd.Base.{
  if◌then◌else◌, Bool-cases, keep, All, Text, Casing, to_lower, Map, get, ◌≡◌, refl, ◌∙◌, inl, inr,
  Bool, false, not, Option, none, some, List, [], ◌∷◌, ◌++◌, map, map-append, arith,
}
use authnd.Directory.{Identity}
use authnd.Schema.{Class, Schema}
use authnd.Roster.{Fold}
use authnd.Server.{Site, GroupFacts, GroupSnapshot, Snapshot}
use authnd.Server.Names.{dn_of}
use authnd.Entries.{Entry, Tree}
use authnd.Entries.Built.{group_entry_from, group_found, entry_of_group}
use authnd.Entries.Publication.{
  built_person, built_people, built_group, built_groups, and_entry, both, build, sorted_of,
}
use authnd.Entries.Sorted.{IsByName, sorted_of-IsByName}
use authnd.Entries.Known.{IsLawful}
use authnd.Entries.Complete.{person-Tells, group-Tells}
use authnd.Entries.Everywhere.{Holds}
use authnd.Entries.Dns.{group_dn, DnIs, person-dn, group-dn}

-- Whether a group of this name is in the snapshot.
unfoldable pub is_there : GroupSnapshot → Text → Bool
is_there g name = elim (get name g.by) [ none ↦ false | some facts ↦ not facts.missing ]

-- The DNs of these people's entries, and then of the groups that a snapshot has.
abbrev pub dns_of : Site → Snapshot → List Identity → List Text
dns_of site sn ids =
    map (λ (id : Identity). dn_of site.people_dn id.name) ids
    ++ map (group_dn site) (keep (is_there sn.groups) sn.groups.names)

abbrev dn_list : List Entry → List Text
dn_list es = map (λ (e : Entry). e.dn) es

-- The entries are there, under these DNs.
pub record IsListed (ds : List Text) (o : Option (List Entry)) : Type 0 where
  pub entries : List Entry
  pub found : o ≡ some entries
  pub dns : map (λ (e : Entry). e.dn) entries ≡ ds

-- The publication of a snapshot: there are entries, for the people of its roster by name, and then
-- for its groups.
pub record Publishes (site : Site) (sn : Snapshot) (o : Option (List Entry)) : Type 0 where
  pub people : List Identity
  pub by_name : IsByName sn.people people
  pub listed : IsListed (dns_of site sn people) o

and_entry-IsListed :
    (d : Text) (ds : List Text) (e : Entry) (o : Option Entry) (r : Option (List Entry))
    → o ≡ some e
    → Holds (DnIs d) o
    → IsListed ds r
    → IsListed (d ∷ ds) (and_entry o r)
unfolding and_entry
and_entry-IsListed d ds e none r f h l = absurd (ground (arith, f))
and_entry-IsListed d ds e (some e') none f h l = absurd (ground (arith, l.found))
and_entry-IsListed d ds e (some e') (some es) f h l = record {
  entries = e' ∷ es;
  found = refl;
  dns = ground (arith, l.found, l.dns, h);
}

both-IsListed :
    (ds fs : List Text) (o r : Option (List Entry))
    → IsListed ds o
    → IsListed fs r
    → IsListed (ds ++ fs) (both o r)
unfolding both
both-IsListed ds fs none r p q = absurd (ground (arith, p.found))
both-IsListed ds fs (some es) none p q = absurd (ground (arith, q.found))
both-IsListed ds fs (some es) (some gs) p q = record {
  entries = es ++ gs;
  found = refl;
  dns = map-append _ es gs ∙ ground (arith, p.found, q.found, p.dns, q.dns);
}

module _ (u : Casing) (fold : Fold) (s : Schema) (tree : Option Tree) (table : Map Class)
    (site : Site)
    (ignores_case : (n m : Text)
      → to_lower u n ≡ to_lower u m
      → s.object_class n ≡ s.object_class m)
    (lawful : All (λ (e : Text × Class). IsLawful s e.1) table) where
  people-IsListed :
      (ids : List Identity)
      → IsListed
          (map (λ (id : Identity). dn_of site.people_dn id.name) ids)
          (built_people u fold s tree table site ids)
  unfolding built_people
  people-IsListed [] = record { entries = []; found = refl; dns = refl }
  people-IsListed (id ∷ ids) =
      let t = person-Tells u fold s tree table site ignores_case lawful id in
      and_entry-IsListed (dn_of site.people_dn id.name)
        (map (λ (x : Identity). dn_of site.people_dn x.name) ids) t.entry
        (built_person u fold s tree table site id) (built_people u fold s tree table site ids)
        t.found (person-dn u fold s tree table site id) (people-IsListed ids)

  -- One group more, where it is there.
  group-IsListed :
      (g : GroupSnapshot) (name : Text) (ns : List Text) (o : Option GroupFacts)
      (r : Option (List Entry))
      → get name g.by ≡ o
      → IsListed (map (group_dn site) ns) r
      → IsListed
          (map
            (group_dn site)
            (if elim o [ none ↦ false | some facts ↦ not facts.missing ] then name ∷ ns else ns))
          (elim (group_found u fold s table site name [] o) [
            | none ↦ r
            | some e ↦ and_entry (built_group u fold s tree table site g name e) r
          ])
  unfolding group_found
  group-IsListed g name ns none r f l = l
  group-IsListed g name ns (some facts) r f l = elim (Bool-cases facts.missing) [
    | inl gone ↦ rw gone l
    | inr there ↦
        let t = group-Tells u fold s tree table site ignores_case lawful g name facts f there in
        let e = entry_of_group u fold s table site name [] facts in
        rw there (
          and_entry-IsListed (group_dn site name) (map (group_dn site) ns) t.entry
            (built_group u fold s tree table site g name e) r t.found
            (group-dn u fold s tree table site g name facts f) l)
  ]

  groups-IsListed :
      (g : GroupSnapshot) (names : List Text)
      → IsListed
          (map (group_dn site) (keep (is_there g) names))
          (built_groups u fold s tree table site g names)
  unfolding built_groups is_there group_entry_from
  groups-IsListed g [] = record { entries = []; found = refl; dns = refl }
  groups-IsListed g (name ∷ names) =
      group-IsListed g name (keep (is_there g) names) (get name g.by)
        (built_groups u fold s tree table site g names) refl (groups-IsListed g names)

  -- A snapshot always has a publication: an entry for each person of its roster and for nobody
  -- else, in the order of their names and under the DN that dnOf gives, and then one for each of its
  -- groups that is there, in the snapshot's order. The classes that were checked at startup are
  -- found by their names, which ignore case, and require what their superclasses require.
  pub build-Publishes : (sn : Snapshot) → Publishes site sn (build u fold s tree table site sn)
  unfolding build
  build-Publishes sn = record {
    people = sorted_of sn.people;
    by_name = sorted_of-IsByName sn.people;
    listed =
        both-IsListed (map (λ (id : Identity). dn_of site.people_dn id.name) (sorted_of sn.people))
          (map (group_dn site) (keep (is_there sn.groups) sn.groups.names))
          (built_people u fold s tree table site (sorted_of sn.people))
          (built_groups u fold s tree table site sn.groups sn.groups.names)
          (people-IsListed (sorted_of sn.people)) (groups-IsListed sn.groups sn.groups.names);
  }
