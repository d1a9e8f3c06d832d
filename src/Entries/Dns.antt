-- ===== src/Entries/Dns.antt =====
-- entries.go: the DN of an entry, from when it is built.
use authnd.Base.{Text, codes, Casing, Map, get, ◌≡◌, refl, ◌∙◌, Option, some, [], ◌∷◌, ◌++◌}
use authnd.Directory.{Identity}
use authnd.Schema.{Class, Schema}
use authnd.Roster.{Fold}
use authnd.Server.{Site, GroupFacts, GroupSnapshot}
use authnd.Server.Names.{dn_of}
use authnd.Entries.{Entry, Tree}
use authnd.Entries.Built.{person_entry, entry_of_group}
use authnd.Entries.Publication.{with_left, built_person, built_group}
use authnd.Entries.Says.{validate-SaysAs, placed_and_validated-SaysAs}
use authnd.Entries.Everywhere.{Holds, built_person-Holds, built_group-Holds}

-- The DN of a group's entry.
abbrev pub group_dn : Site → Text → Text
group_dn site name = codes "cn=" ++ (name ++ b',' ∷ site.groups_dn)

abbrev pub DnIs : Text → Entry → Type 0
DnIs d e = e.dn ≡ d

module _ (u : Casing) (fold : Fold) (s : Schema) (tree : Option Tree) (table : Map Class)
    (site : Site) where
  pub person-dn :
      (id : Identity)
      → Holds (DnIs (dn_of site.people_dn id.name)) (built_person u fold s tree table site id)
  unfolding with_left person_entry
  person-dn id =
      let P = DnIs (dn_of site.people_dn id.name) in
      built_person-Holds P (λ off e h. h) u fold s tree table site
        (λ e h. (validate-SaysAs s e).dn ∙ h) P
        (λ e h. (placed_and_validated-SaysAs s tree e).dn ∙ h) id (λ skip. refl)

  pub group-dn :
      (g : GroupSnapshot) (name : Text) (facts : GroupFacts)
      → get name g.by ≡ some facts
      → Holds (DnIs (group_dn site name)) (
          built_group u fold s tree table site g name
            (entry_of_group u fold s table site name [] facts))
  unfolding with_left entry_of_group
  group-dn g name facts found =
      let P = DnIs (group_dn site name) in
      built_group-Holds P (λ off e h. h) u fold s tree table site
        (λ e h. (validate-SaysAs s e).dn ∙ h) P
        (λ e h. (placed_and_validated-SaysAs s tree e).dn ∙ h) g name facts found (λ skip. refl)
