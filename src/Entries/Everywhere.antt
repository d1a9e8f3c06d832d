-- ===== src/Entries/Everywhere.antt =====
-- entries.go, `build`: from an entry as it is first built to every entry of a publication.
use mathlib.Core.Path.{subst}
use authnd.Base.{
  Bool-cases, All, Text, Casing, Map, get, ◌≡◌, refl, inl, inr, Option, none, some, List, [], ◌∷◌,
  ◌++◌,
}
use authnd.Directory.{Identity}
use authnd.Schema.{Class, Judgement, passes, broken, problems, Schema}
use authnd.Roster.{Fold}
use authnd.Server.{Site, GroupFacts, GroupSnapshot, Snapshot}
use authnd.Entries.{LeftOff, Entry, Tree, validate, placed_and_validated}
use authnd.Entries.Built.{person_entry, group_entry_from, group_found, entry_of_group}
use authnd.Entries.Publication.{
  rebuilt, rebuilt_without, with_left, held, built_person, built_people, built_group, built_groups,
  and_entry, both, build, sorted_of,
}
use authnd.Declared.Unmet.{left_by, classes_of, unmet, unmet_of}

-- It holds of what is there.
abbrev pub Holds : {A : Type 0} → (A → Type 0) → Option A → Type 0
Holds P none = Unit
Holds P (some a) = P a

pub Holds-found :
    {A : Type 0} (P : A → Type 0) (o : Option A) (a : A) → Holds P o → o ≡ some a → P a
Holds-found P none a h e = cc
Holds-found P (some b) a h e = subst P (cc (e)) h

All-append : {A : Type 0} (P : A → Type 0) (xs ys : List A) → All P xs → All P ys → All P (xs ++ ys)
All-append P [] ys p q = q
All-append P (x ∷ xs) ys (p, ps) q = (p, All-append P xs ys ps q)

module _ (P : Entry → Type 0)
    (with_left-P : (off : List LeftOff) (e : Entry) → P e → P (with_left off e)) where
  rebuilt_without-P :
      (again : List Text → Option Entry) (e : Entry) (off : List LeftOff) (skip : List Text)
      → Holds P (again skip)
      → P e
      → Holds P (rebuilt_without again e off skip)
  unfolding rebuilt_without
  rebuilt_without-P again e [] skip a h = h
  rebuilt_without-P again e (o ∷ os) skip a h = again_P (again skip) a
    where
      again_P :
          (r : Option Entry)
          → Holds P r
          → Holds P (elim r [ none ↦ none | some e' ↦ some (with_left (o ∷ os) e') ])
      again_P none k = tt
      again_P (some e') k = with_left-P (o ∷ os) e' k

  unmet_of-P :
      (u : Casing) (s : Schema) (again : List Text → Option Entry) (e : Entry) (j : Judgement)
      → ((skip : List Text) → Holds P (again skip))
      → P e
      → Holds P (rebuilt again (unmet_of u s (e, j)))
  unfolding unmet_of rebuilt
  unmet_of-P u s again e passes a h = rebuilt_without-P again e [] [] (a []) h
  unmet_of-P u s again e broken a h = rebuilt_without-P again e [] [] (a []) h
  unmet_of-P u s again e (problems ps) a h = at_classes (classes_of s e.declared)
    where
      at_classes :
          (o : Option (List Class))
          → Holds P (
              rebuilt again
                (elim o [ none ↦ none | some cs ↦ some (e, left_by u s e.shape cs ps) ]))
      at_classes none = tt
      at_classes (some cs) =
          let l = left_by u s e.shape cs ps in rebuilt_without-P again e l.off l.skip (a l.skip) h

  module _ (u : Casing) (fold : Fold) (s : Schema) (tree : Option Tree) (table : Map Class)
      (site : Site) (validate-P : (e : Entry) → P e → P (validate s e).0) (Q : Entry → Type 0)
      (held-P : (e : Entry) → P e → Q (placed_and_validated s tree e)) where
    rebuilt-P :
        (again : List Text → Option Entry) (e : Entry)
        → ((skip : List Text) → Holds P (again skip))
        → P e
        → Holds Q (held u fold s tree table site (rebuilt again (unmet u s e)))
    unfolding unmet held
    rebuilt-P again e a h =
        let v = validate s e in
        hold (rebuilt again (unmet_of u s v)) (unmet_of-P u s again v.0 v.1 a (validate-P e h))
      where
        hold : (o : Option Entry) → Holds P o → Holds Q (held u fold s tree table site o)
        hold none k = tt
        hold (some e') k = held-P e' k

    -- Of a person's entry.
    pub built_person-Holds :
        (id : Identity)
        → ((skip : List Text) → P (person_entry u fold s table site id skip))
        → Holds Q (built_person u fold s tree table site id)
    unfolding built_person
    built_person-Holds id p =
        rebuilt-P (λ skip. some (person_entry u fold s table site id skip))
          (person_entry u fold s table site id []) p (p [])

    found-Holds :
        (name : Text) (skip : List Text) (o : Option GroupFacts)
        → ((g : GroupFacts) → o ≡ some g → P (entry_of_group u fold s table site name skip g))
        → Holds P (group_found u fold s table site name skip o)
    unfolding group_found
    found-Holds name skip none p = tt
    found-Holds name skip (some g) p = elim (Bool-cases g.missing) [
      | inl gone ↦ rw gone tt
      | inr there ↦ rw there (p g refl)
    ]

    -- Of a group's entry.
    pub built_group-Holds :
        (g : GroupSnapshot) (name : Text) (facts : GroupFacts)
        → get name g.by ≡ some facts
        → ((skip : List Text) → P (entry_of_group u fold s table site name skip facts))
        → Holds Q (
            built_group u fold s tree table site g name
              (entry_of_group u fold s table site name [] facts))
    unfolding built_group group_entry_from
    built_group-Holds g name facts found p =
        rebuilt-P (group_entry_from u fold s table site g name)
          (entry_of_group u fold s table site name [] facts)
          (λ skip. found-Holds name skip (get name g.by) (λ f e.
            let same : facts ≡ f = cc (e, found) in
            subst (λ x. P (entry_of_group u fold s table site name skip x)) same (p skip)))
          (p [])

    and_entry-All :
        (o : Option Entry) (r : Option (List Entry))
        → Holds Q o
        → Holds (All Q) r
        → Holds (All Q) (and_entry o r)
    unfolding and_entry
    and_entry-All none r p q = tt
    and_entry-All (some e) none p q = tt
    and_entry-All (some e) (some es) p q = (p, q)

    people-All :
        (ids : List Identity)
        → ((id : Identity) (skip : List Text) → P (person_entry u fold s table site id skip))
        → Holds (All Q) (built_people u fold s tree table site ids)
    unfolding built_people
    people-All [] p = tt
    people-All (id ∷ ids) p =
        and_entry-All (built_person u fold s tree table site id)
          (built_people u fold s tree table site ids) (built_person-Holds id (p id))
          (people-All ids p)

    group-All :
        (g : GroupSnapshot) (name : Text) (o : Option GroupFacts) (r : Option (List Entry))
        → ((name : Text) (facts : GroupFacts) (skip : List Text)
            → P (entry_of_group u fold s table site name skip facts))
        → get name g.by ≡ o
        → Holds (All Q) r
        → Holds (All Q) (elim (group_found u fold s table site name [] o) [
          | none ↦ r
          | some e ↦ and_entry (built_group u fold s tree table site g name e) r
        ])
    unfolding group_found
    group-All g name none r p f h = h
    group-All g name (some facts) r p f h = elim (Bool-cases facts.missing) [
      | inl gone ↦ rw gone h
      | inr there ↦ rw there (
          and_entry-All
            (built_group u fold s tree table site g name
              (entry_of_group u fold s table site name [] facts))
            r (built_group-Holds g name facts f (p name facts)) h)
    ]

    groups-All :
        (g : GroupSnapshot) (names : List Text)
        → ((name : Text) (facts : GroupFacts) (skip : List Text)
            → P (entry_of_group u fold s table site name skip facts))
        → Holds (All Q) (built_groups u fold s tree table site g names)
    unfolding built_groups group_entry_from
    groups-All g [] p = tt
    groups-All g (name ∷ names) p =
        group-All g name (get name g.by) (built_groups u fold s tree table site g names) p refl
          (groups-All g names p)

    both-All :
        (o r : Option (List Entry)) → Holds (All Q) o → Holds (All Q) r → Holds (All Q) (both o r)
    unfolding both
    both-All none r p q = tt
    both-All (some es) none p q = tt
    both-All (some es) (some fs) p q = All-append Q es fs p q

    -- Of every entry of a publication.
    pub build-All :
        (sn : Snapshot)
        → ((id : Identity) (skip : List Text) → P (person_entry u fold s table site id skip))
        → ((name : Text) (facts : GroupFacts) (skip : List Text)
            → P (entry_of_group u fold s table site name skip facts))
        → Holds (All Q) (build u fold s tree table site sn)
    unfolding build
    build-All sn p g =
        both-All (built_people u fold s tree table site (sorted_of sn.people))
          (built_groups u fold s tree table site sn.groups sn.groups.names)
          (people-All (sorted_of sn.people) p) (groups-All sn.groups sn.groups.names g)
