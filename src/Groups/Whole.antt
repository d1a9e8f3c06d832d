-- ===== src/Groups/Whole.antt =====
-- groups.go, `readGroups`: what is read of the groups.
use authnd.Base.{
  if◌then◌else◌, is_some, any, all, Text, text_eq, get, ◌≡◌, refl, sym, ap, ◌∙◌, Bool, false, not,
  Option, none, some, List, [], ◌∷◌, ◌++◌, arith,
}
use authnd.Directory.{Identity}
use authnd.Server.{GroupSnapshot}
use authnd.Groups.{
  FrozenSet, facts_of, add_group, fill, compact, sort, listed_names, person_names, read_named,
  read_groups,
}
use authnd.Groups.Order.{Ascending, any-compact-sort}

fill-is_some :
    (set : FrozenSet) (l : List Text) → is_some (fill set l) ≡ all (λ n. is_some (facts_of set n)) l
unfolding fill add_group
fill-is_some set [] = refl
fill-is_some set (name ∷ l) = ground (arith, fill-is_some set l)

-- Every name that a listing source or a person gives.
pub named : List Text → List Identity → List Text
named listed people = listed ++ person_names people

pub record IsWhole (set : FrozenSet) (names : List Text) (g : GroupSnapshot) : Type 0 where
  pub ascending : Ascending g.names
  pub complete : (n : Text) → any (text_eq n) g.names ≡ any (text_eq n) names
  pub facts : (n : Text) → get n g.by ≡ (if any (text_eq n) names then facts_of set n else none)

-- Whether all the names that the sources list, if they can, are answered for.
pub answered_for : FrozenSet → List Identity → Option (List Text) → Bool
unfolding named
answered_for set people none = false
answered_for set people (some listed) = all (λ n. is_some (facts_of set n)) (named listed people)

not-any : (p : Text → Bool) (l : List Text) → all p l ≡ not (any (λ n. not (p n)) l)
not-any p [] = refl
not-any p (a ∷ l) = ground (arith, not-any p l)

read_named_told :
    (set : FrozenSet) (people : List Identity) (o : Option (List Text))
    → is_some (read_named set people o) ≡ answered_for set people o
unfolding read_named answered_for
read_named_told set people none = refl
read_named_told set people (some listed) =
    let said = listed ++ person_names people in
    let p : Text → Bool = λ n. is_some (facts_of set n) in
    fill-is_some set (compact (sort said))
    ∙ (not-any p (compact (sort said))
        ∙ (ap not (any-compact-sort (λ n. not (p n)) said) ∙ sym (not-any p said)))

-- The groups are read exactly where every listing source lists and every name that it or a person
-- gives is answered for; one failing answer leaves nothing, never a smaller snapshot.
read_groups_told :
    (set : FrozenSet) (people : List Identity)
    → is_some (read_groups (some set) people) ≡ answered_for set people (listed_names set.sources)
unfolding read_groups answered_for
read_groups_told set people = read_named_told set people (listed_names set.sources)
