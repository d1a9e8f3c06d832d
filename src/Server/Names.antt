-- ===== src/Server/Names.antt =====
-- server.go: `dnOf` and `nameOf`.
use mathlib.Core.Path.{subst}
use authnd.Base.{
  if◌then◌else◌, Text, codes, is_empty, Casing, to_lower, Free, cut-append, has_suffix-append, cut,
  cut_prefix, has_suffix, ℕ, ◌≡◌, refl, sym, ◌≢◌, true, Option, none, some, [], ◌∷◌, ◌++◌,
  append_assoc, map-append, arith,
}

abbrev pub uid_is : Text
uid_is = codes "uid="

-- dnOf
unfoldable pub dn_of : Text → Text → Text
dn_of people_dn name = uid_is ++ (name ++ b',' ∷ people_dn)

-- strings.SplitN(s, sep, 2)[0]
abbrev pub first_part : ℕ → Text → Text
first_part sep s = elim (cut sep s) [ none ↦ s | some (a, b) ↦ a ]

-- strings.SplitN(first, "=", 2)[1]; with no "=" there is no such part.
value_of : Text → Option Text
value_of first = elim (cut b'=' first) [ none ↦ none | some (a, b) ↦ some b ]

-- The name in the first RDN, in the case that the client wrote.
name_in : Casing → Text → Option Text
unfolding value_of
name_in u first = elim (cut_prefix uid_is (to_lower u first)) [
  | none ↦ none
  | some name ↦ if is_empty name then none else value_of first
]

-- nameOf
unfoldable pub name_of : Casing → Text → Text → Option Text
unfolding name_in
name_of u people_dn dn =
    if has_suffix (to_lower u dn) (b',' ∷ to_lower u people_dn)
    then name_in u (first_part b',' dn)
    else none

uid_prefix :
    (u : Casing) (s : Text) → cut_prefix uid_is (to_lower u (uid_is ++ s)) ≡ some (to_lower u s)
unfolding cut_prefix
uid_prefix u s =
    ground (arith, u.lower_ascii 117, u.lower_ascii 105, u.lower_ascii 100, u.lower_ascii 61)

lower_comma : (u : Casing) → u.lower b',' ≡ b','
lower_comma u = ground (arith, u.lower_ascii 44)

name_in_uid : (u : Casing) (name : Text) → name ≢ [] → name_in u (uid_is ++ name) ≡ some name
unfolding name_in cut
name_in_uid u [] h = absurd (h refl)
name_in_uid u (c ∷ name) h = rw (uid_prefix u (c ∷ name), name_in)

Free-uid : (name : Text) → Free b',' name → Free b',' (uid_is ++ name)
Free-uid name h = (ground arith, (ground arith, (ground arith, (ground arith, h))))

people_suffix :
    (u : Casing) (s people_dn : Text)
    → has_suffix (to_lower u (s ++ b',' ∷ people_dn)) (b',' ∷ to_lower u people_dn) ≡ true
people_suffix u s people_dn =
    rw (map-append, lower_comma u) (has_suffix-append (to_lower u s) (b',' ∷ to_lower u people_dn))

name_of_split :
    (u : Casing) (people_dn name rest s : Text)
    → name ≢ []
    → Free b',' name
    → (uid_is ++ name) ++ b',' ∷ rest ≡ s ++ b',' ∷ people_dn
    → name_of u people_dn ((uid_is ++ name) ++ b',' ∷ rest) ≡ some name
unfolding name_of
name_of_split u people_dn name rest s some_name free e =
    let dn = (uid_is ++ name) ++ b',' ∷ rest in
    let suffix : has_suffix (to_lower u dn) (b',' ∷ to_lower u people_dn) ≡ true =
      subst (λ x. has_suffix (to_lower u x) (b',' ∷ to_lower u people_dn) ≡ true) (sym e)
        (people_suffix u s people_dn) in
    let first : first_part b',' dn ≡ uid_is ++ name =
      ground (arith, cut-append b',' (uid_is ++ name) rest (Free-uid name free)) in
    rw (suffix, first) (name_in_uid u name some_name)

-- A DN that starts with uid=<name> and ends with the people's DN names <name>, whatever stands
-- between the two; the name is not empty and holds no comma.
pub name_of_between :
    (u : Casing) (people_dn name between : Text)
    → name ≢ []
    → Free b',' name
    → name_of u people_dn (uid_is ++ (name ++ b',' ∷ (between ++ b',' ∷ people_dn))) ≡ some name
name_of_between u people_dn name between some_name free =
    name_of_split u people_dn name (between ++ b',' ∷ people_dn)
      ((uid_is ++ name) ++ b',' ∷ between) some_name free
      (sym (append_assoc (uid_is ++ name) (b',' ∷ between) (b',' ∷ people_dn)))

-- A published person is found under their own DN: nameOf undoes dnOf for every name that is not
-- empty and holds no comma.
name_of-dn_of :
    (u : Casing) (people_dn name : Text)
    → name ≢ []
    → Free b',' name
    → name_of u people_dn (dn_of people_dn name) ≡ some name
unfolding dn_of
name_of-dn_of u people_dn name some_name free =
    name_of_split u people_dn name people_dn (uid_is ++ name) some_name free refl
