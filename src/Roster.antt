-- ===== src/Roster.antt =====
-- roster.go: everybody the server answers for, by name.
pub mod Unclashing
pub mod Lookup
pub mod Folding
pub mod Tests
use authnd.Base.{
  ltb, ◌==◌, if◌then◌else◌, Text, text_eq, Map, get, put, ℕ, zero, suc, Bool, false, not, Option,
  none, some, List, [], ◌∷◌, map,
}
use authnd.Directory.{Identity}

-- unicode.SimpleFold: the next rune of the same simple case-folding orbit. Every orbit of the
-- Unicode tables has at most four runes.
abbrev pub Fold : Type 0
Fold = ℕ → ℕ

-- The loop of foldName over one orbit, for the rune `r`; four rounds are the longest orbit.
least_from : Fold → ℕ → ℕ → ℕ → ℕ → ℕ
least_from fold zero r f least = least
least_from fold (suc rounds) r f least =
    let rest = least_from fold rounds r (fold f) (if ltb f least then f else least) in
    if f == r then least else rest

unfoldable pub least_in_orbit : Fold → ℕ → ℕ
unfolding least_from
least_in_orbit fold r = least_from fold 4 r (fold r) r

-- foldName
unfoldable pub fold_name : Fold → Text → Text
fold_name fold name = map (least_in_orbit fold) name

-- strings.EqualFold, which compares runes up to their orbits.
unfoldable pub equal_fold : Fold → Text → Text → Bool
equal_fold fold s t = text_eq (fold_name fold s) (fold_name fold t)

pub record Roster : Type 0 where
  pub by_name : Map Identity
  -- the names that the configuration file's own user blocks hold
  pub local : List Text

pub data Indexed : Type 0 where
  ok : Roster → Indexed
  clash : Identity → Identity → Indexed

unfoldable pub names_of : List Identity → List Text
names_of ids = map (λ id. id.name) ids

-- Whether the name already there for this key is another one.
unfoldable pub clashes : Option Identity → Identity → Bool
clashes none id = false
clashes (some other) id = not (text_eq other.name id.name)

abbrev other_or : Option Identity → Identity → Identity
other_or none id = id
other_or (some other) id = other

-- The loop of newRoster, over the folded names and the names so far.
index : Fold → List Text → Map Identity → Map Identity → List Identity → Indexed
index fold local folded by_name [] = ok (record { by_name = by_name; local = local })
index fold local folded by_name (id ∷ ids) =
    let key = fold_name fold id.name in
    let rest = index fold local (put key id folded) (put id.name id by_name) ids in
    if clashes (get key folded) id then clash (other_or (get key folded) id) id else rest

-- newRoster
unfoldable pub new_roster : Fold → List Identity → List Identity → Indexed
unfolding index
new_roster fold ids local = index fold (names_of local) [] [] ids
