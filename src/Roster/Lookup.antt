-- ===== src/Roster/Lookup.antt =====
-- What a roster answers for a name: the last identity of that name.
use mathlib.Core.Path.{subst}
use authnd.Base.{
  if◌then◌else◌, Bool-cases, Text, text_eq_iff, text_eq, Map, get-put, get, put, ◌≡◌, refl, ap, ◌∙◌,
  inl, inr, Option, none, some, List, [], ◌∷◌, ◌++◌, arith,
}
use authnd.Directory.{Identity}
use authnd.Roster.{Fold, fold_name, Roster, ok, index, names_of, new_roster}

-- The last identity of this name, or `d`.
unfoldable pub last_named : Text → Option Identity → List Identity → Option Identity
last_named n d [] = d
last_named n d (id ∷ ids) = last_named n (if text_eq id.name n then some id else d) ids

pub last_named-append :
    (n : Text) (d : Option Identity) (xs ys : List Identity)
    → last_named n d (xs ++ ys) ≡ last_named n (last_named n d xs) ys
unfolding last_named
last_named-append n d [] ys = refl
last_named-append n d (id ∷ xs) ys =
    last_named-append n (if text_eq id.name n then some id else d) xs ys

-- Each entry is under its own name, and no name has two.
abbrev pub IsIndexed : Map Identity → Type 0
IsIndexed [] = Unit
IsIndexed ((k, id) ∷ m) = (id.name ≡ k) × (get k m ≡ none) × IsIndexed m

put-IsIndexed : (id : Identity) (m : Map Identity) → IsIndexed m → IsIndexed (put id.name id m)
unfolding put get
put-IsIndexed id [] h = (refl, refl, tt)
put-IsIndexed id ((k, x) ∷ m) (named, fresh, h) = elim (Bool-cases (text_eq k id.name)) [
  | inl e ↦ rw e (refl, ground (arith, text_eq_iff k id.name), h)
  | inr e ↦ rw e (
    named,
    ground (arith, get-put id.name k id m, text_eq_iff k id.name, text_eq_iff id.name k),
    put-IsIndexed id m h,
  )
]

module _ (fold : Fold) (local : List Text) where
  index-get :
      (folded by_name : Map Identity) (ids : List Identity) (r : Roster) (n : Text)
      → index fold local folded by_name ids ≡ ok r
      → get n r.by_name ≡ last_named n (get n by_name) ids
  unfolding index last_named
  index-get folded by_name [] r n h = ground arith
  index-get folded by_name (id ∷ ids) r n h =
      index-get (put (fold_name fold id.name) id folded) (put id.name id by_name) ids r n
        (ground arith)
      ∙ ap (λ d. last_named n d ids) (get-put id.name n id by_name)

  index-IsIndexed :
      (folded by_name : Map Identity) (ids : List Identity) (r : Roster)
      → IsIndexed by_name
      → index fold local folded by_name ids ≡ ok r
      → IsIndexed r.by_name
  unfolding index
  index-IsIndexed folded by_name [] r k h =
      let e : by_name ≡ r.by_name = ground arith in subst IsIndexed e k
  index-IsIndexed folded by_name (id ∷ ids) r k h =
      index-IsIndexed (put (fold_name fold id.name) id folded) (put id.name id by_name) ids r
        (put-IsIndexed id by_name k) (ground arith)

  index-local :
      (folded by_name : Map Identity) (ids : List Identity) (r : Roster)
      → index fold local folded by_name ids ≡ ok r
      → r.local ≡ local
  unfolding index
  index-local folded by_name [] r h = ground arith
  index-local folded by_name (id ∷ ids) r h =
      index-local (put (fold_name fold id.name) id folded) (put id.name id by_name) ids r
        (ground arith)

-- A roster that is accepted answers for a name with the last identity of that name, holds one
-- entry for each name, and remembers the names of the local people.
pub new_roster-get :
    (fold : Fold) (ids local : List Identity) (r : Roster)
    → new_roster fold ids local ≡ ok r
    → ((n : Text) → get n r.by_name ≡ last_named n none ids)
      × IsIndexed r.by_name
      × (r.local ≡ names_of local)
unfolding new_roster get
new_roster-get fold ids local r h = (
  λ n. index-get fold (names_of local) [] [] ids r n h,
  index-IsIndexed fold (names_of local) [] [] ids r tt h,
  index-local fold (names_of local) [] [] ids r h,
)
