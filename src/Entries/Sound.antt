-- ===== src/Entries/Sound.antt =====
-- entries.go, `build`: what a publication serves.
use authnd.Base.{
  Option-cases, All, Text, Casing, Map, get, ◌≡◌, refl, ◌⊎◌, inl, inr, Option, none, some, List, [],
  ◌∷◌, arith,
}
use authnd.Directory.{Identity}
use authnd.Schema.{Attribute, Class, Judgement, Schema}
use authnd.Roster.{Fold}
use authnd.Server.{GroupFacts, GroupSnapshot, Site, Snapshot}
use authnd.Entries.{LeftOff, Entry, Tree, remembered, validate, valid}
use authnd.Entries.Built.{person_entry, entry_of_group}
use authnd.Entries.Attributes.{validate-All, placed_and_validated-All}
use authnd.Entries.Published.{IsJudged, IsPublishable, placed_and_validated-IsPublishable}
use authnd.Entries.Publication.{built_group, with_left, built_person, build}
use authnd.Entries.Everywhere.{Holds-found, built_person-Holds, built_group-Holds, build-All}

-- Only an entry that passes is served.
abbrev ServedIsPublishable : Schema → Option Tree → Entry → Type 0
ServedIsPublishable s tree e = e.invalid ≡ none → IsPublishable s tree e

valid-All :
    (s : Schema) (tree : Option Tree) (es : List Entry)
    → All (ServedIsPublishable s tree) es
    → All (IsPublishable s tree) (valid es)
unfolding valid
valid-All s tree [] h = tt
valid-All s tree (e ∷ es) (h, hs) = elim (Option-cases e.invalid) [
  | inl fine ↦ simp (fine) (h fine, valid-All s tree es hs)
  | inr (why, bad) ↦ simp (bad) (valid-All s tree es hs)
]

pub validate-IsJudged : (s : Schema) (e : Entry) → IsJudged s e → IsJudged s (validate s e).0
unfolding validate IsJudged
validate-IsJudged s e h = judged e.judged h refl
  where
    judged :
        (o : Option Judgement)
        → (o ≡ none) ⊎ (o ≡ some (s.judge e.dn e.attributes))
        → (e.judged ≡ o)
        → ((remembered s e o).0.judged ≡ none)
          ⊎ ((remembered s e o).0.judged
              ≡ some (s.judge (remembered s e o).0.dn (remembered s e o).0.attributes))
    judged none k same = inr refl
    judged (some j) k same = ground (arith, k, same)

pub with_left-IsJudged :
    (s : Schema) (off : List LeftOff) (e : Entry) → IsJudged s e → IsJudged s (with_left off e)
unfolding with_left IsJudged
with_left-IsJudged s off e h = h

module _ (u : Casing) (fold : Fold) (s : Schema) (tree : Option Tree) (table : Map Class)
    (site : Site) where
  -- Every entry that a publication serves passes the schema as it is sent, stands where a structure
  -- rule puts it, and fits a message: through the first look for classes to leave off, the second
  -- building, and the dropping of attributes, with Validate's answer remembered on the way.
  pub build-IsPublishable :
      (sn : Snapshot) (es : List Entry)
      → build u fold s tree table site sn ≡ some es
      → All (IsPublishable s tree) (valid es)
  unfolding person_entry entry_of_group IsJudged
  build-IsPublishable sn es h = valid-All s tree es (
      Holds-found (All (ServedIsPublishable s tree)) (build u fold s tree table site sn) es
        (build-All (IsJudged s) (with_left-IsJudged s) u fold s tree table site
          (validate-IsJudged s) (ServedIsPublishable s tree)
          (placed_and_validated-IsPublishable s tree) sn (λ id skip. inl refl)
          (λ name facts skip. inl refl))
        h)

  pub with_left-attributes :
      (R : Attribute → Type 0) (off : List LeftOff) (e : Entry)
      → All R e.attributes
      → All R (with_left off e).attributes
  unfolding with_left
  with_left-attributes R off e h = h

  -- What holds of each attribute of a person's entry as it is built.
  pub built_person-attributes :
      (R : Attribute → Type 0) (id : Identity) (e : Entry)
      → ((skip : List Text) → All R (person_entry u fold s table site id skip).attributes)
      → built_person u fold s tree table site id ≡ some e
      → All R e.attributes
  built_person-attributes R id e p h =
      Holds-found (λ x. All R x.attributes) (built_person u fold s tree table site id) e
        (built_person-Holds (λ x. All R x.attributes) (with_left-attributes R) u fold s tree table
          site (validate-All R s) (λ x. All R x.attributes) (placed_and_validated-All R s tree) id
          p)
        h

  -- The same of a group's.
  pub built_group-attributes :
      (R : Attribute → Type 0) (g : GroupSnapshot) (name : Text) (facts : GroupFacts) (e : Entry)
      → get name g.by ≡ some facts
      → ((skip : List Text) → All R (entry_of_group u fold s table site name skip facts).attributes)
      → built_group u fold s tree table site g name
          (entry_of_group u fold s table site name [] facts)
        ≡ some e
      → All R e.attributes
  built_group-attributes R g name facts e found p h =
      Holds-found (λ x. All R x.attributes)
        (built_group u fold s tree table site g name
          (entry_of_group u fold s table site name [] facts))
        e
        (built_group-Holds (λ x. All R x.attributes) (with_left-attributes R) u fold s tree table
          site (validate-All R s) (λ x. All R x.attributes) (placed_and_validated-All R s tree) g
          name facts found p)
        h
