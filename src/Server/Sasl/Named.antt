-- ===== src/Server/Sasl/Named.antt =====
-- The person of the name that a token gives.
use authnd.Base.{
  Bool-cases, Option-cases, Text, Map, get, ◌≡◌, sym, ap, ◌∙◌, ◌⊎◌, inl, inr, true, none, some, [],
  ◌∷◌, arith,
}
use authnd.Directory.{Identity}
use authnd.Server.Sasl.{Oidc, find_person, first_folded}

-- The map holds this person under this name.
pub InMap : Text → Identity → Map Identity → Type 0
InMap n id [] = ⊥
InMap n id ((k, x) ∷ m) = ((k ≡ n) × (x ≡ id)) ⊎ InMap n id m

-- A person is found under the name itself, or under one that differs from it by ASCII case.
pub IsNamed : Oidc → Map Identity → Text → Text → Identity → Type 0
IsNamed oidc people name n id =
    ((n ≡ name) × (get name people ≡ some id))
    ⊎ ((get name people ≡ none) × (oidc.equal_ascii_fold n name ≡ true) × InMap n id people)

first_folded-found :
    (oidc : Oidc) (name n : Text) (id : Identity) (m : Map Identity)
    → first_folded oidc name m ≡ some (n, id)
    → (oidc.equal_ascii_fold n name ≡ true) × InMap n id m
unfolding first_folded InMap
first_folded-found oidc name n id [] h = absurd (ground arith)
first_folded-found oidc name n id ((k, x) ∷ m) h =
    elim (Bool-cases (oidc.equal_ascii_fold k name)) [
      | inl e ↦
          let kn : k ≡ n = ground (arith, h, e) in
          let xi : x ≡ id = ground (arith, h, e) in
          (ap (λ t. oidc.equal_ascii_fold t name) (sym kn) ∙ e, inl (kn, xi))
      | inr e ↦ let r = first_folded-found oidc name n id m (ground (arith, h, e)) in (r.0, inr r.1)
    ]

pub find_person-IsNamed :
    (oidc : Oidc) (name n : Text) (id : Identity) (m : Map Identity)
    → find_person oidc name m ≡ some (n, id)
    → IsNamed oidc m name n id
unfolding find_person IsNamed
find_person-IsNamed oidc name n id m h = elim (Option-cases (get name m)) [
  | inl e ↦ let f = first_folded-found oidc name n id m (ground (arith, h, e)) in inr (e, f.0, f.1)
  | inr (x, e) ↦ inl (ground (arith, h, e), ground (arith, h, e))
]
