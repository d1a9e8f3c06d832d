-- ===== src/Roster/Unclashing.antt =====
-- What newRoster accepts, and what it indexes.
use authnd.Base.{
  Bool-cases, Option-cases, all, All, Text, text_eq_refl, text_eq_iff, text_eq, Map, get-put, get,
  put, ◌≡◌, refl, sym, ap, ◌∙◌, ◌≢◌, inl, inr, true, false, Option, none, some, List, [], ◌∷◌,
  arith,
}
use authnd.Directory.{Identity}
use authnd.Roster.{
  Fold, fold_name, Roster, ok, clash, clashes, index, names_of, new_roster, other_or,
}

-- Names that an LDAP comparison does not tell apart are the same name.
abbrev pub Agree : Fold → Identity → Identity → Type 0
Agree fold a b = fold_name fold a.name ≡ fold_name fold b.name → a.name ≡ b.name

abbrev pub AllAgree : Fold → List Identity → Type 0
AllAgree fold ids = All (λ a. All (λ b. Agree fold a b) ids) ids

-- Each identity of `seen` has its key in `folded`, with its own name.
abbrev Noted : Fold → Map Identity → Identity → Type 0
Noted fold folded a =
    (o : Identity) × (get (fold_name fold a.name) folded ≡ some o) × (o.name ≡ a.name)

Noted-put :
    (fold : Fold) (folded : Map Identity) (id a : Identity)
    → clashes (get (fold_name fold id.name) folded) id ≡ false
    → Noted fold folded a
    → Noted fold (put (fold_name fold id.name) id folded) a
unfolding clashes
Noted-put fold folded id a free (o, found, same) =
    elim (Bool-cases (text_eq (fold_name fold id.name) (fold_name fold a.name))) [
      | inl e ↦ (
        id,
        ground (arith, get-put (fold_name fold id.name) (fold_name fold a.name) id folded),
        ground (
          arith,
          text_eq_iff (fold_name fold id.name) (fold_name fold a.name),
          text_eq_iff o.name id.name,
        ),
      )
      | inr e ↦ (
        o,
        ground (arith, get-put (fold_name fold id.name) (fold_name fold a.name) id folded),
        same,
      )
    ]

Noted-self :
    (fold : Fold) (folded : Map Identity) (id : Identity)
    → Noted fold (put (fold_name fold id.name) id folded) id
Noted-self fold folded id = (
  id,
  ground (
    arith,
    get-put (fold_name fold id.name) (fold_name fold id.name) id folded,
    text_eq_refl (fold_name fold id.name),
  ),
  refl,
)

All-map-Noted :
    (fold : Fold) (folded : Map Identity) (id : Identity) (seen : List Identity)
    → clashes (get (fold_name fold id.name) folded) id ≡ false
    → All (Noted fold folded) seen
    → All (Noted fold (put (fold_name fold id.name) id folded)) seen
All-map-Noted fold folded id [] free h = tt
All-map-Noted fold folded id (a ∷ seen) free h =
    (Noted-put fold folded id a free h.0, All-map-Noted fold folded id seen free h.1)

-- What the loop leaves noted: all that was, and every identity that it went over.
index-Noted :
    (fold : Fold) (local : List Text) (folded by_name : Map Identity) (ids : List Identity)
    (r : Roster)
    → index fold local folded by_name ids ≡ ok r
    → (final : Map Identity) × ((a : Identity) → Noted fold folded a → Noted fold final a)
      × All (Noted fold final) ids
unfolding index
index-Noted fold local folded by_name [] r h = (folded, λ a n. n, tt)
index-Noted fold local folded by_name (id ∷ ids) r h =
    let key = fold_name fold id.name in
    let free : clashes (get key folded) id ≡ false = ground arith in
    let (final, kept, noted) =
      index-Noted fold local (put key id folded) (put id.name id by_name) ids r (ground arith) in
    (
      final,
      λ a n. kept a (Noted-put fold folded id a free n),
      (kept id (Noted-self fold folded id), noted),
    )

Agree-Noted :
    (fold : Fold) (final : Map Identity) (a b : Identity)
    → Noted fold final a
    → Noted fold final b
    → Agree fold a b
Agree-Noted fold final a b (o, p, e) (q, s, f) same =
    let both : some o ≡ some q = sym p ∙ (ap (λ k. get k final) same ∙ s) in
    sym e ∙ (ap (λ (x : Option Identity). name_or a.name x) both ∙ f)
  where
    name_or : Text → Option Identity → Text
    name_or d none = d
    name_or d (some x) = x.name

Agree-each :
    (fold : Fold) (final : Map Identity) (a : Identity) (ids : List Identity)
    → Noted fold final a
    → All (Noted fold final) ids
    → All (λ b. Agree fold a b) ids
Agree-each fold final a [] n h = tt
Agree-each fold final a (b ∷ ids) n h =
    (Agree-Noted fold final a b n h.0, Agree-each fold final a ids n h.1)

AllAgree-Noted :
    (fold : Fold) (final : Map Identity) (ids all : List Identity)
    → All (Noted fold final) ids
    → All (Noted fold final) all
    → All (λ a. All (λ b. Agree fold a b) all) ids
AllAgree-Noted fold final [] all h k = tt
AllAgree-Noted fold final (a ∷ ids) all h k =
    (Agree-each fold final a all h.0 k, AllAgree-Noted fold final ids all h.1 k)

-- Every entry is under its own name.
abbrev pub IsKeyed : Map Identity → Type 0
IsKeyed m = (n : Text) (id : Identity) → get n m ≡ some id → id.name ≡ n

IsKeyed-put : (id : Identity) (m : Map Identity) → IsKeyed m → IsKeyed (put id.name id m)
IsKeyed-put id m h n x e = ground (arith, get-put id.name n id m, text_eq_iff id.name n, h n x)

index-IsKeyed :
    (fold : Fold) (local : List Text) (folded by_name : Map Identity) (ids : List Identity)
    (r : Roster)
    → IsKeyed by_name
    → index fold local folded by_name ids ≡ ok r
    → IsKeyed r.by_name
unfolding index
index-IsKeyed fold local folded by_name [] r k h = λ n id e. k n id (ground arith)
index-IsKeyed fold local folded by_name (id ∷ ids) r k h =
    index-IsKeyed fold local (put (fold_name fold id.name) id folded) (put id.name id by_name) ids r
      (IsKeyed-put id by_name k) (ground arith)

-- Whatever the case folding, a roster that is accepted holds no two people whose names fold to the
-- same name and differ, and it holds each person under that person's own name.
pub new_roster_unclashing :
    (fold : Fold) (ids local : List Identity) (r : Roster)
    → new_roster fold ids local ≡ ok r
    → AllAgree fold ids × IsKeyed r.by_name
unfolding new_roster get
new_roster_unclashing fold ids local r h =
    let (final, kept, noted) = index-Noted fold (names_of local) [] [] ids r h in
    (
      AllAgree-Noted fold final ids ids noted noted,
      index-IsKeyed fold (names_of local) [] [] ids r (λ n id e. cc) h,
    )

-- The keys of `folded` are the folded names of what they hold.
abbrev FoldKeyed : Fold → Map Identity → Type 0
FoldKeyed fold m = (k : Text) (id : Identity) → get k m ≡ some id → fold_name fold id.name ≡ k

FoldKeyed-put :
    (fold : Fold) (id : Identity) (m : Map Identity)
    → FoldKeyed fold m
    → FoldKeyed fold (put (fold_name fold id.name) id m)
FoldKeyed-put fold id m h k x e =
    ground (
      arith,
      get-put (fold_name fold id.name) k id m,
      text_eq_iff (fold_name fold id.name) k,
      h k x,
    )

clash_genuine :
    (fold : Fold) (folded : Map Identity) (id : Identity)
    → FoldKeyed fold folded
    → clashes (get (fold_name fold id.name) folded) id ≡ true
    → (fold_name fold (other_or (get (fold_name fold id.name) folded) id).name
        ≡ fold_name fold id.name)
      × ((other_or (get (fold_name fold id.name) folded) id).name ≢ id.name)
unfolding clashes
clash_genuine fold folded id k h = elim (Option-cases (get (fold_name fold id.name) folded)) [
  | inl e ↦ absurd (ground arith)
  | inr (o, e) ↦
      rw e (k (fold_name fold id.name) o e, λ p. ground (arith, text_eq_iff o.name id.name))
]

index-clash :
    (fold : Fold) (local : List Text) (folded by_name : Map Identity) (ids : List Identity)
    (a b : Identity)
    → FoldKeyed fold folded
    → index fold local folded by_name ids ≡ clash a b
    → (fold_name fold a.name ≡ fold_name fold b.name) × (a.name ≢ b.name)
unfolding index
index-clash fold local folded by_name [] a b k h = cc
index-clash fold local folded by_name (id ∷ ids) a b k h =
    elim (Bool-cases (clashes (get (fold_name fold id.name) folded) id)) [
      | inl bad ↦
          let x : other_or (get (fold_name fold id.name) folded) id ≡ a = ground arith in
          let y : id ≡ b = ground arith in rw (← x, ← y) (clash_genuine fold folded id k bad)
      | inr fine ↦
          index-clash fold local (put (fold_name fold id.name) id folded) (put id.name id by_name)
            ids a b (FoldKeyed-put fold id folded k) (ground arith)
    ]

-- The two people that a refused roster names have names that fold to the same name and differ.
new_roster_clash :
    (fold : Fold) (ids local : List Identity) (a b : Identity)
    → new_roster fold ids local ≡ clash a b
    → (fold_name fold a.name ≡ fold_name fold b.name) × (a.name ≢ b.name)
unfolding new_roster get
new_roster_clash fold ids local a b h =
    index-clash fold (names_of local) [] [] ids a b (λ k id e. cc) h
