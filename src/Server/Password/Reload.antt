-- ===== src/Server/Password/Reload.antt =====
-- server.go, `reloadLocal`: the people that it leaves, those of the file and the others.
use authnd.Base.{
  if◌then◌else◌, Bool-cases, is_some, any, Text, text_eq_iff, Casing, text_eq, Map, get, ◌+◌, ◌≡◌,
  refl, ap, ◌∙◌, inl, inr, Bool, ◌||◌, Option, none, some, List, [], ◌∷◌, ◌++◌, arith,
}
use authnd.Directory.{Identity}
use authnd.Roster.{Fold, Roster, Indexed, ok, new_roster, names_of}
use authnd.Roster.Lookup.{last_named, last_named-append, IsIndexed, new_roster-get}
use authnd.Server.{Site, State, who}
use authnd.Server.Password.{others, names, swap, reload_local}

abbrev pub or_else : Option Identity → Option Identity → Option Identity
or_else none d = d
or_else (some x) d = some x

last_named-owned :
    (n : Text) (d : Option Identity) (ids : List Identity)
    → last_named n d ids ≡ or_else (last_named n none ids) d
unfolding last_named
last_named-owned n d [] = refl
last_named-owned n d (id ∷ ids) = elim (Bool-cases (text_eq id.name n)) [
  | inl e ↦ rw e (ground (arith, last_named-owned n (some id) ids))
  | inr e ↦ rw e (last_named-owned n d ids)
]

-- Whether somebody of the list has the name.
owned-last_named :
    (n : Text) (ids : List Identity) → any (text_eq n) (names ids) ≡ is_some (last_named n none ids)
unfolding last_named names
owned-last_named n [] = refl
owned-last_named n (id ∷ ids) = ground (
  arith,
  owned-last_named n ids,
  last_named-owned n (some id) ids,
  text_eq_iff id.name n,
  text_eq_iff n id.name,
)

-- Of the others, each keeps their entry, unless the file owns the name or held it before.
last_named-others :
    (owned local : List Text) (n : Text) (d : Option Identity) (m : Map Identity)
    → IsIndexed m
    → last_named n d (others owned local m)
      ≡ (if any (text_eq n) owned || any (text_eq n) local then d else or_else (get n m) d)
unfolding last_named others get
last_named-others owned local n d [] h = ground arith
last_named-others owned local n d ((k, id) ∷ m) (named, fresh, h) =
    elim (Bool-cases (any (text_eq k) owned || any (text_eq k) local)) [
      | inl held ↦ elim (Bool-cases (text_eq k n)) [
        | inl e ↦
            let kn : k ≡ n = (text_eq_iff k n).0 e in
            let heldn = ap (λ x. any (text_eq x) owned || any (text_eq x) local) kn in
            rw held (ground (arith, heldn, held, last_named-others owned local n d m h))
        | inr e ↦ rw held (ground (arith, last_named-others owned local n d m h))
      ]
      | inr free ↦ elim (Bool-cases (text_eq k n)) [
        | inl e ↦
            let kn : k ≡ n = (text_eq_iff k n).0 e in
            let freen = ap (λ x. any (text_eq x) owned || any (text_eq x) local) kn in
            let gone = ap (λ x. get x m) kn in
            rw free (
              ground (
                arith,
                freen,
                free,
                gone,
                text_eq_iff id.name n,
                last_named-others owned local n (some id) m h,
              ))
        | inr e ↦ rw free (
            ground (
              arith,
              text_eq_iff id.name n,
              text_eq_iff k n,
              last_named-others owned local n d m h,
            ))
      ]
    ]

lookup_reloaded :
    (fresh : List Identity) (local : List Text) (m : Map Identity) (n : Text)
    → IsIndexed m
    → last_named n none (fresh ++ others (names fresh) local m)
      ≡ or_else (last_named n none fresh) (if any (text_eq n) local then none else get n m)
lookup_reloaded fresh local m n indexed =
    last_named-append n none fresh (others (names fresh) local m)
    ∙ (last_named-others (names fresh) local n (last_named n none fresh) m indexed
        ∙ ground (arith, owned-last_named n fresh))

-- What `reloadLocal` leaves.
pub record IsReload {C : Type 0} (fresh : List Identity) (st st' : State C) : Type 0 where
  pub people :
      (n : Text)
      → get n (who st')
        ≡ or_else
            (last_named n none fresh)
            (if any (text_eq n) st.snap.people.local then none else get n (who st))
  pub file_names : st'.snap.people.local ≡ names_of fresh
  pub groups : st'.snap.groups ≡ st.snap.groups
  pub built : st'.snap.built ≡ st.snap.built
  pub source : st'.local ≡ fresh
  pub counted : st'.gen ≡ st.gen + 1
  pub indexed : IsIndexed (who st')

module _ {C : Type 0} (u : Casing) (fold : Fold) (equal_dn : Text → Text → Bool) (site : Site) where
  swap_inv :
      (fresh : List Identity) (i : Indexed) (st st' : State C)
      → swap u fold equal_dn site fresh i st ≡ some st'
      → (r : Roster) × (i ≡ ok r)
        × (st'
            ≡ record st { snap = record st.snap { people = r }; local = fresh; gen = st.gen + 1 })
  unfolding swap
  swap_inv fresh (Indexed.clash a b) st st' h = cc
  swap_inv fresh (ok r) st st' h = (r, refl, ground arith)

  -- A reload that succeeds serves the file's people under their names, and of the others those
  -- whose name the file neither holds now nor held before: somebody taken out of the file is gone.
  -- The groups and the time of the last read stay, the KDC's source is the same people, and the
  -- generation goes up by one.
  pub reload_local-IsReload :
      (fresh : List Identity) (st st' : State C)
      → IsIndexed (who st)
      → reload_local u fold equal_dn site fresh st ≡ some st'
      → IsReload fresh st st'
  unfolding reload_local
  reload_local-IsReload fresh st st' indexed h =
      let all_of = fresh ++ others (names fresh) st.snap.people.local (who st) in
      let (r, e, same) = swap_inv fresh (new_roster fold all_of fresh) st st' h in
      let (looked, unique, local) = new_roster-get fold all_of fresh r e in
      rw same (record {
        people = λ n. looked n ∙ lookup_reloaded fresh st.snap.people.local (who st) n indexed;
        file_names = local;
        groups = refl;
        built = refl;
        source = refl;
        counted = refl;
        indexed = unique;
      })

  -- The generation goes up by one, whatever the roster was.
  pub reload_local-gen :
      (fresh : List Identity) (st st' : State C)
      → reload_local u fold equal_dn site fresh st ≡ some st'
      → st'.gen ≡ st.gen + 1
  unfolding reload_local
  reload_local-gen fresh st st' h =
      let all_of = fresh ++ others (names fresh) st.snap.people.local (who st) in
      let (r, e, same) = swap_inv fresh (new_roster fold all_of fresh) st st' h in
      ap (λ (x : State C). x.gen) same
