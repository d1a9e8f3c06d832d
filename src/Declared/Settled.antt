-- ===== src/Declared/Settled.antt =====
-- declared.go, `checkDeclared`: what becomes of each declared name.
use authnd.Base.{
  Option-cases, is_some, All, Text, text_eq_refl, Casing, to_lower, get-put, get, ◌≡◌, refl, ◌⊎◌,
  inl, inr, true, List, [], ◌∷◌, arith,
}
use authnd.Config.{Config}
use authnd.Schema.{Schema}
use authnd.Roster.{Fold}
use authnd.Declared.{
  Declaration, declarations, Refusal, Declarable, can, cannot, declarable, Held, hold, hold_names,
  hold_all, check_declared,
}
use authnd.Declared.Checked.{all_refused, IsSettled, Sound, hold_all-refusals, hold_all-Sound}

module _ (u : Casing) (fold : Fold) (s : Schema) where
  -- A key that has a class keeps one.
  abbrev HasClass : Text → Held → Type 0
  HasClass k h = is_some (get k h.declared) ≡ true

  hold-keeps :
      (d : Declaration) (n : Text) (o : Declarable) (h : Held) (k : Text)
      → HasClass k h
      → HasClass k (hold u d n o h)
  unfolding hold
  hold-keeps d n (cannot r) h k e = e
  hold-keeps d n (can c) h k e = ground (arith, get-put (to_lower u n) k c h.declared, e)

  hold_names-keeps :
      (d : Declaration) (ns : List Text) (h : Held) (k : Text)
      → HasClass k h
      → HasClass k (hold_names u fold s d ns h)
  unfolding hold_names
  hold_names-keeps d [] h k e = e
  hold_names-keeps d (n ∷ ns) h k e =
      hold_names-keeps d ns (hold u d n (declarable fold s n) h) k
        (hold-keeps d n (declarable fold s n) h k e)

  hold_all-keeps :
      (ds : List Declaration) (h : Held) (k : Text)
      → HasClass k h
      → HasClass k (hold_all u fold s ds h)
  unfolding hold_all
  hold_all-keeps [] h k e = e
  hold_all-keeps (d ∷ ds) h k e =
      hold_all-keeps ds (hold_names u fold s d d.names h) k (hold_names-keeps d d.names h k e)

  -- A name is refused, or its key has a class.
  abbrev IsMet : Held → Text → Type 0
  IsMet h n = ((r : Refusal) × (declarable fold s n ≡ cannot r)) ⊎ HasClass (to_lower u n) h

  hold-IsMet :
      (d : Declaration) (n : Text) (o : Declarable) (h : Held)
      → declarable fold s n ≡ o
      → IsMet (hold u d n o h) n
  unfolding hold
  hold-IsMet d n (cannot r) h e = inl (r, e)
  hold-IsMet d n (can c) h e = inr (
      ground
        (arith, get-put (to_lower u n) (to_lower u n) c h.declared, text_eq_refl (to_lower u n)))

  names-IsMet :
      (d : Declaration) (ns : List Text) (h : Held) → All (IsMet (hold_names u fold s d ns h)) ns
  unfolding hold_names
  names-IsMet d [] h = tt
  names-IsMet d (n ∷ ns) h =
      let h' = hold u d n (declarable fold s n) h in
      (still (hold-IsMet d n (declarable fold s n) h refl), names-IsMet d ns h')
    where
      still :
          IsMet (hold u d n (declarable fold s n) h) n
          → IsMet (hold_names u fold s d ns (hold u d n (declarable fold s n) h)) n
      still (inl r) = inl r
      still (inr e) =
          inr (hold_names-keeps d ns (hold u d n (declarable fold s n) h) (to_lower u n) e)

  IsMet-keeps :
      (ns : List Text) (h h' : Held)
      → ((k : Text) → HasClass k h → HasClass k h')
      → All (IsMet h) ns
      → All (IsMet h') ns
  IsMet-keeps [] h h' f m = tt
  IsMet-keeps (n ∷ ns) h h' f (inl r, ms) = (inl r, IsMet-keeps ns h h' f ms)
  IsMet-keeps (n ∷ ns) h h' f (inr e, ms) = (inr (f (to_lower u n) e), IsMet-keeps ns h h' f ms)

  all-IsMet :
      (ds : List Declaration) (h : Held)
      → All (λ (d : Declaration). All (IsMet (hold_all u fold s ds h)) d.names) ds
  unfolding hold_all
  all-IsMet [] h = tt
  all-IsMet (d ∷ ds) h =
      let h' = hold_names u fold s d d.names h in
      (
        IsMet-keeps d.names h' (hold_all u fold s ds h') (hold_all-keeps ds h')
            (names-IsMet d d.names h),
        all-IsMet ds h',
      )

  settle :
      (ns : List Text) (h : Held)
      → Sound u fold s h.declared
      → All (IsMet h) ns
      → All (IsSettled u fold s h.declared) ns
  settle [] h k m = tt
  settle (n ∷ ns) h k (inl r, ms) = (inl r, settle ns h k ms)
  settle (n ∷ ns) h k (inr e, ms) = elim (Option-cases (get (to_lower u n) h.declared)) [
    | inl gone ↦ absurd (ground (arith, e, gone))
    | inr (c, found) ↦ (inr (c, found, k n c found), settle ns h k ms)
  ]

  settle_all :
      (ds : List Declaration) (h : Held)
      → Sound u fold s h.declared
      → All (λ (d : Declaration). All (IsMet h) d.names) ds
      → All (λ (d : Declaration). All (IsSettled u fold s h.declared) d.names) ds
  settle_all [] h k m = tt
  settle_all (d ∷ ds) h k (m, ms) = (settle d.names h k m, settle_all ds h k ms)

  -- checkDeclared reports exactly the declared names that cannot be declared, each where it is
  -- written and in the order of the configuration, and every other declared name has a class
  -- afterwards: one that is auxiliary, that authnd does not derive itself, and that the schema
  -- defines under that name in some case.
  pub check_declared-IsSettled :
      (c : Config)
      → ((check_declared u fold s c).refusals ≡ all_refused fold s (declarations c))
        × All
            (λ (d : Declaration).
              All (IsSettled u fold s (check_declared u fold s c).declared) d.names)
            (declarations c)
  unfolding check_declared get
  check_declared-IsSettled c =
      let start : Held = record { declared = []; refusals = [] } in
      let sound =
        hold_all-Sound u fold s (declarations c) start
          (λ n d found. absurd (ground (arith, found))) in
      (
        hold_all-refusals u fold s (declarations c) start,
        settle_all (declarations c) (hold_all u fold s (declarations c) start) sound
            (all-IsMet (declarations c) start),
      )
