-- ===== src/Declared/Unmet/Above.antt =====
-- What unmet reads off the superclasses of a class.
use authnd.Base.{
  ◌==◌, ==_iff, Bool-cases, Option-cases, is_some, any, All, Text, text_eq_iff, Casing, text_eq, ℕ,
  ◌≡◌, refl, sym, ap, ◌∙◌, inl, inr, Bool, true, ◌||◌, List, [], ◌∷◌, arith,
}
use authnd.Schema.{
  Class, class, Classes, nil, cons, facts, Problem, Schema, Resolves, ResolvesAll, Inherits,
  InheritsAll, any_above, any_among, has_type,
}
use authnd.Declared.Added.{has_key, key_of, skipped_by, skipped_among}
use authnd.Declared.Added.Whole.{any-append}
use authnd.Declared.Unmet.{Left, leave, is_missing}

-- Whether Validate found a MUST of the class missing.
unfoldable pub lacks : Casing → Schema → List Problem → Class → Bool
lacks u s ps c = any (is_missing u s c) ps

module _ (u : Casing) where
  mutual
    unfolding skipped_by any_above

    pub skipped_by-above :
        (skip : List Text) (c : Class)
        → is_some (skipped_by u skip c) ≡ any_above (λ d. has_key (key_of u d) skip) c
    skipped_by-above skip (class f sups) = skipped_among-above skip sups

    skipped_among-above :
        (skip : List Text) (cs : Classes)
        → is_some (skipped_among u skip cs) ≡ any_among (λ d. has_key (key_of u d) skip) cs
    skipped_among-above skip nil = refl
    skipped_among-above skip (cons c cs) =
        ground (arith, skipped_by-above skip c, skipped_among-above skip cs)

  pub leave-keys :
      (c : Class) (missing : List Text) (rule super : Text) (l : Left) (k : Text)
      → has_key k (leave u c missing rule super l).skip
        ≡ (has_key k l.skip || text_eq k (key_of u c))
  unfolding leave
  leave-keys c missing rule super l k = elim (Bool-cases (text_eq k (key_of u c))) [
    | inl e ↦ ground (
      arith,
      any-append (text_eq k) l.skip (key_of u c ∷ []),
      ap (λ x. has_key x l.skip) ((text_eq_iff k (key_of u c)).0 e),
      e,
    )
    | inr e ↦ ground (arith, any-append (text_eq k) l.skip (key_of u c ∷ []), e)
  ]

module _ (s : Schema) where
  mutual
    unfolding any_above Resolves

    -- What holds of a superclass of one kind makes it one of the other.
    pub any_above_mono :
        (p q : Class → Bool) (c : Class)
        → ((d : Class) → Resolves s d → p d ≡ true → q d ≡ true)
        → Resolves s c
        → any_above p c ≡ true
        → any_above q c ≡ true
    any_above_mono p q (class f sups) h r a = any_among_mono p q sups h r.1 a

    any_among_mono :
        (p q : Class → Bool) (cs : Classes)
        → ((d : Class) → Resolves s d → p d ≡ true → q d ≡ true)
        → ResolvesAll s cs
        → any_among p cs ≡ true
        → any_among q cs ≡ true
    any_among_mono p q nil h r a = a
    any_among_mono p q (cons c cs) h (r, rs) a =
        ground (arith, h c r, any_above_mono p q c h r, any_among_mono p q cs h rs)

has_type_all :
    (must types : List ℕ) (t : ℕ)
    → All (λ m. has_type must m ≡ true) types
    → has_type types t ≡ true
    → has_type must t ≡ true
has_type_all must [] t h e = cc
has_type_all must (m ∷ ms) t (h, hs) e = elim (Bool-cases (m == t)) [
  | inl same ↦ ap (has_type must) (sym ((==_iff m t).0 same)) ∙ h
  | inr other ↦ has_type_all must ms t hs (ground (arith, e, other))
]

module _ (u : Casing) (s : Schema) (ps : List Problem) where
  is_missing_below :
      (c d : Class) (p : Problem)
      → All (λ m. has_type (facts c).must m ≡ true) (facts d).must
      → is_missing u s d p ≡ true
      → is_missing u s c p ≡ true
  unfolding is_missing
  is_missing_below c d p h e = elim (Option-cases (s.attribute_type p.attribute)) [
    | inl gone ↦ ground (arith, e, gone)
    | inr (t, found) ↦ ground (arith, e, found, has_type_all (facts c).must (facts d).must t h)
  ]

  lacks_below_from :
      (c d : Class) (qs : List Problem)
      → All (λ m. has_type (facts c).must m ≡ true) (facts d).must
      → any (is_missing u s d) qs ≡ true
      → any (is_missing u s c) qs ≡ true
  lacks_below_from c d [] h e = cc
  lacks_below_from c d (q ∷ qs) h e =
      ground (arith, e, is_missing_below c d q h, lacks_below_from c d qs h)

  -- A class lacks what a superclass of it lacks.
  lacks_below :
      (c d : Class)
      → All (λ m. has_type (facts c).must m ≡ true) (facts d).must
      → lacks u s ps d ≡ true
      → lacks u s ps c ≡ true
  unfolding lacks
  lacks_below c d h e = lacks_below_from c d ps h e

  module _ (q : Class → Bool) where
    -- One of `q`, or below one, or one that lacks a MUST.
    abbrev pub is_left : Class → Bool
    is_left d = q d || (any_above q d || lacks u s ps d)

    mutual
      unfolding any_above Inherits

      pub any_above_left :
          (c : Class)
          → Inherits c
          → any_above is_left c ≡ true
          → (any_above q c || lacks u s ps c) ≡ true
      any_above_left (class f sups) i a = any_among_left (class f sups) sups i a

      any_among_left :
          (c : Class) (cs : Classes)
          → InheritsAll (facts c).must cs
          → any_among is_left cs ≡ true
          → (any_among q cs || lacks u s ps c) ≡ true
      any_among_left c nil i a = cc
      any_among_left c (cons d ds) (m, i, is) a =
          ground (arith, lacks_below c d m, any_above_left d i, any_among_left c ds is, a)
