-- ===== src/Declared/Added/Whole.antt =====
-- declared.go, `withDeclared`: the walk over a class and its superclasses.
use mathlib.Core.Path.{subst}
use authnd.Base.{
  if◌then◌else◌, Bool-cases, any, Text, Casing, ◌≡◌, refl, sym, ap, ◌∙◌, inl, inr, Bool, true,
  false, ◌||◌, none, some, List, [], ◌∷◌, ◌++◌, append_assoc, append-nil, arith,
}
use authnd.Schema.{
  Resolves, ResolvesAll, Class, class, Classes, nil, cons, facts, same_class, Schema,
}
use authnd.Roster.{Fold}
use authnd.Declared.{is_that}
use authnd.Declared.Added.{
  has_key, key_of, skipped_by, skipped_among, skipped, present, walk, walk_all,
}

pub any-append :
    {A : Type 0} (p : A → Bool) (xs ys : List A) → any p (xs ++ ys) ≡ (any p xs || any p ys)
any-append p [] ys = refl
any-append p (x ∷ xs) ys = ground (arith, any-append p xs ys)

module _ (u : Casing) (fold : Fold) (s : Schema) (skip : List Text) where
  unfoldable mutual
    -- A class and all its superclasses are there.
    pub IsWhole : Class → List Text → Type 0
    IsWhole (class f sups) out = (present fold s (class f sups) out ≡ true) × IsWholeAll sups out

    pub IsWholeAll : Classes → List Text → Type 0
    IsWholeAll nil out = Unit
    IsWholeAll (cons c cs) out = IsWhole c out × IsWholeAll cs out

  pub IsWhole-present : (c : Class) (out : List Text) → IsWhole c out → present fold s c out ≡ true
  unfolding IsWhole
  IsWhole-present (class f sups) out w = w.0

  -- A name that may be added to `out`: that of a class that is not there and is not left off.
  pub record IsNew (out : List Text) (n : Text) : Type 0 where
    pub class_ : Class
    pub found : s.object_class n ≡ some class_
    pub absent : present fold s class_ out ≡ false
    pub unskipped : has_key (key_of u class_) skip ≡ false

  -- Each of the names is new after those before it.
  unfoldable pub Grown : List Text → List Text → Type 0
  Grown out [] = Unit
  Grown out (n ∷ ns) = IsNew out n × Grown (out ++ n ∷ []) ns

  pub record Extends (out out' : List Text) : Type 0 where
    pub extra : List Text
    pub is_kept : out' ≡ out ++ extra
    pub grown : Grown out extra

  Grown-append :
      (out xs ys : List Text) → Grown out xs → Grown (out ++ xs) ys → Grown out (xs ++ ys)
  unfolding Grown
  Grown-append out [] ys g h = subst (λ o. Grown o ys) (append-nil out) h
  Grown-append out (x ∷ xs) ys (n, g) h = (
    n,
    Grown-append (out ++ x ∷ []) xs ys g
        (subst (λ o. Grown o ys) (sym (append_assoc out (x ∷ []) xs)) h),
  )

  pub Extends-refl : (out : List Text) → Extends out out
  unfolding Grown
  Extends-refl out = record { extra = []; is_kept = sym (append-nil out); grown = tt }

  pub Extends-trans : (a b c : List Text) → Extends a b → Extends b c → Extends a c
  Extends-trans a b c p q = record {
    extra = p.extra ++ q.extra;
    is_kept = q.is_kept ∙ (ap (λ l. l ++ q.extra) p.is_kept ∙ append_assoc a p.extra q.extra);
    grown = Grown-append a p.extra q.extra p.grown (subst (λ o. Grown o q.extra) p.is_kept q.grown);
  }

  present-append :
      (c : Class) (out more : List Text)
      → present fold s c out ≡ true
      → present fold s c (out ++ more) ≡ true
  unfolding present
  present-append c out more h =
      ground (arith, any-append (λ have. is_that (s.object_class have) (some c)) out more, h)

  mutual
    unfolding IsWhole

    IsWhole-append : (c : Class) (out more : List Text) → IsWhole c out → IsWhole c (out ++ more)
    IsWhole-append (class f sups) out more (p, w) =
        (present-append (class f sups) out more p, IsWholeAll-append sups out more w)

    IsWholeAll-append :
        (cs : Classes) (out more : List Text) → IsWholeAll cs out → IsWholeAll cs (out ++ more)
    IsWholeAll-append nil out more w = tt
    IsWholeAll-append (cons c cs) out more (w, ws) =
        (IsWhole-append c out more w, IsWholeAll-append cs out more ws)

  pub IsWhole-Extends : (c : Class) (a b : List Text) → Extends a b → IsWhole c a → IsWhole c b
  IsWhole-Extends c a b e w = subst (IsWhole c) (sym e.is_kept) (IsWhole-append c a e.extra w)

  IsWholeAll-Extends :
      (cs : Classes) (a b : List Text) → Extends a b → IsWholeAll cs a → IsWholeAll cs b
  IsWholeAll-Extends cs a b e w =
      subst (IsWholeAll cs) (sym e.is_kept) (IsWholeAll-append cs a e.extra w)

  same_class_refl : (c : Class) → same_class c c ≡ true
  same_class_refl c = ground arith

  present-added :
      (c : Class) (out : List Text)
      → s.object_class (facts c).name ≡ some c
      → present fold s c (out ++ (facts c).name ∷ []) ≡ true
  unfolding present
  present-added c out h = ground (
    arith,
    any-append (λ have. is_that (s.object_class have) (some c)) out ((facts c).name ∷ []),
    h,
    same_class_refl c,
  )

  -- A class is added where it is not there.
  add-Extends :
      (c : Class) (out : List Text)
      → s.object_class (facts c).name ≡ some c
      → has_key (key_of u c) skip ≡ false
      → Extends out (if present fold s c out then out else out ++ (facts c).name ∷ [])
  unfolding Grown
  add-Extends c out h k = elim (Bool-cases (present fold s c out)) [
    | inl e ↦ rw e (Extends-refl out)
    | inr e ↦ rw e (record {
      extra = (facts c).name ∷ [];
      is_kept = refl;
      grown = (record { class_ = c; found = h; absent = e; unskipped = k }, tt);
    })
  ]

  add-present :
      (c : Class) (out : List Text)
      → s.object_class (facts c).name ≡ some c
      → present fold s c (if present fold s c out then out else out ++ (facts c).name ∷ []) ≡ true
  add-present c out h = elim (Bool-cases (present fold s c out)) [
    | inl e ↦ rw e e
    | inr e ↦ rw e (present-added c out h)
  ]

  -- What a class that is not skipped says of itself and of its superclasses.
  not_skipped :
      (c : Class)
      → skipped u skip c ≡ false
      → (has_key (key_of u c) skip ≡ false) × (skipped_by u skip c ≡ none)
  unfolding skipped
  not_skipped c h = ground arith

  not_skipped_among :
      (c : Class) (cs : Classes)
      → skipped_among u skip (cons c cs) ≡ none
      → (skipped u skip c ≡ false) × (skipped_among u skip cs ≡ none)
  unfolding skipped_by skipped
  not_skipped_among c cs h = ground arith

  mutual
    unfolding walk Resolves IsWhole skipped_by

    pub walk-Extends :
        (c : Class) (out : List Text)
        → Resolves s c
        → skipped u skip c ≡ false
        → Extends out (walk fold s c out) × IsWhole c (walk fold s c out)
    walk-Extends (class f sups) out (named, r) h =
        let (k, among) = not_skipped (class f sups) h in
        let (e, w) = walk_all-Extends sups out r among in
        let out' = walk_all fold s sups out in
        let e' = add-Extends (class f sups) out' named k in
        let end = (if present fold s (class f sups) out' then out' else out' ++ f.name ∷ []) in
        (
          Extends-trans out out' end e e',
          (add-present (class f sups) out' named, IsWholeAll-Extends sups out' end e' w),
        )

    walk_all-Extends :
        (cs : Classes) (out : List Text)
        → ResolvesAll s cs
        → skipped_among u skip cs ≡ none
        → Extends out (walk_all fold s cs out) × IsWholeAll cs (walk_all fold s cs out)
    walk_all-Extends nil out r h = (Extends-refl out, tt)
    walk_all-Extends (cons c cs) out (r, rs) h =
        let (k, among) = not_skipped_among c cs h in
        let (e, w) = walk-Extends c out r k in
        let out' = walk fold s c out in
        let (e', ws) = walk_all-Extends cs out' rs among in
        let end = walk_all fold s cs out' in
        (Extends-trans out out' end e e', (IsWhole-Extends c out' end e' w, ws))
