-- ===== src/Declared/Checked.antt =====
-- declared.go, `checkDeclared`: what is kept and what is refused, declaration by declaration.
use mathlib.Core.Path.{subst}
use authnd.Base.{
  Bool-cases, Text, text_eq_iff, Casing, to_lower, text_eq, Map, get-put, get, put, ◌≡◌, refl, sym,
  ap, ◌∙◌, ◌⊎◌, inl, inr, false, Option, none, some, List, [], ◌∷◌, ◌++◌, append_assoc, append-nil,
  arith,
}
use authnd.Schema.{auxiliary, Class, facts, Schema}
use authnd.Roster.{Fold}
use authnd.Declared.{
  Declaration, Refusal, Declarable, can, cannot, is_derived, of_class, of_kind, declarable, Held,
  hold, hold_names, hold_all,
}

-- The refusals of one declaration's names, in order.
refused_names : Fold → Schema → Declaration → List Text → List (Declaration × Refusal)
refused_names fold s d [] = []
refused_names fold s d (n ∷ ns) =
    let rest = refused_names fold s d ns in
    elim (declarable fold s n) [ can c ↦ rest | cannot r ↦ (d, r) ∷ rest ]

-- Every name that cannot be declared, where it is written.
pub all_refused : Fold → Schema → List Declaration → List (Declaration × Refusal)
unfolding refused_names
all_refused fold s [] = []
all_refused fold s (d ∷ ds) = refused_names fold s d d.names ++ all_refused fold s ds

-- A class is kept for a name: an auxiliary one that authnd does not derive, which the schema defines
-- under this name, written in this case or another.
pub record IsDeclarable (u : Casing) (fold : Fold) (s : Schema) (n : Text) (c : Class)
    : Type 0 where
  pub is_auxiliary : (facts c).kind ≡ auxiliary
  pub written : Text
  pub same : to_lower u written ≡ to_lower u n
  pub defined : s.object_class written ≡ some c
  pub not_derived : is_derived fold s written ≡ false

-- A declared name is refused, or a class is kept for it.
abbrev pub IsSettled : Casing → Fold → Schema → Map Class → Text → Type 0
IsSettled u fold s table n =
    ((r : Refusal) × (declarable fold s n ≡ cannot r))
    ⊎ ((c : Class) × (get (to_lower u n) table ≡ some c) × IsDeclarable u fold s n c)

module _ (u : Casing) (fold : Fold) (s : Schema) where
  hold-refusals :
      (d : Declaration) (ns : List Text) (n : Text) (h : Held) (o : Declarable)
      → ((h' : Held)
          → (hold_names u fold s d ns h').refusals ≡ h'.refusals ++ refused_names fold s d ns)
      → (hold_names u fold s d ns (hold u d n o h)).refusals
        ≡ h.refusals ++ elim o [
          | can c ↦ refused_names fold s d ns
          | cannot r ↦ (d, r) ∷ refused_names fold s d ns
        ]
  unfolding hold
  hold-refusals d ns n h (can c) rest =
      rest (record h { declared = put (to_lower u n) c h.declared })
  hold-refusals d ns n h (cannot r) rest =
      rest (record h { refusals = h.refusals ++ (d, r) ∷ [] })
      ∙ append_assoc h.refusals ((d, r) ∷ []) (refused_names fold s d ns)

  hold_names-refusals :
      (d : Declaration) (ns : List Text) (h : Held)
      → (hold_names u fold s d ns h).refusals ≡ h.refusals ++ refused_names fold s d ns
  unfolding hold_names refused_names
  hold_names-refusals d [] h = sym (append-nil h.refusals)
  hold_names-refusals d (n ∷ ns) h =
      hold-refusals d ns n h (declarable fold s n) (hold_names-refusals d ns)

  pub hold_all-refusals :
      (ds : List Declaration) (h : Held)
      → (hold_all u fold s ds h).refusals ≡ h.refusals ++ all_refused fold s ds
  unfolding hold_all all_refused
  hold_all-refusals [] h = sym (append-nil h.refusals)
  hold_all-refusals (d ∷ ds) h =
      hold_all-refusals ds (hold_names u fold s d d.names h)
      ∙ (ap (λ l. l ++ all_refused fold s ds) (hold_names-refusals d d.names h)
          ∙ append_assoc h.refusals (refused_names fold s d d.names) (all_refused fold s ds))

  of_class-can :
      (n : Text) (o : Option Class) (c : Class)
      → of_class n o ≡ can c
      → (o ≡ some c) × ((facts c).kind ≡ auxiliary)
  unfolding of_class of_kind
  of_class-can n none c h = cc
  of_class-can n (some d) c h = ground (arith, h)

  -- What `declarable` says of a class that can be declared.
  declarable-can :
      (n : Text) (c : Class)
      → declarable fold s n ≡ can c
      → (s.object_class n ≡ some c) × ((facts c).kind ≡ auxiliary) × (is_derived fold s n ≡ false)
  unfolding declarable
  declarable-can n c h = elim (Bool-cases (is_derived fold s n)) [
    | inl e ↦ let h' = rw e at h in cc
    | inr e ↦
        let h' : of_class n (s.object_class n) ≡ can c = rw e at h in
        let (found, kind) = of_class-can n (s.object_class n) c h' in (found, kind, e)
  ]

  -- Whatever is kept for a key was declared under it.
  abbrev pub Sound : Map Class → Type 0
  Sound table =
      (n : Text) (c : Class) → get (to_lower u n) table ≡ some c → IsDeclarable u fold s n c

  hold-Sound :
      (d : Declaration) (n : Text) (o : Declarable) (h : Held)
      → declarable fold s n ≡ o
      → Sound h.declared
      → Sound (hold u d n o h).declared
  unfolding hold
  hold-Sound d n (cannot r) h e k = k
  hold-Sound d n (can c) h e k = λ m c' found.
      elim (Bool-cases (text_eq (to_lower u n) (to_lower u m))) [
        | inl same ↦
            let (defined, kind, derived) = declarable-can n c e in
            let is_c : c ≡ c' =
              ground (arith, get-put (to_lower u n) (to_lower u m) c h.declared, found, same) in
            subst (IsDeclarable u fold s m) is_c (record {
              is_auxiliary = kind;
              written = n;
              same = (text_eq_iff (to_lower u n) (to_lower u m)).0 same;
              defined = defined;
              not_derived = derived;
            })
        | inr other ↦
            k m c'
              (ground (arith, get-put (to_lower u n) (to_lower u m) c h.declared, found, other))
      ]

  hold_names-Sound :
      (d : Declaration) (ns : List Text) (h : Held)
      → Sound h.declared
      → Sound (hold_names u fold s d ns h).declared
  unfolding hold_names
  hold_names-Sound d [] h k = k
  hold_names-Sound d (n ∷ ns) h k =
      hold_names-Sound d ns (hold u d n (declarable fold s n) h)
        (hold-Sound d n (declarable fold s n) h refl k)

  pub hold_all-Sound :
      (ds : List Declaration) (h : Held)
      → Sound h.declared
      → Sound (hold_all u fold s ds h).declared
  unfolding hold_all
  hold_all-Sound [] h k = k
  hold_all-Sound (d ∷ ds) h k =
      hold_all-Sound ds (hold_names u fold s d d.names h) (hold_names-Sound d d.names h k)
