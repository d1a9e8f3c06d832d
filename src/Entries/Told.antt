-- ===== src/Entries/Told.antt =====
-- What an entry says of the declared classes when it is built, and built again without some.
use authnd.Base.{
  Bool-cases, any, All, Text, text_eq_iff, Casing, to_lower, text_eq, Map, get, ◌≡◌, refl, ap, ◌∙◌,
  inl, inr, Bool, true, false, ◌||◌, Option, none, some, List, [], ◌∷◌, arith,
}
use authnd.Schema.{class, Classes, nil, cons, Class, facts, Schema}
use authnd.Roster.{Fold}
use authnd.Server.{Site}
use authnd.Entries.{LeftOff, Entry}
use authnd.Entries.Built.{undeclared}
use authnd.Entries.Publication.{with_left}
use authnd.Entries.Says.{SaysAs}
use authnd.Entries.Known.{IsLawful}
use authnd.Declared.Added.{has_key, key_of, skipped, skipped_by, skipped_among, with_declared}
use authnd.Declared.Added.Whole.{any-append}
use authnd.Declared.Added.Complete.{TableResolves, with_declared-IsWhole}

-- What an entry notes of a class that its source declares: that the class was added, or that it is
-- left off. A class that was not checked at startup is noted by the name it was declared with.
abbrev pub is_told : Casing → Text → Option Class → Entry → Bool
is_told u n none e = any (λ (o : LeftOff). text_eq n o.class) e.left_off
is_told u n (some c) e =
    has_key (facts c).name e.declared
    || any (λ (o : LeftOff). text_eq (key_of u c) (to_lower u o.class)) e.left_off

pub is_told-SaysAs :
    (u : Casing) (n : Text) (o : Option Class) (e e' : Entry)
    → SaysAs e e'
    → is_told u n o e ≡ true
    → is_told u n o e' ≡ true
is_told-SaysAs u n none e e' w h = rw w.left_off h
is_told-SaysAs u n (some c) e e' w h = rw (w.left_off, w.declared) h

pub All-map :
    {A : Type 0} {P Q : A → Type 0} (xs : List A) → ((a : A) → P a → Q a) → All P xs → All Q xs
All-map [] f p = tt
All-map (x ∷ xs) f (p, ps) = (f x p, All-map xs f ps)

undeclared-is_told :
    (u : Casing) (table : Map Class) (n : Text) (ns : List Text)
    → has_key n ns ≡ true
    → get (to_lower u n) table ≡ none
    → any (λ (o : LeftOff). text_eq n o.class) (undeclared u table ns) ≡ true
unfolding undeclared
undeclared-is_told u table n [] h e = cc
undeclared-is_told u table n (m ∷ ns) h e = elim (Bool-cases (text_eq n m)) [
  | inl same ↦
      ground (arith, ap (λ x. get (to_lower u x) table) ((text_eq_iff n m).0 same), e, same)
  | inr other ↦ ground (arith, undeclared-is_told u table n ns, h, e, other)
]

module _ (u : Casing) (fold : Fold) (s : Schema) (table : Map Class) (site : Site) where
  mutual
    unfolding skipped_by

    none-skipped_by : (c : Class) → skipped_by u [] c ≡ none
    none-skipped_by (class f sups) = none-skipped_among sups

    none-skipped_among : (cs : Classes) → skipped_among u [] cs ≡ none
    none-skipped_among nil = refl
    none-skipped_among (cons c cs) = ground (arith, none-skipped_by c, none-skipped_among cs)

  pub not_skipped : (c : Class) → skipped u [] c ≡ false
  unfolding skipped
  not_skipped c = ground (arith, none-skipped_by c)

  -- An entry with the classes of these declared names that are not to be left off.
  pub record IsBuilt (skip names : List Text) (e : Entry) : Type 0 where
    pub classes : List Text
    pub declared : e.declared ≡ (with_declared fold s u table skip classes names).1
    pub left_off : e.left_off ≡ undeclared u table names

  with_left-is_told :
      (n : Text) (o : Option Class) (off : List LeftOff) (e : Entry)
      → is_told u n o e ≡ true
      → is_told u n o (with_left off e) ≡ true
  unfolding with_left
  with_left-is_told n none off e h =
      ground (arith, any-append (λ (x : LeftOff). text_eq n x.class) e.left_off off, h)
  with_left-is_told n (some c) off e h = ground (
    arith,
    any-append (λ (x : LeftOff). text_eq (key_of u c) (to_lower u x.class)) e.left_off off,
    h,
  )

  left-is_told :
      (n : Text) (c : Class) (off : List LeftOff) (e : Entry)
      → any (λ (x : LeftOff). text_eq (key_of u c) (to_lower u x.class)) off ≡ true
      → is_told u n (some c) (with_left off e) ≡ true
  unfolding with_left
  left-is_told n c off e h = ground (
    arith,
    any-append (λ (x : LeftOff). text_eq (key_of u c) (to_lower u x.class)) e.left_off off,
    h,
  )

  module _ (lawful : All (λ (e : Text × Class). IsLawful s e.1) table) (names : List Text)
      (n : Text) (given : has_key n names ≡ true) where
    resolved : (skip : List Text) → TableResolves u fold s table skip
    resolved skip = All-map table (λ e p. p.0) lawful

    unchecked-is_told :
        (skip : List Text) (e : Entry)
        → get (to_lower u n) table ≡ none
        → IsBuilt skip names e
        → is_told u n none e ≡ true
    unchecked-is_told skip e gone b =
        ap (any (λ (o : LeftOff). text_eq n o.class)) b.left_off
        ∙ undeclared-is_told u table n names given gone

    checked-is_told :
        (skip : List Text) (c : Class) (e : Entry)
        → get (to_lower u n) table ≡ some c
        → skipped u skip c ≡ false
        → IsBuilt skip names e
        → is_told u n (some c) e ≡ true
    checked-is_told skip c e found k b =
        let w =
          with_declared-IsWhole u fold s table skip (resolved skip) b.classes names n c given found
            k in
        let has : has_key (facts c).name e.declared ≡ true =
          ap (has_key (facts c).name) b.declared ∙ w.0 in
        ground arith

    pub built-is_told :
        (skip : List Text) (o : Option Class) (e : Entry)
        → get (to_lower u n) table ≡ o
        → ((c : Class) → o ≡ some c → skipped u skip c ≡ false)
        → IsBuilt skip names e
        → is_told u n o e ≡ true
    built-is_told skip none e found k b = unchecked-is_told skip e found b
    built-is_told skip (some c) e found k b = checked-is_told skip c e found (k c refl) b

    -- What is built again without what was left off, or not.
    pub again-is_told :
        (skip : List Text) (o : Option Class) (off : List LeftOff) (e : Entry)
        → get (to_lower u n) table ≡ o
        → ((c : Class)
            → o ≡ some c
            → skipped u skip c ≡ true
            → any (λ (x : LeftOff). text_eq (key_of u c) (to_lower u x.class)) off ≡ true)
        → IsBuilt skip names e
        → is_told u n o (with_left off e) ≡ true
    again-is_told skip none off e found k b =
        with_left-is_told n none off e (unchecked-is_told skip e found b)
    again-is_told skip (some c) off e found k b = elim (Bool-cases (skipped u skip c)) [
      | inl gone ↦ left-is_told n c off e (k c refl gone)
      | inr stays ↦ with_left-is_told n (some c) off e (checked-is_told skip c e found stays b)
    ]
