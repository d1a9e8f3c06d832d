-- ===== src/Entries/Known.antt =====
-- entries.go: the declared classes that an entry carries, and the table of checked classes.
use mathlib.Core.Path.{subst}
use authnd.Base.{
  Bool-cases, All, Text, text_eq_iff, Casing, to_lower, text_eq, Map, get, ◌≡◌, refl, ap, inl, inr,
  true, ◌||◌, Option, none, some, List, [], ◌∷◌, ◌++◌, arith,
}
use authnd.Schema.{Class, class, facts, Schema, Resolves, Inherits}
use authnd.Roster.{Fold}
use authnd.Declared.Added.{has_key, skipped, add_class, add_declared}
use authnd.Declared.Unmet.{classes_of}

-- What holds of a class that the configuration declares.
abbrev pub IsLawful : Schema → Class → Type 0
IsLawful s c = Resolves s c × Inherits c

-- The name of a lawful class.
pub record IsKnown (s : Schema) (n : Text) : Type 0 where
  pub class_ : Class
  pub found : s.object_class n ≡ some class_
  pub lawful : IsLawful s class_

pub lawful-found : (s : Schema) (c : Class) → IsLawful s c → s.object_class (facts c).name ≡ some c
unfolding Resolves
lawful-found s (class f sups) ((r, _), _) = r

All-append : {A : Type 0} (P : A → Type 0) (xs ys : List A) → All P xs → All P ys → All P (xs ++ ys)
All-append P [] ys p q = q
All-append P (x ∷ xs) ys (p, ps) q = (p, All-append P xs ys ps q)

module _ (u : Casing) (fold : Fold) (s : Schema) (skip : List Text) where
  add_class-IsKnown :
      (table : Map Class) (o : Option Class) (p : List Text × List Text)
      → ((c : Class) → o ≡ some c → IsLawful s c)
      → All (IsKnown s) p.1
      → All (IsKnown s) (add_class fold s u table skip o p).1
  unfolding add_class
  add_class-IsKnown table none p l k = k
  add_class-IsKnown table (some c) (out, added) l k =
      elim (Bool-cases (skipped u skip c || has_key (facts c).name added)) [
        | inl e ↦ rw e k
        | inr e ↦ rw e (
            All-append (IsKnown s) added ((facts c).name ∷ []) k
              (record { class_ = c; found = lawful-found s c (l c refl); lawful = l c refl }, tt))
      ]

  pub get-IsLawful :
      (m : Map Class) (k : Text) (c : Class)
      → All (λ (e : Text × Class). IsLawful s e.1) m
      → get k m ≡ some c
      → IsLawful s c
  unfolding get
  get-IsLawful [] k c r h = absurd (ground (arith, h))
  get-IsLawful ((j, d) ∷ m) k c (r, rs) h = elim (Bool-cases (text_eq j k)) [
    | inl e ↦ subst (IsLawful s) (ground (arith, h, e)) r
    | inr e ↦ get-IsLawful m k c rs (ground (arith, h, e))
  ]

  pub add_declared-IsKnown :
      (table : Map Class) (ns : List Text) (p : List Text × List Text)
      → All (λ (e : Text × Class). IsLawful s e.1) table
      → All (IsKnown s) p.1
      → All (IsKnown s) (add_declared fold s u table skip ns p).1
  unfolding add_declared
  add_declared-IsKnown table [] p t k = k
  add_declared-IsKnown table (n ∷ ns) p t k =
      add_declared-IsKnown table ns (add_class fold s u table skip (get (to_lower u n) table) p) t (
        add_class-IsKnown table (get (to_lower u n) table) p
          (λ c. get-IsLawful table (to_lower u n) c t) k)

-- The classes of known names are all there.
pub record HasClasses (s : Schema) (ns : List Text) : Type 0 where
  pub classes : List Class
  pub found : classes_of s ns ≡ some classes
  pub resolve : All (Resolves s) classes
  pub inherit : All Inherits classes

pub classes_of-known : (s : Schema) (ns : List Text) → All (IsKnown s) ns → HasClasses s ns
unfolding classes_of
classes_of-known s [] k = record { classes = []; found = refl; resolve = tt; inherit = tt }
classes_of-known s (n ∷ ns) (k, ks) =
    let rest = classes_of-known s ns ks in
    record {
      classes = k.class_ ∷ rest.classes;
      found = ground (arith, k.found, rest.found);
      resolve = (k.lawful.0, rest.resolve);
      inherit = (k.lawful.1, rest.inherit);
    }

pub known-All :
    (s : Schema) (ns : List Text) (k : All (IsKnown s) ns) (P : Class → Type 0) (n : Text)
    (c : Class)
    → has_key n ns ≡ true
    → s.object_class n ≡ some c
    → All P (classes_of-known s ns k).classes
    → P c
unfolding classes_of-known
known-All s [] k P n c h f a = cc
known-All s (m ∷ ns) (k, ks) P n c h f (a, as_) = elim (Bool-cases (text_eq n m)) [
  | inl e ↦
      let same : k.class_ ≡ c = cc (k.found, f, ap s.object_class ((text_eq_iff n m).0 e)) in
      subst P same a
  | inr e ↦ known-All s ns ks P n c (ground (arith, h, e)) f as_
]
