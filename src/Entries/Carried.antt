-- ===== src/Entries/Carried.antt =====
-- entries.go, `personEntry` and `build`: the declared classes in the objectClass of an entry.
use authnd.Base.{
  any, All, Text, codes, Casing, to_lower, text_eq, Map, get, ◌≡◌, Bool, true, false, ◌||◌, Option,
  none, some, List, ◌∷◌,
}
use authnd.Schema.{Attribute, Class, facts, Schema}
use authnd.Roster.{Fold, equal_fold}
use authnd.Server.{Site}
use authnd.Declared.{is_that}
use authnd.Declared.Added.{has_key, key_of, present}
use authnd.Entries.{LeftOff, Entry, Tree}
use authnd.Entries.Built.{attribute}
use authnd.Entries.Known.{IsLawful}
use authnd.Entries.Published.{IsJudged}
use authnd.Entries.Dropped.{values_of, may_drop}

module _ (fold : Fold) (s : Schema) where
  -- A value of objectClass is a name of the class.
  abbrev pub is_named : Class → Text → Bool
  is_named c v = equal_fold fold (facts c).name v || is_that (s.object_class v) (some c)

  -- The objectClass of an entry has the class.
  abbrev pub carries : Class → List Attribute → Bool
  carries c as_ =
      any (λ (a : Attribute). any (is_named c) a.values) (values_of (codes "objectClass") as_)

  -- What becomes of a declared class: the objectClass of the entry has it, or it is among those that
  -- the entry is published without. One that was not checked at startup is among the latter.
  abbrev pub is_accounted : Casing → Text → Option Class → Entry → Bool
  is_accounted u n none e = any (λ (o : LeftOff). text_eq n o.class) e.left_off
  is_accounted u n (some c) e =
      carries c e.attributes
      || any (λ (o : LeftOff). text_eq (key_of u c) (to_lower u o.class)) e.left_off

module _ (u : Casing) (fold : Fold) (s : Schema) (tree : Option Tree) (table : Map Class)
    (site : Site) (lawful : All (λ (e : Text × Class). IsLawful s e.1) table)
    (objects : (given : List Text) (dn : Text) (classes : List Text) (rest : List Attribute)
      → may_drop given
          (codes "objectClass")
          (s.judge dn (attribute (codes "objectClass") (codes "top" ∷ classes) ∷ rest))
        ≡ false) where
  -- An entry whose objectClass comes first, and has each class that is said to be added.
  record IsCarrying (e : Entry) : Type 0 where
    judged : IsJudged s e
    classes : List Text
    rest : List Attribute
    is_first : e.attributes ≡ attribute (codes "objectClass") (codes "top" ∷ classes) ∷ rest
    carried :
        (k : Text) (c : Class)
        → get k table ≡ some c
        → has_key (facts c).name e.declared ≡ true
        → present fold s c classes ≡ true

  -- The classes that an entry says are added are in its objectClass.
  abbrev CarriesAdded : Entry → Type 0
  CarriesAdded e =
      (k : Text) (c : Class)
      → get k table ≡ some c
      → has_key (facts c).name e.declared ≡ true
      → carries fold s c e.attributes ≡ true
