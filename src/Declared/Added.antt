-- ===== src/Declared/Added.antt =====
-- declared.go: `withDeclared`, which adds declared classes after their superclasses.
pub mod Whole
pub mod Complete
use authnd.Base.{
  if◌then◌else◌, is_some, any, Text, codes, Casing, to_lower, text_eq, Map, get, Bool, ◌||◌, Option,
  none, some, List, [], ◌∷◌, ◌++◌,
}
use authnd.Schema.{Class, class, Classes, nil, cons, facts, Schema}
use authnd.Roster.{Fold, equal_fold}
use authnd.Declared.{is_that}

-- The keys of a map[string]bool.
abbrev pub has_key : Text → List Text → Bool
has_key k ks = any (text_eq k) ks

module _ (u : Casing) where
  -- The key of a class in `skip`.
  abbrev pub key_of : Class → Text
  key_of c = to_lower u (facts c).name

  unfoldable mutual
    -- skippedBy
    pub skipped_by : List Text → Class → Option Class
    skipped_by skip (class f sups) = skipped_among skip sups

    pub skipped_among : List Text → Classes → Option Class
    skipped_among skip nil = none
    skipped_among skip (cons c cs) =
        let deep = skipped_by skip c in
        let rest = skipped_among skip cs in
        if has_key (key_of c) skip then some c else elim deep [ none ↦ rest | some d ↦ some d ]

  -- skipped
  unfoldable pub skipped : List Text → Class → Bool
  skipped skip c = has_key (key_of c) skip || is_some (skipped_by skip c)

module _ (fold : Fold) (s : Schema) where
  -- present, of withDeclared
  unfoldable pub present : Class → List Text → Bool
  present c out =
      equal_fold fold (facts c).name (codes "top")
      || any (λ have. is_that (s.object_class have) (some c)) out

  unfoldable mutual
    unfolding present

    -- walk, of withDeclared: a class after its superclasses.
    pub walk : Class → List Text → List Text
    walk (class f sups) out =
        let out' = walk_all sups out in
        if present (class f sups) out' then out' else out' ++ f.name ∷ []

    pub walk_all : Classes → List Text → List Text
    walk_all nil out = out
    walk_all (cons c cs) out = walk_all cs (walk c out)

  -- One declared name of withDeclared's loop, on what is there and what was added.
  module _ (u : Casing) (table : Map Class) (skip : List Text) where
    unfoldable pub add_class : Option Class → List Text × List Text → List Text × List Text
    add_class none (out, added) = (out, added)
    add_class (some c) (out, added) =
        if skipped u skip c || has_key (facts c).name added
        then (out, added)
        else (walk c out, added ++ (facts c).name ∷ [])

    unfoldable pub add_declared : List Text → List Text × List Text → List Text × List Text
    unfolding add_class
    add_declared [] p = p
    add_declared (n ∷ ns) p = add_declared ns (add_class (get (to_lower u n) table) p)

    -- withDeclared; `table` is s.declared.
    unfoldable pub with_declared : List Text → List Text → List Text × List Text
    unfolding add_declared
    with_declared classes declared = add_declared declared (classes, [])
