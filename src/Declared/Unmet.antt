-- ===== src/Declared/Unmet.antt =====
-- declared.go: `unmet`, the classes that an entry must be published without.
pub mod Above
pub mod Going
pub mod Steps
pub mod Closed
pub mod Said
use authnd.Base.{
  if◌then◌else◌, Text, Casing, to_lower, Map, get, put, Bool, true, false, ◌&&◌, Option, none, some,
  List, [], ◌∷◌, ◌++◌,
}
use authnd.Schema.{
  has_type, structural, Class, facts, Problem, not_allowed, unknown_attribute, precluded,
  auxiliary_not_allowed, missing_required, other_problem, Judgement, passes, broken, problems,
  ClassKind, Schema,
}
use authnd.Entries.{LeftOff, Entry, validate}
use authnd.Declared.Added.{has_key, key_of, skipped_by}

-- What unmet has so far: `off` and `skip`.
pub record Left : Type 0 where
  pub off : List LeftOff
  pub skip : List Text

is_structural_kind : ClassKind → Bool
is_structural_kind structural = true
is_structural_kind _ = false

below : Schema → Class → Option Class → Bool
below s c none = true
below s c (some leaf) = s.is_class c leaf

deeper : Schema → Option Class → Option Class → Option Class
unfolding is_structural_kind below
deeper s none leaf = leaf
deeper s (some c) leaf =
    if is_structural_kind (facts c).kind && below s c leaf then some c else leaf

leaf_of : Schema → List Text → Option Class → Option Class
unfolding deeper
leaf_of s [] leaf = leaf
leaf_of s (n ∷ ns) leaf = leaf_of s ns (deeper s (s.object_class n) leaf)

-- structuralOf
pub structural_of : Schema → List Text → Option Class
unfolding leaf_of
structural_of s shape = leaf_of s shape none

-- The name of the content rule of an entry's structural class, or "".
rule_of : Schema → List Text → Text
unfolding structural_of
rule_of s shape = elim (structural_of s shape) [
  | none ↦ []
  | some st ↦ elim (s.content_rule st) [ none ↦ [] | some name ↦ name ]
]

module _ (u : Casing) where
  -- A class is left off, unless it is already.
  unfoldable pub leave : Class → List Text → Text → Text → Left → Left
  leave c missing rule super l = if has_key (key_of u c) l.skip then l else record {
    off =
        l.off
        ++ record { class = (facts c).name; missing = missing; rule = rule; super = super } ∷ [];
    skip = l.skip ++ key_of u c ∷ [];
  }

  -- The classes that the content rule does not allow.
  unfoldable pub leave_named : Option Class → Text → Left → Left
  unfolding leave
  leave_named none rule l = l
  leave_named (some c) rule l = leave c [] rule [] l

  unfoldable pub leave_problem : Schema → Text → Problem → Left → Left
  unfolding leave_named
  leave_problem s rule p l = elim p.kind [
    | auxiliary_not_allowed ↦ leave_named (s.object_class p.class) rule l
    | not_allowed ↦ l
    | unknown_attribute ↦ l
    | precluded ↦ l
    | missing_required ↦ l
    | other_problem ↦ l
  ]

  unfoldable pub leave_refused : Schema → Text → List Problem → Left → Left
  unfolding leave_problem
  leave_refused s rule [] l = l
  leave_refused s rule (p ∷ ps) l = leave_refused s rule ps (leave_problem s rule p l)

  -- rules: the rule of each class that is left off by now.
  unfoldable pub rules_of : List LeftOff → Map Text → Map Text
  rules_of [] rules = rules
  rules_of (o ∷ os) rules = rules_of os (put (to_lower u o.class) o.rule rules)

  unfoldable pub rule_for : Map Text → Class → Text
  rule_for rules c = elim (get (key_of u c) rules) [ none ↦ [] | some r ↦ r ]

  -- A declared class whose superclass is left off goes with it.
  unfoldable pub leave_under : Map Text → Class → Option Class → Left → Left
  unfolding leave rule_for
  leave_under rules c none l = l
  leave_under rules c (some sup) l = leave c [] (rule_for rules sup) (facts sup).name l

  unfoldable pub leave_below : Map Text → List Class → Left → Left
  unfolding leave_under
  leave_below rules [] l = l
  leave_below rules (c ∷ cs) l =
      leave_below rules cs (leave_under rules c (skipped_by u l.skip c) l)

  unfoldable pub is_missing : Schema → Class → Problem → Bool
  is_missing s c p = elim p.kind [
    | missing_required ↦ elim (s.attribute_type p.attribute) [
      | none ↦ false
      | some t ↦ has_type (facts c).must t
    ]
    | auxiliary_not_allowed ↦ false
    | not_allowed ↦ false
    | unknown_attribute ↦ false
    | precluded ↦ false
    | other_problem ↦ false
  ]

  -- The MUSTs of a class that Validate found missing.
  unfoldable pub missing_of : Schema → List Problem → Class → List Text
  unfolding is_missing
  missing_of s [] c = []
  missing_of s (p ∷ ps) c =
      let rest = missing_of s ps c in if is_missing s c p then p.attribute ∷ rest else rest

  unfoldable pub leave_missing_of : Class → List Text → Left → Left
  unfolding leave
  leave_missing_of c [] l = l
  leave_missing_of c (m ∷ ms) l = leave c (m ∷ ms) [] [] l

  unfoldable pub leave_missing : Schema → List Problem → List Class → Left → Left
  unfolding leave_missing_of missing_of
  leave_missing s ps [] l = l
  leave_missing s ps (c ∷ cs) l = leave_missing s ps cs (leave_missing_of c (missing_of s ps c) l)

  -- What unmet finds in the problems of an entry of this shape, of these declared classes.
  unfoldable pub left_by : Schema → List Text → List Class → List Problem → Left
  unfolding leave_refused leave_below leave_missing rules_of rule_of
  left_by s shape cs ps =
      let refused = leave_refused s (rule_of s shape) ps (record { off = []; skip = [] }) in
      leave_missing s ps cs (leave_below (rules_of refused.off []) cs refused)

-- s.schema.ObjectClass of every name; none where one is nil, which the next use would panic on.
unfoldable pub classes_of : Schema → List Text → Option (List Class)
classes_of s [] = some []
classes_of s (n ∷ ns) =
    let rest = classes_of s ns in
    elim (s.object_class n) [
      | none ↦ none
      | some c ↦ elim rest [ none ↦ none | some cs ↦ some (c ∷ cs) ]
    ]

unfoldable pub unmet_of : Casing → Schema → Entry × Judgement → Option (Entry × Left)
unfolding left_by classes_of
unmet_of u s (e, passes) = some (e, record { off = []; skip = [] })
unmet_of u s (e, broken) = some (e, record { off = []; skip = [] })
unmet_of u s (e, problems ps) = elim (classes_of s e.declared) [
  | none ↦ none
  | some cs ↦ some (e, left_by u s e.shape cs ps)
]

-- unmet, with the entry as `validate` leaves it; none is a panic on a class that is not there.
unfoldable pub unmet : Casing → Schema → Entry → Option (Entry × Left)
unfolding unmet_of validate
unmet u s e = unmet_of u s (validate s e)
