-- ===== src/Entries.antt =====
-- entries.go and structure.go: an entry held to the schema before it is published. The schema's own
-- judgements (Validate, GoverningStructureRule) are go-authn/ldap's, and parameters.
pub mod Built
pub mod Publication
pub mod Everywhere
pub mod Says
pub mod Known
pub mod Told
pub mod Rebuilt
pub mod Complete
pub mod Carried
pub mod Dns
pub mod Sorted
pub mod Listed
pub mod Attributes
pub mod Sound
pub mod Hash
pub mod Valued
pub mod Published
pub mod Dropped
pub mod Tests
use authnd.Config.Samba.{Sid}
use authnd.Schema.{
  Class, facts, Attribute, not_allowed, unknown_attribute, precluded, auxiliary_not_allowed,
  missing_required, other_problem, Problem, Judgement, passes, broken, problems, Governed,
  governed_by, Schema,
}
use authnd.Base.{
  ltb, leb, if◌then◌else◌, is_some, length, take, drop, any, keep, Text, text_eq, Map, get, put, ℤ,
  pos, negsuc, int_ltb, ℕ, ◌+◌, ◌-◌, ◌^◌, Bool, true, false, not, ◌||◌, Option, none, some, List,
  [], ◌∷◌, ◌++◌,
}

-- Why an entry is not published, and why an attribute is left out.
pub data Invalid : Type 0 where
  fails_schema : Judgement → Invalid
  misplaced : Invalid
  too_large : ℕ → Invalid

-- Why: the schema does not define it; no class of the entry allows it, and these would (the flag
-- says that there are more); a content rule precludes it.
pub data Reason : Type 0 where
  not_defined : Reason
  no_class_allows : List Text → Bool → Reason
  content_rule : Text → Reason

-- A class that an entry is published without: the MUSTs that are missing, or the content rule
-- that does not allow it or its superclass `super`.
pub record LeftOff : Type 0 where
  pub class : Text
  pub missing : List Text
  pub rule : Text
  pub super : Text

-- The rules of the two containers, where the schema has active structure rules.
pub record Tree : Type 0 where
  pub people : Option ℕ
  pub groups : Option ℕ

-- entry; `judged` is the answer that `validate` remembers.
pub record Entry : Type 0 where
  pub name : Text
  pub dn : Text
  pub group : Bool
  pub shape : List Text
  pub missing_posix : List Text
  pub no_sid : Option Sid
  pub attributes : List Attribute
  pub given : List Text
  pub dropped : List (Text × Reason)
  pub invalid : Option Invalid
  pub declared : List Text
  pub left_off : List LeftOff
  pub judged : Option Judgement

remembered : Schema → Entry → Option Judgement → Entry × Judgement
remembered s e (some j) = (e, j)
remembered s e none = let j = s.judge e.dn e.attributes in (record e { judged = some j }, j)

-- validate
unfoldable pub validate : Schema → Entry → Entry × Judgement
unfolding remembered
validate s e = remembered s e e.judged

-- The classes that would carry an attribute of this type.
would : Schema → ℕ → List Class → List Text
would s t [] = []
would s t (c ∷ cs) =
    let rest = would s t cs in
    if any (s.is_type t) ((facts c).must ++ (facts c).may) then (facts c).name ∷ rest else rest

-- whyNotAllowed
why_not_allowed : Schema → Text → Reason
unfolding would
why_not_allowed s desc = elim (s.describe desc) [
  | none ↦ not_defined
  | some t ↦
      let names = would s t s.object_classes in
      no_class_allows (take 4 names) (ltb 4 (length names))
]

-- Why a problem drops its attribute, where it does.
pub drop_of : Schema → List Text → Problem → Option Reason
drop_of s given p = elim p.kind [
  | not_allowed ↦
      if any (text_eq p.attribute) given then some (why_not_allowed s p.attribute) else none
  | unknown_attribute ↦
      if any (text_eq p.attribute) given then some (why_not_allowed s p.attribute) else none
  | precluded ↦ some (content_rule p.class)
  | auxiliary_not_allowed ↦ none
  | missing_required ↦ none
  | other_problem ↦ none
]

add_drop : Problem → Option Reason → Map Reason → Map Reason
add_drop p none m = m
add_drop p (some r) m = put p.attribute r m

drops : Schema → List Text → List Problem → Map Reason → Map Reason
unfolding drop_of add_drop
drops s given [] m = m
drops s given (p ∷ ps) m = drops s given ps (add_drop p (drop_of s given p) m)

kept : Map Reason → List Attribute → List Attribute
kept drop [] = []
kept drop (a ∷ as_) =
    let rest = kept drop as_ in if is_some (get a.name drop) then rest else a ∷ rest

left_out : Map Reason → List Attribute → List (Text × Reason)
left_out drop [] = []
left_out drop (a ∷ as_) =
    let rest = left_out drop as_ in
    elim (get a.name drop) [ none ↦ rest | some r ↦ (a.name, r) ∷ rest ]

invalid_of : Judgement → Option Invalid
invalid_of passes = none
invalid_of j = some (fails_schema j)

judged_as : Entry × Judgement → Entry
unfolding invalid_of
judged_as (e, j) = record e { invalid = invalid_of j }

-- The second half of `validated`, for what is to be dropped.
after_drop : Schema → Judgement → Entry → Map Reason → Entry
unfolding judged_as kept left_out validate
after_drop s j e [] = judged_as (e, j)
after_drop s j e drop = judged_as (
    validate s (record e {
      attributes = kept drop e.attributes;
      dropped = e.dropped ++ left_out drop e.attributes;
      judged = none;
    }))

after_judgement : Schema → Entry × Judgement → Entry
unfolding after_drop drops
after_judgement s (e, problems ps) = after_drop s (problems ps) e (drops s e.given ps [])
after_judgement s (e, passes) = judged_as (e, passes)
after_judgement s (e, broken) = judged_as (e, broken)

-- validated
pub validated : Schema → Entry → Entry
unfolding after_judgement validate
validated s e = after_judgement s (validate s e)

unfoldable pub is_governed : Governed → Bool
is_governed (governed_by r) = true
is_governed _ = false

-- Whether a rule places the entry in its container; where there is no tree, nothing is asked.
pub is_placed : Schema → Option Tree → Entry → Bool
unfolding is_governed
is_placed s none e = true
is_placed s (some t) e =
    is_governed (s.govern e.dn e.attributes (if e.group then t.groups else t.people))

-- placed
placed : Schema → Option Tree → Entry → Entry
placed s tree e =
    if is_some e.invalid || is_placed s tree e then e else record e { invalid = some misplaced }

values_size : List Text → ℕ
values_size [] = 0
values_size (v ∷ vs) = length v + values_size vs

attributes_size : List Attribute → ℕ
unfolding values_size
attributes_size [] = 0
attributes_size (a ∷ as_) = length a.name + values_size a.values + attributes_size as_

pub entry_size : Entry → ℕ
unfolding attributes_size
entry_size e = length e.dn + attributes_size e.attributes

-- maxEntryBytes
abbrev pub max_entry_bytes : Schema → ℤ
max_entry_bytes s =
    if leb (2 ^ 20) s.max_message
    then pos (s.max_message - 2 ^ 20)
    else negsuc (2 ^ 20 - s.max_message - 1)

-- sized
sized : Schema → Entry → Entry
unfolding entry_size
sized s e =
    if is_some e.invalid
    then e
    else if int_ltb (max_entry_bytes s) (pos (entry_size e))
    then record e { invalid = some (too_large (entry_size e)) }
    else e

-- placedAndValidated
pub placed_and_validated : Schema → Option Tree → Entry → Entry
unfolding validated placed sized
placed_and_validated s tree e = sized s (placed s tree (validated s e))

-- publication.valid, of the entries as they were built
unfoldable pub valid : List Entry → List Entry
valid es = keep (λ (e : Entry). not (is_some e.invalid)) es

-- publication.rejected
unfoldable pub rejected : List Entry → List Entry
rejected es = keep (λ (e : Entry). is_some e.invalid) es
