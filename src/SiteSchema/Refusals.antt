-- ===== src/SiteSchema/Refusals.antt =====
-- siteschema.go: `refusal`, what is said of definitions that do not build.
use authnd.Base.{
  ◌==◌, if◌then◌else◌, Text, is_empty, Casing, to_lower, text_eq, Map, get, Bool, true, false, ◌&&◌,
  Option, none, some, List, [], ◌∷◌,
}
use authnd.SiteSchema.{
  Element, Position, Definition, Definitions, BuildError, Owned, key, object_identifiers, syntaxes,
  matching_rules, attribute_types, object_classes, content_rules, name_forms, structure_rules,
  duplicate_oid, duplicate_name, other_kind,
}

-- Where a refusal is said to be.
pub data At : Type 0 where
  at_place : Text → At
  at_position : Position → At

-- What defined it first: its position, or where, with a position or without.
pub data First : Type 0 where
  first_line : Position → First
  first_place : Text → Option Position → First

-- What refusal says.
pub data Refusal : Type 0 where
  said : Text → Refusal
  plain : At → BuildError → Refusal
  redefinition : At → Element → Text → Text → First → Bool → Refusal

unfoldable pub same_position : Option Position → Option Position → Bool
unfolding text_eq
same_position none none = true
same_position (some p) (some q) =
    text_eq p.file q.file && (p.line == q.line && p.column == q.column)
same_position _ _ = false

unfoldable pub first_at : Text → Option Position → List Definition → Option Definition
unfolding text_eq same_position
first_at oid place [] = none
first_at oid place (d ∷ ds) =
    let rest = first_at oid place ds in
    if text_eq d.oid oid && same_position d.pos place then some d else rest

-- definitionAt
unfoldable pub definition_at : Definitions → BuildError → Option Definition
unfolding first_at
definition_at ds be = elim be.element [
  | object_identifiers ↦ none
  | syntaxes ↦ first_at be.oid be.pos (ds syntaxes)
  | matching_rules ↦ first_at be.oid be.pos (ds matching_rules)
  | attribute_types ↦ first_at be.oid be.pos (ds attribute_types)
  | object_classes ↦ first_at be.oid be.pos (ds object_classes)
  | content_rules ↦ first_at be.oid be.pos (ds content_rules)
  | name_forms ↦ first_at be.oid be.pos (ds name_forms)
  | structure_rules ↦ first_at be.oid be.pos (ds structure_rules)
]

unfoldable pub at_of : Text → Option Position → At
at_of place none = at_place place
at_of place (some p) = at_position p

unfoldable pub first_of : Text → Option Position → First
unfolding text_eq
first_of place none = first_place place none
first_of place (some p) = if text_eq p.file place then first_line p else first_place place (some p)

unfoldable pub is_same : Option Definition → Definition → Bool
unfolding text_eq
is_same none prev = false
is_same (some d) prev = text_eq prev.text d.text

-- The definition that a duplicate collides with.
unfoldable pub previous : Casing → BuildError → Map Owned → Option Owned
unfolding get
previous u be m = elim be.kind [
  | duplicate_oid ↦ get (key be.element (to_lower u be.ref_oid)) m
  | duplicate_name ↦ get (key be.element (to_lower u be.ref_oid)) m
  | other_kind n ↦ none
]

unfoldable pub refused_by : Option Owned → BuildError → Definitions → Text → Refusal
unfolding at_of first_of is_same definition_at
refused_by none be mine place = plain (at_of place be.pos) be
refused_by (some prev) be mine place =
    redefinition (at_of place be.pos) be.element (if is_empty be.name then be.oid else be.name)
      be.oid (first_of prev.place be.ref_pos) (is_same (definition_at mine be) prev.def)

-- refusal, of a BuildError
unfoldable pub refusal : Casing → BuildError → Definitions → Map Owned → Text → Refusal
unfolding refused_by previous
refusal u be mine m place = refused_by (previous u be m) be mine place
