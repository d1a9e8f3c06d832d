-- ===== src/SiteSchema.antt =====
-- siteschema.go: the definitions of a schema, and the owners of their OIDs and names. schema.Definitions
-- and schema.BuildError are go-authn/ldap's.
pub mod Refusals
pub mod Loading
pub mod Blocks
pub mod Tests
use authnd.Base.{
  ltb, leb, ◌==◌, if◌then◌else◌, ltb→lt, lt→ltb, leb→le, ==_iff, Bool-cases, Option-cases, is_some,
  length, take, drop, any, all, keep, length-append, take-append, drop-append, take-append-drop,
  length-take, length-drop, All, Text, codes, text_eq_refl, text_eq_iff, is_empty, ascii_lower,
  ascii_upper, Casing, to_lower, to_upper, contains, Free, cut-append, cut-none_of_Free,
  append_of_cut, cut_prefix-append, append_of_cut_prefix, has_suffix-append, text_eq, cut, split,
  parse_uint, format_uint, parse_uint-format_uint, cut_prefix, has_suffix, Map, get-put, get-remove,
  get, put, remove, ℤ, negsuc, int_ltb, wrap_int64, ℕ, zero, suc, ◌+◌, ◌-◌, ◌*◌, ◌/◌, ◌%◌, ◌^◌, ◌≤◌,
  ◌<◌, max, min, String, ◌≡◌, refl, sym, ap, ◌∙◌, ◌≢◌, ◌↔◌, ◌⊎◌, inl, inr, Bool, true, false, not,
  ◌&&◌, ◌||◌, Option, none, some, List, [], ◌∷◌, ◌++◌, map, append_assoc, append-nil, map-append,
  arith,
}
use authnd.Schema.{Schema}

-- The kinds of definitions, as the fields of schema.Definitions and as schema.Element names them.
pub data Element : Type 0 where
  object_identifiers syntaxes matching_rules attribute_types : Element
  object_classes content_rules name_forms structure_rules : Element

-- schema.Position, where it is valid
pub record Position : Type 0 where
  pub file : Text
  pub line : ℕ
  pub column : ℕ

-- One definition: its OID (a structure rule's is its rule ID), names, place, and String().
pub record Definition : Type 0 where
  pub oid : Text
  pub names : List Text
  pub pos : Option Position
  pub text : Text

-- schema.Definitions: a list for each kind.
abbrev pub Definitions : Type 0
Definitions = Element → List Definition

abbrev pub no_definitions : Definitions
no_definitions = λ k. []

pub data BuildKind : Type 0 where
  duplicate_oid duplicate_name : BuildKind
  other_kind : ℕ → BuildKind

-- schema.BuildError
pub record BuildError : Type 0 where
  pub pos : Option Position
  pub kind : BuildKind
  pub element : Element
  pub oid : Text
  pub name : Text
  pub ref_oid : Text
  pub ref_pos : Option Position

-- What BuildFrom answers: a schema, a BuildError, or another error.
pub data Built : Type 0 where
  built : Schema → Built
  build_error : BuildError → Built
  other_error : Text → Built

-- since
unfoldable pub since : Definitions → Definitions → Definitions
since all_of before = λ k. drop (length (before k)) (all_of k)

-- owned
pub record Owned : Type 0 where
  pub place : Text
  pub def : Definition

-- schema.Element.String()
abbrev pub word : Element → Text
word object_identifiers = codes "object identifier"
word syntaxes = codes "syntax"
word matching_rules = codes "matching rule"
word attribute_types = codes "attribute type"
word object_classes = codes "object class"
word content_rules = codes "DIT content rule"
word name_forms = codes "name form"
word structure_rules = codes "DIT structure rule"

abbrev pub key : Element → Text → Text
key el oid = word el ++ b' ' ∷ oid

-- The kinds that owners.add goes through.
abbrev pub owned_kinds : List Element
owned_kinds =
    syntaxes ∷ matching_rules ∷ attribute_types ∷ object_classes ∷ content_rules ∷ name_forms
    ∷ structure_rules ∷ []

-- The names of a definition; a syntax has none.
abbrev pub names_of : Element → Definition → List Text
names_of syntaxes d = []
names_of el d = d.names

module _ (u : Casing) where
  own_names : Element → Owned → List Text → Map Owned → Map Owned
  own_names el o [] m = m
  own_names el o (n ∷ ns) m = own_names el o ns (put (key el (to_lower u n)) o m)

  -- put, of owners.add
  own : Element → Text → Definition → Map Owned → Map Owned
  unfolding own_names
  own el place d m =
      let o : Owned = record { place = place; def = d } in
      own_names el o (names_of el d) (put (key el d.oid) o m)

  own_all : Element → Text → List Definition → Map Owned → Map Owned
  unfolding own
  own_all el place [] m = m
  own_all el place (d ∷ ds) m = own_all el place ds (own el place d m)

  own_kinds : List Element → Text → Definitions → Map Owned → Map Owned
  unfolding own_all
  own_kinds [] place ds m = m
  own_kinds (el ∷ els) place ds m = own_kinds els place ds (own_all el place (ds el) m)

  -- owners.add
  unfoldable pub add_owners : Definitions → Text → Map Owned → Map Owned
  unfolding own_kinds
  add_owners ds place m = own_kinds owned_kinds place ds m
