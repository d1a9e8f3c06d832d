-- ===== src/SiteSchema/Loading.antt =====
-- siteschema.go: `directorySchema`, which adds schema_files and the schema blocks to the standard schema,
-- one file after the other. schema.Read, hclschema.Decode and schema.BuildFrom are parameters.
pub mod Added
pub mod Named
pub mod Reported
pub mod Whole
use authnd.Base.{
  ltb, leb, ◌==◌, if◌then◌else◌, ltb→lt, lt→ltb, leb→le, ==_iff, Bool-cases, Option-cases, is_some,
  length, take, drop, any, all, keep, length-append, take-append, drop-append, take-append-drop,
  length-take, length-drop, All, Text, codes, text_eq_refl, text_eq_iff, is_empty, ascii_lower,
  ascii_upper, Casing, to_lower, to_upper, contains, Free, cut-append, cut-none_of_Free,
  append_of_cut, cut_prefix-append, append_of_cut_prefix, has_suffix-append, text_eq, cut, split,
  parse_uint, format_uint, parse_uint-format_uint, cut_prefix, has_suffix, Map, get-put, get-remove,
  get, put, remove, ℤ, pos, negsuc, int_ltb, wrap_int64, ℕ, zero, suc, ◌+◌, ◌-◌, ◌*◌, ◌/◌, ◌%◌, ◌^◌,
  ◌≤◌, ◌<◌, max, min, String, ◌≡◌, refl, sym, ap, ◌∙◌, ◌≢◌, ◌↔◌, ◌⊎◌, inl, inr, Bool, true, false,
  not, ◌&&◌, ◌||◌, Option, none, some, List, [], ◌∷◌, ◌++◌, map, append_assoc, append-nil,
  map-append, arith,
}
use authnd.Schema.{Schema}
use authnd.SiteSchema.{
  Element, Position, Definition, Definitions, no_definitions, BuildKind, BuildError, Built, since,
  Owned, word, key, owned_kinds, names_of, add_owners, object_identifiers, syntaxes, matching_rules,
  attribute_types, object_classes, content_rules, name_forms, structure_rules, duplicate_oid,
  duplicate_name, other_kind, built, build_error, other_error,
}
use authnd.SiteSchema.Refusals.{refusal, Refusal, said}

-- schema.File
pub record File : Type 0 where
  pub name : Text
  pub data_of : Text

-- addition
pub record Addition : Type 0 where
  pub place : Text
  pub defs : Definitions

-- The files read so far and what they define together, who owns it, and what each added.
pub record Progress : Type 0 where
  pub files : List File
  pub site : Definitions
  pub owners : Map Owned
  pub added : List Addition

pub data Loaded : Type 0 where
  ok : Progress → Loaded
  unreadable : Text → Loaded
  garbled : Text → Loaded
  refused : Text → Refusal → Loaded

-- A file or block in the order of the configuration: its place as an addition names it, as a
-- refusal names it, and its text, none where it cannot be read.
pub record Input : Type 0 where
  pub place : Text
  pub at : Text
  pub file : Option File

module _ (u : Casing) (parse : List File → Option Definitions) (build : List Definitions → Built)
    (before : List Definitions) where
  with_built : Input → File → Definitions → Progress → Built → Loaded
  unfolding add_owners since refusal
  with_built i f all_of p (built s) = ok (record {
    files = p.files ++ f ∷ [];
    site = all_of;
    owners = add_owners u (since all_of p.site) i.place p.owners;
    added = p.added ++ record { place = i.place; defs = since all_of p.site } ∷ [];
  })
  with_built i f all_of p (build_error be) =
      refused i.at (refusal u be (since all_of p.site) p.owners i.at)
  with_built i f all_of p (other_error t) = refused i.at (said t)

  with_parsed : Input → File → Progress → Option Definitions → Loaded
  unfolding with_built
  with_parsed i f p none = garbled i.at
  with_parsed i f p (some all_of) = with_built i f all_of p (build (before ++ all_of ∷ []))

  with_file : Input → Progress → Option File → Loaded
  unfolding with_parsed
  with_file i p none = unreadable i.at
  with_file i p (some f) = with_parsed i f p (parse (p.files ++ f ∷ []))

  -- One file or block after the other; the first that fails ends it.
  unfoldable pub add_inputs : List Input → Progress → Loaded
  unfolding with_file
  add_inputs [] p = ok p
  add_inputs (i ∷ is) p = elim (with_file i p i.file) [
    | ok q ↦ add_inputs is q
    | unreadable t ↦ unreadable t
    | garbled t ↦ garbled t
    | refused t r ↦ refused t r
  ]

-- schema.StandardFiles, samba.schema, schema.Read, hclschema.Decode and schema.BuildFrom.
pub record Library : Type 0 where
  pub standard : List File
  pub samba : File
  pub read : List File → Option Definitions
  pub decode : List File → Option Definitions
  pub build : List Definitions → Built

-- What directorySchema comes to; `not_loaded` holds the reason of a file, and `not_decoded` of a
-- block.
pub data Directory : Type 0 where
  served : Schema → List Addition → Directory
  no_standard blocks_misplaced unbuilt : Directory
  not_loaded not_decoded : Loaded → Directory

pub base_files : Library → Bool → List File
base_files lib samba = if samba then lib.standard ++ lib.samba ∷ [] else lib.standard

pub base_place : Bool → Text
base_place samba =
    if samba
    then codes "the standard schema, or samba.schema (the samba block)"
    else codes "the standard schema"

finished : List Addition → Built → Directory
finished added (built s) = served s added
finished added _ = unbuilt

module _ (u : Casing) (lib : Library) (base : Definitions) where
  with_blocks : Definitions → Loaded → Directory
  unfolding finished
  with_blocks site (ok q) = finished q.added (lib.build (base ∷ site ∷ q.site ∷ []))
  with_blocks site l = not_decoded l

  with_inputs : Option (List Input) → Loaded → Directory
  unfolding with_blocks add_inputs
  with_inputs none (ok p) = blocks_misplaced
  with_inputs (some blocks) (ok p) = with_blocks p.site (
      add_inputs u lib.decode lib.build (base ∷ p.site ∷ []) blocks
        (record p { files = []; site = no_definitions }))
  with_inputs blocks l = not_loaded l

  -- The base built, and then what the configuration adds; `blocks` is what schemaBlockFiles makes.
  with_base : Bool → List Input → Option (List Input) → Built → Directory
  unfolding with_inputs add_inputs add_owners base_place
  with_base samba [] (some []) (built s) = served s []
  with_base samba files blocks (built s) = with_inputs blocks (
      add_inputs u lib.read lib.build (base ∷ []) files (record {
        files = [];
        site = no_definitions;
        owners = add_owners u base (base_place samba) [];
        added = [];
      }))
  with_base samba files blocks _ = unbuilt

unfoldable pub with_standard :
    Casing → Library → Bool → List Input → Option (List Input) → Option Definitions → Directory
unfolding with_base
with_standard u lib samba files blocks none = no_standard
with_standard u lib samba files blocks (some base) =
    with_base u lib base samba files blocks (lib.build (base ∷ []))

-- directorySchema
unfoldable pub directory_schema :
    Casing → Library → Bool → List Input → Option (List Input) → Directory
unfolding with_standard base_files
directory_schema u lib samba files blocks =
    with_standard u lib samba files blocks (lib.read (base_files lib samba))
