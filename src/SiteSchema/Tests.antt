-- ===== src/SiteSchema/Tests.antt =====
-- A site with one schema file and one schema block.
use authnd.Base.{
  length, drop, Text, codes, text_eq, Map, get, put, pos, ◌≡◌, refl, sym, ap, ◌∙◌, true, false,
  Option, none, some, List, [], ◌∷◌, ◌++◌, map, map-append,
}
use authnd.Fixtures.{ascii}
use authnd.Samples.{schema}
use authnd.SiteSchema.{
  Element, object_identifiers, syntaxes, matching_rules, attribute_types, object_classes,
  content_rules, name_forms, structure_rules, Definition, Definitions, no_definitions, built,
  BuildError, duplicate_oid, Position, add_owners,
}
use authnd.SiteSchema.Refusals.{refusal, redefinition, at_position, first_place}
use authnd.SiteSchema.Loading.{File, Addition, Input, Library, served, directory_schema}
use authnd.SiteSchema.Loading.Added.{Appends}
use authnd.SiteSchema.Loading.Whole.{IsWhole, directory_schema-IsWhole}
use authnd.SiteSchema.Blocks.{Block, block_file}
use authnd.SiteSchema.Blocks.Unmoved.{IsUnmoved, block_file-IsUnmoved}

-- A file defines one attribute type, named by its text.
abbrev type_of : File → Definition
type_of f = record { oid = f.data_of; names = f.data_of ∷ []; pos = none; text = f.data_of }

abbrev types_of : List File → Definitions
types_of fs attribute_types = map type_of fs
types_of fs _ = []

abbrev plain_read : List File → Option Definitions
plain_read fs = some (types_of fs)

abbrev defined : Option Definitions → Definitions
defined none = no_definitions
defined (some ds) = ds

types_of-append :
    (fs : List File) (f : File) (k : Element)
    → types_of (fs ++ f ∷ []) k ≡ types_of fs k ++ types_of (f ∷ []) k
types_of-append fs f attribute_types = map-append type_of fs (f ∷ [])
types_of-append fs f object_identifiers = refl
types_of-append fs f syntaxes = refl
types_of-append fs f matching_rules = refl
types_of-append fs f object_classes = refl
types_of-append fs f content_rules = refl
types_of-append fs f name_forms = refl
types_of-append fs f structure_rules = refl

plain-Appends : Appends plain_read
plain-Appends fs f before after e g k = (
  types_of (f ∷ []) k,
  ap (λ o. defined o k) (sym g)
      ∙ types_of-append fs f k
      ∙ ap (λ o. defined o k ++ types_of (f ∷ []) k) e,
)

abbrev lib : Library
lib = record {
  standard = record { name = codes "core.schema"; data_of = codes "cn" } ∷ [];
  samba = record { name = codes "samba.schema"; data_of = codes "sambaSID" };
  read = plain_read;
  decode = plain_read;
  build = λ parts. built schema;
}

abbrev room_file : Input
room_file = record {
  place = codes "room.schema";
  at = codes "room.schema";
  file = some (record { name = codes "room.schema"; data_of = codes "room" });
}

abbrev badge_block : Input
badge_block = record {
  place = codes "the schema block at site.hcl:3:1";
  at = codes "site.hcl:3:1";
  file = some (record { name = codes "site.hcl"; data_of = codes "badge" });
}

abbrev reported : List Addition
reported =
    record {
      place = codes "room.schema";
      defs = λ k.
          drop (length (no_definitions k))
            (types_of (record { name = codes "room.schema"; data_of = codes "room" } ∷ []) k);
    }
    ∷ record {
      place = codes "the schema block at site.hcl:3:1";
      defs = λ k.
          drop (length (no_definitions k))
            (types_of (record { name = codes "site.hcl"; data_of = codes "badge" } ∷ []) k);
    }
    ∷ []

site_is_served :
    directory_schema ascii lib true (room_file ∷ []) (some (badge_block ∷ []))
    ≡ served schema reported
unfolding directory_schema authnd.SiteSchema.Loading.with_standard
    authnd.SiteSchema.Loading.add_inputs
site_is_served = refl

directory_schema-IsWhole_example :
    IsWhole lib true (room_file ∷ []) (some (badge_block ∷ [])) schema reported
directory_schema-IsWhole_example =
    directory_schema-IsWhole ascii lib true (room_file ∷ []) (some (badge_block ∷ [])) schema
      reported plain-Appends plain-Appends site_is_served

-- A file that defines cn again.
abbrev cn_again : BuildError
cn_again = record {
  pos = some (record { file = codes "room.schema"; line = 4; column = 1 });
  kind = duplicate_oid;
  element = attribute_types;
  oid = codes "cn";
  name = [];
  ref_oid = codes "CN";
  ref_pos = none;
}

cn_is_owned :
    refusal ascii cn_again no_definitions
      (add_owners ascii (types_of lib.standard) (codes "the standard schema") [])
      (codes "room.schema")
    ≡ redefinition
        (at_position (record { file = codes "room.schema"; line = 4; column = 1 }))
        attribute_types
        (codes "cn")
        (codes "cn")
        (first_place (codes "the standard schema") none)
        false
unfolding refusal add_owners put get text_eq authnd.SiteSchema.Refusals.at_of
    authnd.SiteSchema.Refusals.first_of authnd.SiteSchema.Refusals.is_same
    authnd.SiteSchema.Refusals.definition_at authnd.SiteSchema.Refusals.refused_by
    authnd.SiteSchema.Refusals.previous
cn_is_owned = refl

-- "a=1\ns {\n b\n}\n", of which the block is "{\n b\n}".
abbrev source : Text
source = codes "a=1" ++ 10 ∷ codes "s {" ++ 10 ∷ codes " b" ++ 10 ∷ codes "}" ++ 10 ∷ []

abbrev small_block : Block
small_block = record {
  native = true;
  def_range = record { filename = codes "site.hcl"; line = 2; column = 1 };
  filename = codes "site.hcl";
  start = pos 6;
  end = pos 12;
}

abbrev blanked : Text
blanked = codes "   " ++ 10 ∷ codes "   " ++ 10 ∷ codes " b" ++ 10 ∷ []

abbrev sources : Map Text
sources = (codes "site.hcl", source) ∷ []

source_is_there : get small_block.filename sources ≡ some source
unfolding get text_eq
source_is_there = refl

block_is_blanked : block_file sources small_block ≡ some blanked
unfolding block_file get text_eq authnd.SiteSchema.Blocks.data_in
block_is_blanked = refl

block_file-IsUnmoved_example : IsUnmoved source 7 11 blanked
unfolding authnd.SiteSchema.Blocks.between
block_file-IsUnmoved_example =
    block_file-IsUnmoved sources small_block source blanked source_is_there block_is_blanked
