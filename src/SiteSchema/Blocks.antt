-- ===== src/SiteSchema/Blocks.antt =====
-- siteschema.go, `schemaBlockFiles`: each schema block as a file of its own.
pub mod Unmoved
use authnd.Base.{
  ltb, leb, ◌==◌, if◌then◌else◌, ltb→lt, lt→ltb, leb→le, ==_iff, Bool-cases, Option-cases, is_some,
  length, take, drop, any, all, keep, length-append, take-append, drop-append, take-append-drop,
  length-take, length-drop, All, Text, codes, text_eq_refl, text_eq_iff, is_empty, ascii_lower,
  ascii_upper, Casing, to_lower, to_upper, contains, Free, cut-append, cut-none_of_Free,
  append_of_cut, cut_prefix-append, append_of_cut_prefix, has_suffix-append, text_eq, cut, split,
  parse_uint, format_uint, parse_uint-format_uint, cut_prefix, has_suffix, Map, get-put, get-remove,
  get, put, remove, ℤ, pos, negsuc, int_ltb, wrap_int64, ℕ, zero, suc, ◌+◌, ◌-◌, ◌*◌, ◌/◌, ◌%◌, ◌^◌,
  ◌≤◌, ◌<◌, max, min, String, ◌≡◌, refl, sym, ap, ◌∙◌, ◌≢◌, ◌↔◌, ◌⊎◌, inl, inr, Bool, true, false,
  not, ◌&&◌, ◌||◌, Option, none, some, List, [], ◌∷◌, ◌++◌, map, append_assoc, append-nil,
  map-append, arith,
}
use authnd.Config.{Range}

-- A schema block: whether it is of HCL's native syntax, where it is defined, and the bytes of its
-- body, r.Start.Byte and r.End.Byte in the file of that name.
pub record Block : Type 0 where
  pub native : Bool
  pub def_range : Range
  pub filename : Text
  pub start : ℤ
  pub end : ℤ

-- position
unfoldable pub position : Range → Text
position r =
    if is_empty r.filename
    then codes "?"
    else r.filename ++ (b':' ∷ format_uint r.line) ++ (b':' ∷ format_uint r.column)

abbrev newline : ℕ
newline = 10

-- Every byte but a line break becomes a space.
unfoldable pub blank_byte : ℕ → ℕ
blank_byte c = if c == newline then newline else b' '

unfoldable pub blank : Text → Text
unfolding blank_byte
blank [] = []
blank (c ∷ cs) = blank_byte c ∷ blank cs

-- Whether the byte of this number is `c`.
unfoldable pub has_at : ℕ → ℕ → Text → Bool
has_at i c src = elim (drop i src) [ [] ↦ false | x ∷ xs ↦ x == c ]

-- The bytes between the braces, where they are there.
unfoldable pub between : Text → ℕ → ℕ → ℕ × ℕ
unfolding has_at
between src start end =
    if has_at start b'{' src && has_at (end - 1) b'}' src
    then (start + 1, end - 1)
    else (start, end)

-- data, of schemaBlockFiles
unfoldable pub data_from : Text → ℕ × ℕ → Text
unfolding blank
data_from src (start, end) = blank (take start src) ++ drop start (take end src)

unfoldable pub data_within : Text → ℤ → ℤ → Option Text
unfolding data_from between
data_within src (pos start) (pos end) =
    if leb end (length src) && ltb start end
    then some (data_from src (between src start end))
    else none
data_within src _ _ = none

unfoldable pub data_in : Option Text → ℤ → ℤ → Option Text
unfolding data_within
data_in none start end = none
data_in (some src) start end = data_within src start end

-- The file of one block; none where the block is refused.
unfoldable pub block_file : Map Text → Block → Option Text
unfolding data_in get
block_file sources b = if b.native then data_in (get b.filename sources) b.start b.end else none

-- schemaBlockFiles
unfoldable pub schema_block_files : Map Text → List Block → Option (List (Text × Text))
unfolding block_file
schema_block_files sources [] = some []
schema_block_files sources (b ∷ bs) =
    let rest = schema_block_files sources bs in
    elim (block_file sources b) [
      | none ↦ none
      | some d ↦ elim rest [ none ↦ none | some fs ↦ some ((b.filename, d) ∷ fs) ]
    ]
