-- ===== src/Base/Texts.antt =====
-- Texts as lists of numbers (code points where case matters, bytes where it does not), and the
-- functions of Go's package strings that the program calls.
use Prim.Native.Nat.{ℕ, ◌+◌, ◌-◌, ◌<◌}
use Prim.Native.Char.{code}
use Prim.Native.String.{String}
use mathlib.Core.Path.{◌≡◌, refl}
use mathlib.Core.Logic.{◌↔◌, ◌≢◌}
use mathlib.Core.Bool.{Bool, true, false, ◌&&◌, ◌||◌}
use mathlib.Core.Option.{Option, none, some}
use mathlib.Core.List.{List, [], ◌∷◌, ◌++◌, map}
use native.Mathlib.Omega.{arith}
use authnd.Base.Bools.{leb, ◌==◌, if◌then◌else◌}
use authnd.Base.Lists.{length, drop, length-append, drop-append}

abbrev pub Text : Type 0
Text = List ℕ

abbrev pub codes : String → Text
codes String.[] = []
codes (String.◌∷◌ c s) = code c ∷ codes s

unfoldable pub text_eq : Text → Text → Bool
text_eq [] [] = true
text_eq (a ∷ s) (b ∷ t) = (a == b) && text_eq s t
text_eq _ _ = false

pub text_eq_refl : (s : Text) → text_eq s s ≡ true
unfolding text_eq
text_eq_refl [] = refl
text_eq_refl (a ∷ s) = ground (arith, text_eq_refl s)

eq_of_text_eq : (s t : Text) → text_eq s t ≡ true → s ≡ t
unfolding text_eq
eq_of_text_eq [] [] h = refl
eq_of_text_eq (a ∷ s) (b ∷ t) h = ground (arith, eq_of_text_eq s t)
eq_of_text_eq [] (b ∷ t) h = ground arith
eq_of_text_eq (a ∷ s) [] h = ground arith

text_eq_of_eq : (s t : Text) → s ≡ t → text_eq s t ≡ true
text_eq_of_eq s t e = ground (arith, text_eq_refl s)

pub text_eq_iff : (s t : Text) → (text_eq s t ≡ true) ↔ (s ≡ t)
text_eq_iff s t = (eq_of_text_eq s t, text_eq_of_eq s t)

-- The empty text: `s == ""`.
abbrev pub is_empty : Text → Bool
is_empty [] = true
is_empty (_ ∷ _) = false

-- unicode.ToLower of an ASCII letter.
abbrev pub ascii_lower : ℕ → ℕ
ascii_lower c = if leb 65 c && leb c 90 then c + 32 else c

-- unicode.ToUpper of an ASCII letter.
abbrev pub ascii_upper : ℕ → ℕ
ascii_upper c = if leb 97 c && leb c 122 then c - 32 else c

-- The Unicode tables behind strings.ToLower and strings.ToUpper, of which only the ASCII rows are
-- assumed.
pub record Casing : Type 0 where
  pub lower : ℕ → ℕ
  pub lower_ascii : (c : ℕ) → c < 128 → lower c ≡ ascii_lower c
  pub upper : ℕ → ℕ
  pub upper_ascii : (c : ℕ) → c < 128 → upper c ≡ ascii_upper c

-- strings.ToLower
abbrev pub to_lower : Casing → Text → Text
to_lower u s = map u.lower s

-- strings.ToUpper
abbrev pub to_upper : Casing → Text → Text
to_upper u s = map u.upper s

-- strings.Contains(s, sep) for a separator of one character.
abbrev pub contains : ℕ → Text → Bool
contains sep [] = false
contains sep (c ∷ s) = (c == sep) || contains sep s

-- strings.Cut(s, sep) for a separator of one character.
unfoldable pub cut : ℕ → Text → Option (Text × Text)
cut sep [] = none
cut sep (c ∷ s) =
    if c == sep
    then some ([], s)
    else elim (cut sep s) [ none ↦ none | some (before, after) ↦ some (c ∷ before, after) ]

-- strings.Split(s, sep) for a separator of one character.
unfoldable pub split : ℕ → Text → List Text
split sep [] = [] ∷ []
split sep (c ∷ s) = elim (split sep s) [
  | [] ↦ []
  | word ∷ words ↦ if c == sep then [] ∷ word ∷ words else (c ∷ word) ∷ words
]

-- strings.CutPrefix(s, prefix)
unfoldable pub cut_prefix : Text → Text → Option Text
cut_prefix [] s = some s
cut_prefix (p ∷ ps) [] = none
cut_prefix (p ∷ ps) (c ∷ s) = if c == p then cut_prefix ps s else none

-- strings.HasSuffix(s, suffix)
unfoldable pub has_suffix : Text → Text → Bool
has_suffix s suffix =
    leb (length suffix) (length s) && text_eq (drop (length s - length suffix) s) suffix

-- No character of the text is `sep`.
abbrev pub Free : ℕ → Text → Type 0
Free sep [] = Unit
Free sep (c ∷ s) = (c ≢ sep) × Free sep s

pub cut-append :
    (sep : ℕ) (before after : Text)
    → Free sep before
    → cut sep (before ++ sep ∷ after) ≡ some (before, after)
unfolding cut
cut-append sep [] after h = ground arith
cut-append sep (c ∷ before) after h = ground (arith, cut-append sep before after h.1)

pub cut-none_of_Free : (sep : ℕ) (s : Text) → Free sep s → cut sep s ≡ none
unfolding cut
cut-none_of_Free sep [] h = refl
cut-none_of_Free sep (c ∷ s) h = ground (arith, cut-none_of_Free sep s h.1)

-- What a cut returns is the text that was cut.
pub append_of_cut :
    (sep : ℕ) (s before after : Text) → cut sep s ≡ some (before, after) → s ≡ before ++ sep ∷ after
unfolding cut
append_of_cut sep [] before after h = ground arith
append_of_cut sep (c ∷ s) [] after h = ground (arith, cut)
append_of_cut sep (c ∷ s) (b ∷ before) after h = ground (arith, append_of_cut sep s before after)

pub cut_prefix-append : (p s : Text) → cut_prefix p (p ++ s) ≡ some s
unfolding cut_prefix
cut_prefix-append [] s = refl
cut_prefix-append (c ∷ p) s = ground (arith, cut_prefix-append p s)

pub append_of_cut_prefix : (p s r : Text) → cut_prefix p s ≡ some r → s ≡ p ++ r
unfolding cut_prefix
append_of_cut_prefix [] s r h = ground arith
append_of_cut_prefix (c ∷ p) [] r h = ground arith
append_of_cut_prefix (c ∷ p) (d ∷ s) r h = ground (arith, append_of_cut_prefix p s r)

pub has_suffix-append : (s suffix : Text) → has_suffix (s ++ suffix) suffix ≡ true
unfolding has_suffix
has_suffix-append s suffix =
    let n : length (s ++ suffix) - length suffix ≡ length s =
      omega (arith, length-append s suffix) in
    rw (n, drop-append s suffix) (ground (arith, text_eq_refl suffix, length-append s suffix))
