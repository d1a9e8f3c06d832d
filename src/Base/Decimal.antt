-- ===== src/Base/Decimal.antt =====
-- strconv.ParseUint(s, 10, 64) and strconv.FormatUint(n, 10).
use Prim.Native.Nat.{ℕ, zero, suc, ◌+◌, ◌-◌, ◌*◌, ◌/◌, ◌%◌, ◌^◌, ◌<◌}
use mathlib.Core.Path.{◌≡◌, refl, ◌∙◌}
use mathlib.Core.Bool.{◌&&◌}
use mathlib.Core.Option.{Option, none, some}
use mathlib.Core.List.{[], ◌∷◌}
use native.Mathlib.Omega.{arith}
use authnd.Base.Bools.{ltb, leb, if◌then◌else◌}
use authnd.Base.Texts.{Text}

-- The value of the digits of a text, after `n`; none at a character that is no digit.
digits : ℕ → Text → Option ℕ
digits n [] = some n
digits n (c ∷ s) =
    let rest = digits (n * 10 + (c - 48)) s in if leb 48 c && leb c 57 then rest else none

below : ℕ → Option ℕ → Option ℕ
below limit none = none
below limit (some n) = if ltb n limit then some n else none

-- strconv.ParseUint(s, 10, 64): none for a syntax or a range error.
unfoldable pub parse_uint : Text → Option ℕ
unfolding digits below
parse_uint [] = none
parse_uint (c ∷ s) = below (2 ^ 64) (digits 0 (c ∷ s))

-- The digits of `n` in front of `rest`; fuel above `n` is enough.
print_digits : ℕ → ℕ → Text → Text
print_digits zero n rest = rest
print_digits (suc f) n rest =
    let more = print_digits f (n / 10) ((48 + n % 10) ∷ rest) in
    if ltb n 10 then (48 + n) ∷ rest else more

-- strconv.FormatUint(n, 10)
unfoldable pub format_uint : ℕ → Text
unfolding print_digits
format_uint n = print_digits (suc n) n []

digits-print_digits :
    (f n : ℕ) (rest : Text) → n < f → digits 0 (print_digits f n rest) ≡ digits n rest
unfolding digits print_digits
digits-print_digits zero n rest h = absurd (omega arith)
digits-print_digits (suc f) n rest h =
    ground (arith, digits-print_digits f (n / 10) ((48 + n % 10) ∷ rest))

-- A text of digits is not empty, so `parse_uint` reads it by `digits`.
parse_uint_eq :
    (s : Text) (n : ℕ) → digits 0 s ≡ some n → 0 < n → parse_uint s ≡ below (2 ^ 64) (some n)
unfolding digits parse_uint below
parse_uint_eq [] n h p = ground arith
parse_uint_eq (c ∷ s) n h p = ground arith

-- A number below 2^64 is read back from what FormatUint prints.
pub parse_uint-format_uint : (n : ℕ) → n < 2 ^ 64 → parse_uint (format_uint n) ≡ some n
unfolding format_uint parse_uint digits below
parse_uint-format_uint zero h = refl
parse_uint-format_uint (suc n) h =
    parse_uint_eq (print_digits (suc (suc n)) (suc n) []) (suc n)
      (digits-print_digits (suc (suc n)) (suc n) [] (omega arith)) (omega arith)
    ∙ ground arith
