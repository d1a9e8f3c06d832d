-- ===== src/SiteSchema/Blocks/Unmoved.antt =====
-- siteschema.go, `schemaBlockFiles`: where each byte of a block's file stands.
use mathlib.Core.Path.{subst}
use authnd.Base.{
  ltb, leb, ◌==◌, if◌then◌else◌, ==_iff, Bool-cases, length, take, drop, length-append, drop-append,
  take-append-drop, length-take, length-drop, Text, Map, get, ℤ, pos, negsuc, ℕ, zero, suc, ◌+◌,
  ◌-◌, ◌≤◌, ◌<◌, ◌≡◌, refl, sym, ap, ◌∙◌, ◌≢◌, inl, inr, true, false, ◌&&◌, some, [], ◌∷◌, ◌++◌,
  arith,
}
use authnd.SiteSchema.Blocks.{
  has_at, blank_byte, blank, between, data_from, data_within, data_in, Block, block_file,
}

-- The line and the column after one byte.
unfoldable pub next : ℕ × ℕ → ℕ → ℕ × ℕ
next (line, column) c = if c == 10 then (line + 1, 1) else (line, column + 1)

-- The line and the column after a text, from those before it; columns are counted in bytes, where
-- HCL counts grapheme clusters.
unfoldable pub line_column : ℕ × ℕ → Text → ℕ × ℕ
line_column p [] = p
line_column p (c ∷ cs) = line_column (next p c) cs

next-blank : (p : ℕ × ℕ) (c : ℕ) → next p (blank_byte c) ≡ next p c
unfolding next blank_byte
next-blank (line, column) c = elim (Bool-cases (c == 10)) [
  | inl y ↦ ground (arith, y)
  | inr off ↦ ground (arith, off)
]

take-take : (m n : ℕ) (xs : Text) → m ≤ n → take m (take n xs) ≡ take m xs
take-take zero n xs h = refl
take-take (suc m) zero xs h = absurd (omega arith)
take-take (suc m) (suc n) [] h = refl
take-take (suc m) (suc n) (x ∷ xs) h = ap (λ l. x ∷ l) (take-take m n xs (omega arith))

line_column-blank :
    (p : ℕ × ℕ) (k : ℕ) (xs ys : Text)
    → line_column p (take k (blank xs ++ ys)) ≡ line_column p (take k (xs ++ ys))
unfolding line_column blank
line_column-blank p k [] ys = refl
line_column-blank p zero (x ∷ xs) ys = refl
line_column-blank p (suc k) (x ∷ xs) ys =
    ap (λ q. line_column q (take k (blank xs ++ ys))) (next-blank p x)
    ∙ line_column-blank (next p x) k xs ys

data_from-unmoved :
    (src : Text) (p : ℕ × ℕ) (start end k : ℕ)
    → start ≤ end
    → line_column p (take k (data_from src (start, end))) ≡ line_column p (take k (take end src))
unfolding data_from
data_from-unmoved src p start end k h =
    let whole : take start src ++ drop start (take end src) ≡ take end src =
      ap (λ l. l ++ drop start (take end src)) (sym (take-take start end src h))
      ∙ take-append-drop start (take end src) in
    line_column-blank p k (take start src) (drop start (take end src))
    ∙ ap (λ l. line_column p (take k l)) whole

length-blank : (xs : Text) → length (blank xs) ≡ length xs
unfolding blank
length-blank [] = refl
length-blank (x ∷ xs) = ap suc (length-blank xs)

drop-length : (n : ℕ) (xs ys : Text) → length xs ≡ n → drop n (xs ++ ys) ≡ ys
drop-length n xs ys h = subst (λ m. drop m (xs ++ ys) ≡ ys) h (drop-append xs ys)

-- The file of a block against the first `end` bytes of its source: it is as long, has every byte at
-- the line and the column where the source has it, and is the same text from `start` on.
pub record IsUnmoved (src : Text) (start : ℕ) (end : ℕ) (d : Text) : Type 0 where
  pub is_within : end ≤ length src
  pub is_as_long : length d ≡ end
  pub unmoved : (k : ℕ) → line_column (1, 1) (take k d) ≡ line_column (1, 1) (take k (take end src))
  pub same : drop start d ≡ drop start (take end src)

data_from-IsUnmoved :
    (src : Text) (start end : ℕ)
    → start ≤ end
    → end ≤ length src
    → IsUnmoved src start end (data_from src (start, end))
unfolding data_from
data_from-IsUnmoved src start end h g =
    let blanked : length (blank (take start src)) ≡ start =
      length-blank (take start src) ∙ length-take start src (omega (arith, h, g)) in
    let rest : length (drop start (take end src)) ≡ end - start =
      length-drop start (take end src) ∙ ap (λ n. n - start) (length-take end src g) in
    let size : length (data_from src (start, end)) ≡ end =
      length-append (blank (take start src)) (drop start (take end src))
      ∙ omega (arith, blanked, rest, h) in
    record {
      is_within = g;
      is_as_long = size;
      unmoved = λ k. data_from-unmoved src (1, 1) start end k h;
      same = drop-length start (blank (take start src)) (drop start (take end src)) blanked;
    }

-- The number of a byte; schemaBlockFiles refuses the others.
abbrev pub byte : ℤ → ℕ
byte (pos n) = n
byte (negsuc n) = 0

-- What a block's file shows of the source: its body, without the braces.
abbrev pub body : Text → Block → ℕ × ℕ
body src b = between src (byte b.start) (byte b.end)

has_at_unique : (i c d : ℕ) (src : Text) → has_at i c src ≡ true → has_at i d src ≡ true → c ≡ d
unfolding has_at
has_at_unique i c d src h g = go (drop i src) h g
  where
    go :
        (l : Text)
        → elim l [ [] ↦ false | x ∷ xs ↦ x == c ] ≡ true
        → elim l [ [] ↦ false | x ∷ xs ↦ x == d ] ≡ true
        → c ≡ d
    go [] h g = cc
    go (x ∷ xs) h g = omega (arith, (==_iff x c).0 h, (==_iff x d).0 g)

between-ordered :
    (src : Text) (m n : ℕ)
    → m < n
    → ((between src m n).0 ≤ (between src m n).1) × ((between src m n).1 ≤ n)
unfolding between
between-ordered src m n h = elim (Bool-cases (has_at m b'{' src && has_at (n - 1) b'}' src)) [
  | inl y ↦
      let opens : has_at m b'{' src ≡ true = ground (arith, y) in
      let closes : has_at (n - 1) b'}' src ≡ true = ground (arith, y) in
      let apart : m ≢ n - 1 = λ e. absurd (
        omega (
          arith,
          has_at_unique m b'{' b'}' src opens
              (subst (λ i. has_at i b'}' src ≡ true) (sym e) closes),
        )) in
      let both_there : between src m n ≡ (m + 1, n - 1) = ground (arith, y) in
      (ground (arith, both_there, apart, h), ground (arith, both_there))
  | inr off ↦
      let as_it_is : between src m n ≡ (m, n) = ground (arith, off) in
      (ground (arith, as_it_is, h), ground (arith, as_it_is))
]

data_within-IsUnmoved :
    (src d : Text) (s e : ℤ)
    → data_within src s e ≡ some d
    → IsUnmoved src (between src (byte s) (byte e)).0 (between src (byte s) (byte e)).1 d
unfolding data_within
data_within-IsUnmoved src d (pos m) (pos n) h = elim (Bool-cases (leb n (length src) && ltb m n)) [
  | inl y ↦
      let is_data : data_from src (between src m n) ≡ d = ground (arith, h, y) in
      let bounded : n ≤ length src = ground (arith, y) in
      let (ordered, below) = between-ordered src m n (ground (arith, y)) in
      subst (IsUnmoved src (between src m n).0 (between src m n).1) is_data (
        data_from-IsUnmoved src (between src m n).0 (between src m n).1 ordered
          (omega (arith, below, bounded)))
  | inr off ↦ absurd (ground (arith, h, off))
]
data_within-IsUnmoved src d (pos m) (negsuc n) h = absurd (ground (arith, h))
data_within-IsUnmoved src d (negsuc m) e h = absurd (ground (arith, h))

-- The file that a schema block is decoded from is as long as the configuration file up to the end of
-- the block's body, each of its bytes is at the line and the column that it has there, and in the
-- body it is the same text.
pub block_file-IsUnmoved :
    (sources : Map Text) (b : Block) (src d : Text)
    → get b.filename sources ≡ some src
    → block_file sources b ≡ some d
    → IsUnmoved src (body src b).0 (body src b).1 d
unfolding block_file data_in
block_file-IsUnmoved sources b src d found h =
    data_within-IsUnmoved src d b.start b.end (ground (arith, found, h))
