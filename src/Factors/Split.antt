-- ===== src/Factors/Split.antt =====
-- `splitCode`: where the password ends and the code begins.
use authnd.Base.{
  length, take, drop, length-append, take-append, drop-append, take-append-drop, length-take,
  length-drop, Text, pos, ℕ, ◌-◌, ◌≤◌, ◌<◌, ◌≡◌, sym, ap, ◌∙◌, ◌↔◌, none, some, ◌++◌, arith,
}
use authnd.Factors.{split_code}

-- A password that is not empty, followed by a code of the configured length, is split into the two.
pub split_code-append :
    (password code : Text) (n : ℕ)
    → length code ≡ n
    → 0 < length password
    → split_code (password ++ code) (pos n) ≡ some (password, code)
unfolding split_code
split_code-append password code n e h =
    let l : length (password ++ code) - n ≡ length password =
      omega (arith, length-append password code) in
    rw (l, take-append password code, drop-append password code)
      (ground (arith, length-append password code))

-- What is split off puts the field together again, the code has the configured length, and the
-- password is not empty; a field that is no longer than a code is not split.
pub split_code_exact :
    (given : Text) (n : ℕ)
    → ((split_code given (pos n) ≡ none) ↔ (length given ≤ n))
      × ((password code : Text)
          → split_code given (pos n) ≡ some (password, code)
          → (password ++ code ≡ given) × (length code ≡ n) × (0 < length password))
unfolding split_code
split_code_exact given n = (
  (λ e. ground arith, λ e. ground arith),
  λ password code e.
      let at : ℕ = length given - n in
      let p : password ≡ take at given = ground arith in
      let c : code ≡ drop at given = ground arith in
      let lt : n < length given = ground arith in
      rw (p, c)
        (
          take-append-drop at given,
          omega (arith, length-drop at given),
          omega (arith, length-take at given),
        ),
)

-- A field of what was typed is split into a password and a code exactly where the two make up the
-- field, the code has the configured length, and the password is not empty.
split_code_iff :
    (given : Text) (n : ℕ) (password code : Text)
    → (split_code given (pos n) ≡ some (password, code))
      ↔ ((password ++ code ≡ given) × (length code ≡ n) × (0 < length password))
split_code_iff given n password code = (
  λ h. (split_code_exact given n).1 password code h,
  λ (joined, len, some_password).
      ap (λ x. split_code x (pos n)) (sym joined)
      ∙ split_code-append password code n len some_password,
)
