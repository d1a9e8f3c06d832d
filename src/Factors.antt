-- ===== src/Factors.antt =====
-- factors.go: the password and the one-time code of one bind, as the factors of go-authn/mfa.
-- The policy engine (mfa.Verify) and the code verifier (totp.Verifier) are parameters.
pub mod Split
pub mod Asked
pub mod Tests
use authnd.Base.{
  leb, ◌==◌, if◌then◌else◌, length, take, drop, All, Text, is_empty, Map, ℤ, pos, negsuc, ℕ, ◌+◌,
  ◌-◌, ◌≤◌, ◌≡◌, Bool, true, Option, none, some, List, [], ◌∷◌,
}
use authnd.Config.{MfaBlock}
use authnd.Directory.{Outcome, proved, wrong, outage, Reply}
use authnd.Pending.{within}

-- mfa.Kind
pub data Kind : Type 0 where
  knowledge possession inherence unknown : Kind

-- The error of a factor: mfa.Unavailable, directory.ErrUnavailable, a wrong answer, errNotCounted.
pub data FactorError : Type 0 where
  unavailable source_outage refused not_counted : FactorError

-- What a bind's factors read and write: the checks that wait on sources, what totp.Verifier
-- remembers, the memo of the password's sync.Once, and how often the source was asked.
pub record World (C : Type 0) : Type 0 where
  pub pending : Map ℕ
  pub codes : C
  pub memo : Option (Option FactorError)
  pub asked : ℕ

pub record Factor (C : Type 0) : Type 0 where
  pub kind : Kind
  pub verify : World C → World C × Option FactorError

-- mfa.Policy
pub record Policy : Type 0 where
  pub count : ℕ
  pub distinct_kinds : Bool

-- `knowledge`: the check (nil where there is none), and the source that it waits on.
pub record Knowledge : Type 0 where
  pub check : Option (Text → Reply)
  pub given : Text
  pub where_ : Text

-- mfaDigits
unfoldable pub mfa_digits : Option MfaBlock → ℤ
mfa_digits none = pos 6
mfa_digits (some m) = elim m.digits [
  | pos n ↦ if n == 0 then pos 6 else pos n
  | negsuc n ↦ negsuc n
]

-- splitCode. A negative length, which `check` refuses, would be a slice out of range.
unfoldable pub split_code : Text → ℤ → Option (Text × Text)
split_code given (pos n) =
    if leb (length given) n
    then none
    else some (take (length given - n) given, drop (length given - n) given)
split_code given (negsuc n) = none

-- totp.Verifier, for a name, its secret and a code: what it remembers then, and its error.
abbrev pub Count : Type 0 → Type 0
Count C = C → Text → Text → Text → C × Option FactorError

error_of : Outcome → Option FactorError
error_of proved = none
error_of wrong = some refused
error_of outage = some source_outage

-- The function under sync.Once: the pending checks, the error, and whether the source was asked.
unfoldable pub check_once : Knowledge → Map ℕ → Map ℕ × Option FactorError × ℕ
unfolding error_of
check_once k pending = elim k.check [
  | none ↦ (pending, some unavailable, 0)
  | some ask ↦
      let (pending', o) = within k.where_ (ask k.given) pending in (pending', error_of o, 1)
]

module _ {C : Type 0} where
  remember : World C → Map ℕ × Option FactorError × ℕ → World C × Option FactorError
  remember w (pending, e, n) =
      (record w { pending = pending; memo = some e; asked = w.asked + n }, e)

  -- knowledge.Verify
  pub verify_knowledge : Knowledge → World C → World C × Option FactorError
  unfolding remember
  verify_knowledge k w = elim w.memo [
    | none ↦ remember w (check_once k w.pending)
    | some e ↦ (w, e)
  ]

  -- totp.Factor's Verify: it counts the code against `name`.
  pub count_code : Count C → Text → Text → Text → World C → World C × Option FactorError
  count_code count name secret code w =
      let (codes, e) = count w.codes name secret code in (record w { codes = codes }, e)

  after : Count C → Text → Text → Text → World C × Option FactorError → World C × Option FactorError
  after count name secret code (w, none) = count_code count name secret code w
  after count name secret code (w, some e) =
      if is_empty secret then count_code count name secret code w else (w, some not_counted)

  -- afterPassword.Verify
  pub verify_code :
      Count C → Knowledge → Text → Text → Text → World C → World C × Option FactorError
  unfolding after
  verify_code count k name secret code w = after count name secret code (verify_knowledge k w)

  -- The factors of a bind: the password, and codeBehind it.
  unfoldable pub bind_factors : Count C → Knowledge → Text → Text → Text → List (Factor C)
  bind_factors count k name secret code =
      record { kind = knowledge; verify = verify_knowledge k }
      ∷ record { kind = possession; verify = verify_code count k name secret code }
      ∷ []

-- mfa.Verify's answer: whether the policy is satisfied, what each factor said, and whether the
-- error it returned is an outage.
pub record Verdict : Type 0 where
  pub accepted : Bool
  pub answers : List (Option FactorError)
  pub error_outage : Bool

-- go-authn/mfa's Verify, with what is relied on: it acts on the world by asking the factors it is
-- given and in no other way, and where the policy wants as many factors as there are, it accepts
-- only when each of them answered without an error in a state that was so reached.
pub record Mfa (C : Type 0) : Type 1 where
  pub verify : Policy → List (Factor C) → World C → World C × Verdict
  pub keeps :
      (p : Policy) (fs : List (Factor C)) (w : World C) (P : World C → Type 0)
      → All (λ (f : Factor C). (v : World C) → P v → P (f.verify v).0) fs
      → P w
      → P (verify p fs w).0
  pub accepts :
      (p : Policy) (fs : List (Factor C)) (w : World C) (P : World C → Type 0)
      → All (λ (f : Factor C). (v : World C) → P v → P (f.verify v).0) fs
      → P w
      → length fs ≤ p.count
      → (verify p fs w).1.accepted ≡ true
      → All (λ (f : Factor C). (v : World C) × P v × ((f.verify v).1 ≡ none)) fs
