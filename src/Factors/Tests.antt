-- ===== src/Factors/Tests.antt =====
-- The factors of one bind, with a verifier that counts.
use authnd.Base.{Text, codes, text_eq, get, ℕ, ◌≡◌, refl, true, none, some, [], arith}
use authnd.Factors.{
  Factor, FactorError, refused, World, Knowledge, Count, Policy, Verdict, Mfa, check_once,
  bind_factors, split_code,
}
use authnd.Factors.Asked.{Counted, verdict_of_bind, code_counts_behind_password, two_factors_proved}
use authnd.Fixtures.{alice, env, counter, in_order}

abbrev knows : Text → Knowledge
knows given = record { check = some (env.reply alice); given = given; where_ = codes "config" }

abbrev unasked : World ℕ
unasked = record { pending = []; codes = 0; memo = none; asked = 0 }

abbrev two : Policy
two = record { count = 2; distinct_kinds = true }

is_wrong : (check_once (knows (codes "no")) []).1 ≡ some refused
unfolding check_once authnd.Pending.within authnd.Pending.acquire_check get text_eq
is_wrong = refl

is_accepted :
    (verdict_of_bind counter
      (knows (codes "pw"))
      (codes "alice")
      (codes "S")
      (codes "1")
      unasked
      in_order
      two
      (λ c name code. refl)
      refl).1.accepted
    ≡ true
unfolding bind_factors in_order authnd.Factors.verify_knowledge check_once authnd.Pending.within
    authnd.Pending.acquire_check get text_eq authnd.Factors.verify_code authnd.Factors.count_code
is_accepted = refl

code_counts_behind_password_example :
    (verdict_of_bind counter
      (knows (codes "no"))
      (codes "alice")
      (codes "S")
      (codes "1")
      unasked
      in_order
      two
      (λ c name code. refl)
      refl).0.codes
    ≡ 0
code_counts_behind_password_example =
    code_counts_behind_password counter (knows (codes "no")) (codes "alice") (codes "S") (codes "1")
      unasked in_order two (λ c name code. refl) refl (λ e. ground (arith, is_wrong, e))

two_factors_proved_example :
    ((check_once (knows (codes "pw")) []).1 ≡ none)
    × ((c : ℕ) × Counted counter (codes "alice") (codes "S") (codes "1") 0 c
        × ((counter c (codes "alice") (codes "S") (codes "1")).1 ≡ none))
two_factors_proved_example =
    two_factors_proved counter (knows (codes "pw")) (codes "alice") (codes "S") (codes "1") unasked
      in_order two (λ c name code. refl) refl (omega arith) is_accepted
