-- ===== src/Factors/Asked.antt =====
-- What the factors of one bind do, however the policy engine asks them.
use authnd.Base.{
  Bool-cases, Option-cases, All, Text, is_empty, Map, ℕ, ◌+◌, ◌≤◌, ◌≡◌, refl, sym, ap, ◌∙◌, ◌≢◌,
  inl, inr, true, Option, none, some, [], ◌∷◌, arith,
}
use authnd.Factors.{
  Factor, FactorError, unavailable, World, Knowledge, Count, Policy, Verdict, Mfa, check_once,
  verify_knowledge, count_code, verify_code, after, bind_factors,
}

pub check_once-le : (k : Knowledge) (m : Map ℕ) → (check_once k m).2 ≤ 1
unfolding check_once
check_once-le k m = ground arith

-- The verifier says that nobody is enrolled before it looks at a code, and remembers nothing then.
abbrev pub CountsEnrolled : {C : Type 0} → Count C → Type 0
CountsEnrolled {C} count = (c : C) (name code : Text) → count c name [] code ≡ (c, some unavailable)

-- The states of the code verifier after counting this code for this name, any number of times.
pub data Counted {C : Type 0} (count : Count C) (name secret code : Text) (c₀ : C)
    : C → Type 0 where
  here : Counted count name secret code c₀ c₀
  again :
      {c : C}
      → Counted count name secret code c₀ c
      → Counted count name secret code c₀ (count c name secret code).0

empty_codes :
    {C : Type 0} (count : Count C)
    → CountsEnrolled count
    → (c : C) (name secret code : Text) → is_empty secret ≡ true
    → (count c name secret code).0 ≡ c
empty_codes count enrolled c name [] code e = ap (λ r. r.0) (enrolled c name code)
empty_codes count enrolled c name (s ∷ secret) code e = cc

module _ {C : Type 0} (count : Count C) (k : Knowledge) (name secret code : Text)
    (w₀ : World C) where
  -- What holds in every state that a bind reaches from `w₀`: the source has been asked once or
  -- not at all, the memo is its answer, and behind a wrong password no code has been counted.
  pub record IsAsked (w : World C) : Type 0 where
    pub fresh : w.memo ≡ none → (w.asked ≡ w₀.asked) × (w.pending ≡ w₀.pending)
    pub known :
        (e : Option FactorError)
        → w.memo ≡ some e
        → (e ≡ (check_once k w₀.pending).1)
          × (w.asked ≤ w₀.asked + 1)
          × (w.pending ≡ (check_once k w₀.pending).0)
    pub uncounted : (check_once k w₀.pending).1 ≢ none → w.codes ≡ w₀.codes
    pub reached : Counted count name secret code w₀.codes w.codes

  verify_knowledge-IsAsked : (w : World C) → IsAsked w → IsAsked (verify_knowledge k w).0
  unfolding verify_knowledge
  verify_knowledge-IsAsked w h = elim (Option-cases w.memo) [
    | inl e ↦
        let (asked, same) = h.fresh e in
        rw (e, verify_knowledge)
          (record {
            fresh = λ p. cc;
            known = λ o p. ground (arith, check_once-le k w₀.pending);
            uncounted = h.uncounted;
            reached = h.reached;
          })
    | inr (o, e) ↦ rw (e, verify_knowledge) h
  ]

  -- The code leaves the password's memo alone, and counts only behind a proved password.
  count_code-IsAsked :
      (w : World C)
      → (check_once k w₀.pending).1 ≡ none
      → IsAsked w
      → IsAsked (count_code count name secret code w).0
  unfolding count_code
  count_code-IsAsked w e h = record {
    fresh = h.fresh;
    known = h.known;
    uncounted = λ p. absurd (p e);
    reached = again h.reached;
  }

  -- After the password was asked, the memo is the error that was returned.
  memo_returned : (w : World C) → IsAsked w → (verify_knowledge k w).1 ≡ (check_once k w₀.pending).1
  unfolding verify_knowledge
  memo_returned w h = elim (Option-cases w.memo) [
    | inl e ↦ rw (e, verify_knowledge) (ap (λ m. (check_once k m).1) (h.fresh e).1)
    | inr (o, e) ↦ rw (e, verify_knowledge) (h.known o e).0
  ]

  empty_uncounted :
      CountsEnrolled count
      → (w : World C) → is_empty secret ≡ true
      → IsAsked w
      → IsAsked (count_code count name secret code w).0
  unfolding count_code
  empty_uncounted enrolled w e h = record {
    fresh = h.fresh;
    known = h.known;
    uncounted = λ p. empty_codes count enrolled w.codes name secret code e ∙ h.uncounted p;
    reached = again h.reached;
  }

  after-IsAsked :
      CountsEnrolled count
      → (w : World C) (e : Option FactorError) → e ≡ (check_once k w₀.pending).1
      → IsAsked w
      → IsAsked (after count name secret code (w, e)).0
  unfolding after
  after-IsAsked enrolled w none p h = count_code-IsAsked w (sym p) h
  after-IsAsked enrolled w (some e) p h = elim (Bool-cases (is_empty secret)) [
    | inl empty ↦ rw empty (empty_uncounted enrolled w empty h)
    | inr enrols ↦ rw enrols h
  ]

  verify_code-IsAsked :
      CountsEnrolled count
      → (w : World C) → IsAsked w
      → IsAsked (verify_code count k name secret code w).0
  unfolding verify_code
  verify_code-IsAsked enrolled w h =
      after-IsAsked enrolled (verify_knowledge k w).0 (verify_knowledge k w).1 (memo_returned w h)
        (verify_knowledge-IsAsked w h)

  -- Every factor of the bind keeps it.
  factors-IsAsked :
      CountsEnrolled count
      → All
          (λ (f : Factor C). (w : World C) → IsAsked w → IsAsked (f.verify w).0)
          (bind_factors count k name secret code)
  unfolding bind_factors
  factors-IsAsked enrolled = (verify_knowledge-IsAsked, (verify_code-IsAsked enrolled, tt))

  start-IsAsked : w₀.memo ≡ none → IsAsked w₀
  start-IsAsked e = record {
    fresh = λ p. (refl, refl);
    known = λ o p. cc;
    uncounted = λ p. refl;
    reached = here;
  }

  asked_once : (w : World C) → IsAsked w → w.asked ≤ w₀.asked + 1
  asked_once w h = elim (Option-cases w.memo) [
    | inl e ↦ omega (arith, (h.fresh e).0)
    | inr (o, e) ↦ (h.known o e).1
  ]

  after_accepted :
      (w : World C) (e : Option FactorError)
      → Counted count name secret code w₀.codes w.codes
      → (after count name secret code (w, e)).1 ≡ none
      → (c : C) × Counted count name secret code w₀.codes c × ((count c name secret code).1 ≡ none)
  unfolding after count_code
  after_accepted w none r a = (w.codes, r, a)
  after_accepted w (some e) r a = elim (Bool-cases (is_empty secret)) [
    | inl empty ↦ (w.codes, r, ground arith)
    | inr enrols ↦ absurd (ground arith)
  ]

  module _ (mfa : Mfa C) (policy : Policy) (enrolled : CountsEnrolled count)
      (fresh : w₀.memo ≡ none) where
    abbrev pub verdict_of_bind : World C × Verdict
    verdict_of_bind = mfa.verify policy (bind_factors count k name secret code) w₀

    pub verdict-IsAsked : IsAsked verdict_of_bind.0
    verdict-IsAsked =
        mfa.keeps policy (bind_factors count k name secret code) w₀ IsAsked
          (factors-IsAsked enrolled) (start-IsAsked fresh)

    -- However the policy engine asks the two factors of a bind, and however often, the source of
    -- the password is asked at most once.
    source_asked_once : verdict_of_bind.0.asked ≤ w₀.asked + 1
    source_asked_once = asked_once verdict_of_bind.0 verdict-IsAsked

    -- However the policy engine asks the two factors of a bind, a code behind a password that was
    -- not proved is counted against nobody: what the code verifier remembers is what it remembered
    -- before.
    pub code_counts_behind_password :
        (check_once k w₀.pending).1 ≢ none → verdict_of_bind.0.codes ≡ w₀.codes
    code_counts_behind_password = verdict-IsAsked.uncounted

    -- A policy of two factors is satisfied only by the right password with a code that the
    -- verifier accepted.
    pub two_factors_proved :
        2 ≤ policy.count
        → verdict_of_bind.1.accepted ≡ true
        → ((check_once k w₀.pending).1 ≡ none)
          × ((c : C) × Counted count name secret code w₀.codes c
              × ((count c name secret code).1 ≡ none))
    unfolding bind_factors verify_code
    two_factors_proved two accepted =
        let both =
          mfa.accepts policy (bind_factors count k name secret code) w₀ IsAsked
            (factors-IsAsked enrolled) (start-IsAsked fresh) two accepted in
        let (v, hv, p) = both.0 in
        let (u, hu, q) = both.1.0 in
        (
          sym (memo_returned v hv) ∙ p,
          after_accepted (verify_knowledge k u).0 (verify_knowledge k u).1
              (verify_knowledge-IsAsked u hu).reached q,
        )
