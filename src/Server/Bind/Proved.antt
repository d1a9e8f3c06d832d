-- ===== src/Server/Bind/Proved.antt =====
-- What was proved where a bind succeeds.
use authnd.Base.{
  Bool-cases, Option-cases, Text, text_eq_iff, Casing, to_lower, Map, get, ℕ, ◌+◌, ◌≡◌, refl, inl,
  inr, true, false, ◌&&◌, none, some, [], ◌∷◌, arith,
}
use authnd.Directory.{Identity, proved, Reply, answered}
use authnd.Factors.{
  Knowledge, Count, Mfa, Verdict, mfa_digits, split_code, check_once, bind_factors,
}
use authnd.Factors.Asked.{CountsEnrolled, Counted, two_factors_proved}
use authnd.Pending.{within_proved}
use authnd.Server.{success, Site, State, Env, who, data_too_old, constant_time_equal, wants_code}
use authnd.Server.Names.{name_of}
use authnd.Server.Bind.{
  verdict, answer_of, unless_too_old, decide, with_code, bind_reader, check_password, bind_identity,
  bind_person, bind_given, bind_empty, bind, secret_of, reader_check, readers_carry_codes, world_of,
  with_world,
}

-- The code verifier accepts the code, in a state reached by counting that code alone.
abbrev pub CodeAccepted : {C : Type 0} → Count C → Text → Text → Text → C → Type 0
CodeAccepted {C} count name secret code c₀ =
    (c : C) × Counted count name secret code c₀ c × ((count c name secret code).1 ≡ none)

check_once_proved :
    (ask : Text → Reply) (given source : Text) (m : Map ℕ)
    → (check_once (record { check = some ask; given = given; where_ = source }) m).1 ≡ none
    → ask given ≡ answered proved
unfolding check_once
check_once_proved ask given source m h = within_proved source (ask given) m (ground arith)

module _ {C : Type 0} where
  answer_of_success :
      (env : Env) (name : Text) (st : State C) (v : Verdict)
      → (answer_of env name st v).1.code ≡ success
      → v.accepted ≡ true
  unfolding answer_of
  answer_of_success env name st v h = ground arith

  module _ (u : Casing) (mfa : Mfa C) (count : Count C) (site : Site) (env : Env) where
    -- Both halves of the field that was typed were proved.
    pub record BothHalves (name secret : Text) (check : Text → Reply) (given : Text) (c₀ : C)
        : Type 0 where
      pub password : Text
      pub code : Text
      pub split : split_code given (mfa_digits site.cfg.mfa) ≡ some (password, code)
      pub knows : check password ≡ answered proved
      pub holds : CodeAccepted count name secret code c₀

    with_code_proved :
        CountsEnrolled count
        → wants_code site ≡ true
        → (name secret source : Text) (check : Text → Reply) (given : Text) (st : State C)
        → (with_code u mfa count site env name secret source check given st).1.code ≡ success
        → BothHalves name secret check given st.codes
    unfolding with_code decide wants_code
    with_code_proved enrolled wants name secret source check given st h =
        elim (Option-cases (split_code given (mfa_digits site.cfg.mfa))) [
          | inl e ↦ absurd (ground arith)
          | inr (both, e) ↦
              let k : Knowledge = record { check = some check; given = both.0; where_ = source } in
              let verified =
                mfa.verify site.policy (bind_factors count k name secret both.1) (world_of st) in
              let facts =
                two_factors_proved count k name secret both.1 (world_of st) mfa site.policy enrolled
                  refl (ground arith)
                  (answer_of_success env name (with_world st verified.0) verified.1
                    (ground arith)) in
              record {
                password = both.0;
                code = both.1;
                split = e;
                knows = check_once_proved check both.0 source st.pending facts.0;
                holds = facts.1;
              }
        ]

    -- What stands behind a bind that succeeds.
    pub data Proof (dn password : Text) (st : State C) : Type 0 where
      anonymous : dn ≡ [] → password ≡ [] → Proof dn password st
      reader :
          (want : Text)
          → get (to_lower u dn) site.readers ≡ some want
          → (wants_code site && readers_carry_codes site) ≡ false
          → env.sha256 password ≡ env.sha256 want
          → Proof dn password st
      reader_with_code :
          (want : Text)
          → get (to_lower u dn) site.readers ≡ some want
          → BothHalves
              (to_lower u dn)
              (secret_of u mfa count site env (to_lower u dn))
              (reader_check u mfa count site env want)
              password
              st.codes
          → Proof dn password st
      person :
          (name : Text) (id : Identity)
          → data_too_old site env st ≡ false
          → name_of u site.people_dn dn ≡ some name
          → get name (who st) ≡ some id
          → wants_code site ≡ false
          → env.reply id password ≡ answered proved
          → Proof dn password st
      person_with_code :
          (name : Text) (id : Identity)
          → data_too_old site env st ≡ false
          → name_of u site.people_dn dn ≡ some name
          → get name (who st) ≡ some id
          → BothHalves name id.totp_secret (env.reply id) password st.codes
          → Proof dn password st

    check_password_proved :
        (name : Text) (id : Identity) (password : Text) (st : State C)
        → (check_password u mfa count site env name id password st).1.code ≡ success
        → env.reply id password ≡ answered proved
    unfolding check_password verdict
    check_password_proved name id password st h =
        within_proved id.source (env.reply id password) st.pending (ground arith)

    module _ (enrolled : CountsEnrolled count) where
      bind_reader_proved :
          (dn want password : Text) (st : State C)
          → get (to_lower u dn) site.readers ≡ some want
          → (bind_reader u mfa count site env (to_lower u dn) want password st).1.code ≡ success
          → Proof dn password st
      unfolding bind_reader constant_time_equal
      bind_reader_proved dn want password st found h =
          elim (Bool-cases (wants_code site && readers_carry_codes site)) [
            | inl both ↦ reader_with_code want found (
                with_code_proved enrolled (ground arith) (to_lower u dn)
                  (secret_of u mfa count site env (to_lower u dn)) []
                  (reader_check u mfa count site env want) password st (ground arith))
            | inr one ↦
                reader want found one
                  (ground (arith, text_eq_iff (env.sha256 password) (env.sha256 want)))
          ]

      bind_identity_proved :
          (dn password name : Text) (id : Identity) (st : State C)
          → data_too_old site env st ≡ false
          → name_of u site.people_dn dn ≡ some name
          → get name (who st) ≡ some id
          → (bind_identity u mfa count site env name id password st).1.code ≡ success
          → Proof dn password st
      unfolding bind_identity
      bind_identity_proved dn password name id st fresh named found h =
          elim (Bool-cases (wants_code site)) [
            | inl wants ↦ person_with_code name id fresh named found (
                with_code_proved enrolled wants name id.totp_secret id.source (env.reply id)
                  password st (ground arith))
            | inr plain ↦
                person name id fresh named found plain
                  (check_password_proved name id password st (ground arith))
          ]

      bind_person_proved :
          (dn password : Text) (st : State C)
          → (unless_too_old site env st (bind_person u mfa count site env dn password st)).1.code
            ≡ success
          → Proof dn password st
      unfolding unless_too_old bind_person
      bind_person_proved dn password st h = elim (Option-cases (name_of u site.people_dn dn)) [
        | inl e ↦ absurd (ground arith)
        | inr (name, e) ↦ elim (Option-cases (get name (who st))) [
          | inl f ↦ absurd (ground arith)
          | inr (id, f) ↦
              bind_identity_proved dn password name id st (ground arith) e f (ground arith)
        ]
      ]

      bind_given_proved :
          (dn password : Text) (st : State C)
          → (bind_given u mfa count site env dn password st).1.code ≡ success
          → Proof dn password st
      unfolding bind_given
      bind_given_proved dn password st h = elim (Option-cases (get (to_lower u dn) site.readers)) [
        | inl e ↦ bind_person_proved dn password st (ground arith)
        | inr (want, e) ↦ bind_reader_proved dn want password st e (ground arith)
      ]

      -- The counter of binds is no part of what is proved.
      Proof-counted :
          (dn password : Text) (st : State C) (n : ℕ)
          → Proof dn password (record st { binds = n })
          → Proof dn password st
      unfolding data_too_old
      Proof-counted dn password st n (anonymous p q) = anonymous p q
      Proof-counted dn password st n (reader want p q r) = reader want p q r
      Proof-counted dn password st n (reader_with_code want p q) = reader_with_code want p q
      Proof-counted dn password st n (person name id p q r s t) = person name id p q r s t
      Proof-counted dn password st n (person_with_code name id p q r s) =
          person_with_code name id p q r s

      -- A bind succeeds only for what was proved: no name with no password; a reader's password (by
      -- its digest), with an accepted code where readers carry codes; or, from data that is not too
      -- old, the password that the source of the person at that name answers for, alone where no
      -- code is wanted, and with a code of that person that the verifier accepts where one is.
      pub bind_success_proved :
          (dn password : Text) (st : State C)
          → (bind u mfa count site env dn password st).1.code ≡ success
          → Proof dn password st
      unfolding bind bind_empty
      bind_success_proved [] [] st h = anonymous refl refl
      bind_success_proved (d ∷ dn) [] st h = absurd (ground arith)
      bind_success_proved dn (c ∷ password) st h =
          Proof-counted dn (c ∷ password) st (st.binds + 1)
            (bind_given_proved dn (c ∷ password) (record st { binds = st.binds + 1 }) h)
