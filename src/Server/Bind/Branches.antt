-- ===== src/Server/Bind/Branches.antt =====
-- server.go, `Bind`: how each of its branches comes to its answer.
use mathlib.Core.Path.{subst}
use authnd.Base.{
  Bool-cases, Option-cases, Text, is_empty, Casing, to_lower, get, ◌+◌, ◌≡◌, refl, sym, ◌∙◌, inl,
  inr, false, ◌&&◌, none, some, [], ◌∷◌, arith,
}
use authnd.Directory.{Identity, Reply}
use authnd.Factors.{Count, Verdict, Mfa, mfa_digits, split_code, bind_factors}
use authnd.Server.{Site, State, Env, who, data_too_old, wants_code}
use authnd.Server.Names.{name_of}
use authnd.Server.Bind.{
  readers_carry_codes, world_of, with_world, verdict, answer_of, decide, with_code, secret_of,
  reader_check, bind_reader, bind_identity, bind_person, bind_given, bind_empty, bind,
  unless_too_old,
}
use authnd.Server.Bind.Outage.{check_password-told}
use authnd.Server.Bind.Answered.{
  by_verdict, Coded, Answered, unsplit, verified, anonymous, without_password, reader, reader_code,
  stale, nobody, not_served, person, person_code,
}

module _ {C : Type 0} (u : Casing) (mfa : Mfa C) (count : Count C) (site : Site) (env : Env) where
  answer_of-by_verdict :
      (name : Text) (st : State C) (v : Verdict) → (answer_of env name st v).1 ≡ by_verdict env v
  unfolding answer_of verdict by_verdict
  answer_of-by_verdict name st v = ground arith

  with_code-Coded :
      (name secret source : Text) (check : Text → Reply) (given : Text) (st : State C)
      → Coded u mfa count site env name secret source check given st
          (with_code u mfa count site env name secret source check given st).1
  unfolding with_code decide
  with_code-Coded name secret source check given st =
      elim (Option-cases (split_code given (mfa_digits site.cfg.mfa))) [
        | inl e ↦
            subst (Coded u mfa count site env name secret source check given st) (ground (arith, e))
              (unsplit e)
        | inr ((password, code), e) ↦
            let factors =
              bind_factors count (record { check = some check; given = password; where_ = source })
                name secret code in
            let (w, v) = mfa.verify site.policy factors (world_of st) in
            rw (e, with_code)
              (subst (Coded u mfa count site env name secret source check given st)
                (sym (answer_of-by_verdict name (with_world st w) v)) (verified password code e))
      ]

  bind_reader-Answered :
      (dn password want : Text) (st : State C)
      → is_empty password ≡ false
      → get (to_lower u dn) site.readers ≡ some want
      → Answered u mfa count site env dn password st
          (bind_reader u mfa count site env (to_lower u dn) want password st).1
  unfolding bind_reader
  bind_reader-Answered dn password want st given found =
      elim (Bool-cases (wants_code site && readers_carry_codes site)) [
        | inl e ↦ subst (Answered u mfa count site env dn password st) (ground (arith, e)) (
            reader_code want
              (with_code u mfa count site env (to_lower u dn)
                (secret_of u mfa count site env (to_lower u dn)) []
                (reader_check u mfa count site env want) password st).1
              given found e
              (with_code-Coded (to_lower u dn) (secret_of u mfa count site env (to_lower u dn)) []
                (reader_check u mfa count site env want) password st))
        | inr e ↦
            subst (Answered u mfa count site env dn password st) (ground (arith, e))
              (reader want given found e)
      ]

  bind_identity-Answered :
      (dn password name : Text) (id : Identity) (st : State C)
      → is_empty password ≡ false
      → get (to_lower u dn) site.readers ≡ none
      → data_too_old site env st ≡ false
      → name_of u site.people_dn dn ≡ some name
      → get name (who st) ≡ some id
      → Answered u mfa count site env dn password st
          (bind_identity u mfa count site env name id password st).1
  unfolding bind_identity
  bind_identity-Answered dn password name id st given no_reader fresh named found =
      elim (Bool-cases (wants_code site)) [
        | inl e ↦ subst (Answered u mfa count site env dn password st) (ground (arith, e)) (
            person_code name id
              (with_code u mfa count site env name id.totp_secret id.source (env.reply id) password
                st).1
              given no_reader fresh named found e
              (with_code-Coded name id.totp_secret id.source (env.reply id) password st))
        | inr e ↦
            subst (Answered u mfa count site env dn password st)
              (sym (check_password-told u mfa count site env name id password st)
                ∙ ground (arith, e))
              (person name id given no_reader fresh named found e)
      ]

  bind_person-Answered :
      (dn password : Text) (st : State C)
      → is_empty password ≡ false
      → get (to_lower u dn) site.readers ≡ none
      → data_too_old site env st ≡ false
      → Answered u mfa count site env dn password st
          (bind_person u mfa count site env dn password st).1
  unfolding bind_person
  bind_person-Answered dn password st given no_reader fresh =
      elim (Option-cases (name_of u site.people_dn dn)) [
        | inl e ↦
            subst (Answered u mfa count site env dn password st) (ground (arith, e))
              (nobody given no_reader fresh e)
        | inr (name, e) ↦ elim (Option-cases (get name (who st))) [
          | inl none_there ↦
              subst (Answered u mfa count site env dn password st) (ground (arith, e, none_there))
                (not_served name given no_reader fresh e none_there)
          | inr (id, found) ↦
              subst (Answered u mfa count site env dn password st) (ground (arith, e, found))
                (bind_identity-Answered dn password name id st given no_reader fresh e found)
        ]
      ]

  bind_given-Answered :
      (dn password : Text) (st : State C)
      → is_empty password ≡ false
      → Answered u mfa count site env dn password st
          (bind_given u mfa count site env dn password st).1
  unfolding bind_given unless_too_old
  bind_given-Answered dn password st given =
      elim (Option-cases (get (to_lower u dn) site.readers)) [
        | inl e ↦ elim (Bool-cases (data_too_old site env st)) [
          | inl old ↦
              subst (Answered u mfa count site env dn password st) (ground (arith, e, old))
                (stale given e old)
          | inr fresh ↦
              subst (Answered u mfa count site env dn password st) (ground (arith, e, fresh))
                (bind_person-Answered dn password st given e fresh)
        ]
        | inr (want, e) ↦
            subst (Answered u mfa count site env dn password st) (ground (arith, e))
              (bind_reader-Answered dn password want st given e)
      ]

  -- The same of the bind that `bind` counts.
  pub bind-Answered :
      (dn password : Text) (st : State C)
      → Answered u mfa count site env dn password
          (record st { binds = st.binds + 1 })
          (bind u mfa count site env dn password st).1
  unfolding bind bind_empty
  bind-Answered [] [] st = anonymous refl refl
  bind-Answered (d ∷ dn) [] st = without_password refl refl
  bind-Answered dn (c ∷ password) st =
      bind_given-Answered dn (c ∷ password) (record st { binds = st.binds + 1 }) refl
