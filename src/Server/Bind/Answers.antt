-- ===== src/Server/Bind/Answers.antt =====
-- server.go, `Bind`: the bind as a whole, and the state that it leaves.
use authnd.Base.{
  if◌then◌else◌, Option-cases, Text, Casing, to_lower, get, ◌+◌, ◌≡◌, refl, inl, inr, Option, List,
  [], ◌∷◌, arith,
}
use authnd.Directory.{Identity, Outcome, proved, wrong, outage, Reply}
use authnd.Factors.{Factor, FactorError, World, Count, Verdict, Mfa, mfa_digits, split_code}
use authnd.Server.{
  invalid_credentials, Result, result, say, factor_unavailable, was_refused, Site, State, Env, who,
}
use authnd.Server.Bind.Answered.{Answered}
use authnd.Server.Bind.Branches.{bind-Answered}
use authnd.Server.Names.{name_of}
use authnd.Server.Bind.{
  is_unavailable, world_of, with_world, verdict, say_unavailable, answer_of, decide, with_code,
  bind_reader, check_password, bind_identity, bind_person, bind_given, bind_empty, bind, secret_of,
  reader_check,
}

-- The directory is left as it is.
pub record IsBindOf {C : Type 0} (st : State C) (out : State C × Result) : Type 0 where
  pub snap : out.0.snap ≡ st.snap
  pub local : out.0.local ≡ st.local
  pub gen : out.0.gen ≡ st.gen
  pub binds : out.0.binds ≡ st.binds

-- What a bind does: it is counted, the directory stays as it is, and the answer is the one that is
-- given for what it met.
pub record IsBind {C : Type 0} (u : Casing) (mfa : Mfa C) (count : Count C) (site : Site)
    (env : Env) (dn password : Text) (st : State C) (out : State C × Result) : Type 0 where
  pub snap : out.0.snap ≡ st.snap
  pub local : out.0.local ≡ st.local
  pub gen : out.0.gen ≡ st.gen
  pub counted : out.0.binds ≡ st.binds + 1
  pub answered :
      Answered u mfa count site env dn password (record st { binds = st.binds + 1 }) out.1

module _ {C : Type 0} where
  verdict-IsBindOf : (name : Text) (o : Outcome) (st : State C) → IsBindOf st (verdict name o st)
  unfolding verdict
  verdict-IsBindOf name proved st = record { snap = refl; local = refl; gen = refl; binds = refl }
  verdict-IsBindOf name wrong st = record { snap = refl; local = refl; gen = refl; binds = refl }
  verdict-IsBindOf name outage st = record { snap = refl; local = refl; gen = refl; binds = refl }

  say_unavailable-IsBindOf :
      (l : List (Option FactorError)) (st : State C)
      → IsBindOf st (say_unavailable l st, result invalid_credentials)
  unfolding say_unavailable
  say_unavailable-IsBindOf [] st = record { snap = refl; local = refl; gen = refl; binds = refl }
  say_unavailable-IsBindOf (a ∷ l) st = ground (
    arith,
    say_unavailable-IsBindOf l (if is_unavailable a then say factor_unavailable st else st),
  )

  answer_of-IsBindOf :
      (env : Env) (name : Text) (st : State C) (v : Verdict) → IsBindOf st (answer_of env name st v)
  unfolding answer_of
  answer_of-IsBindOf env name st v = ground (
    arith,
    verdict-IsBindOf name outage st,
    say_unavailable-IsBindOf v.answers (say (was_refused name) st),
  )

  IsBindOf-with_world :
      (st : State C) (w : World C) {out : State C × Result}
      → IsBindOf (with_world st w) out
      → IsBindOf st out
  IsBindOf-with_world st w h = record {
    snap = h.snap;
    local = h.local;
    gen = h.gen;
    binds = h.binds;
  }

  module _ (u : Casing) (mfa : Mfa C) (count : Count C) (site : Site) (env : Env) where
    decide-IsBindOf :
        (name : Text) (factors : List (Factor C)) (st : State C)
        → IsBindOf st (decide u mfa count site env name factors st)
    unfolding decide
    decide-IsBindOf name factors st =
        let (w, v) = mfa.verify site.policy factors (world_of st) in
        IsBindOf-with_world st w (answer_of-IsBindOf env name (with_world st w) v)

    with_code-IsBindOf :
        (name secret source : Text) (check : Text → Reply) (given : Text) (st : State C)
        → IsBindOf st (with_code u mfa count site env name secret source check given st)
    unfolding with_code
    with_code-IsBindOf name secret source check given st =
        elim (Option-cases (split_code given (mfa_digits site.cfg.mfa))) [
          | inl e ↦ rw (e, with_code) (ground arith)
          | inr (both, e) ↦ rw (e, with_code) (decide-IsBindOf name _ st)
        ]

    bind_reader-IsBindOf :
        (reader want password : Text) (st : State C)
        → IsBindOf st (bind_reader u mfa count site env reader want password st)
    unfolding bind_reader
    bind_reader-IsBindOf reader want password st = ground (
      arith,
      with_code-IsBindOf reader (secret_of u mfa count site env reader) []
          (reader_check u mfa count site env want) password st,
    )

    check_password-IsBindOf :
        (name : Text) (id : Identity) (password : Text) (st : State C)
        → IsBindOf st (check_password u mfa count site env name id password st)
    unfolding check_password
    check_password-IsBindOf name id password st = ground arith

    bind_identity-IsBindOf :
        (name : Text) (id : Identity) (password : Text) (st : State C)
        → IsBindOf st (bind_identity u mfa count site env name id password st)
    unfolding bind_identity
    bind_identity-IsBindOf name id password st = ground (
      arith,
      with_code-IsBindOf name id.totp_secret id.source (env.reply id) password st,
      check_password-IsBindOf name id password st,
    )

    bind_person-IsBindOf :
        (dn password : Text) (st : State C)
        → IsBindOf st (bind_person u mfa count site env dn password st)
    unfolding bind_person
    bind_person-IsBindOf dn password st = elim (Option-cases (name_of u site.people_dn dn)) [
      | inl e ↦ rw (e, bind_person) (ground arith)
      | inr (name, e) ↦ elim (Option-cases (get name (who st))) [
        | inl none_there ↦ ground arith
        | inr (id, found) ↦ ground (arith, bind_identity-IsBindOf name id password st)
      ]
    ]

    bind_given-IsBindOf :
        (dn password : Text) (st : State C)
        → IsBindOf st (bind_given u mfa count site env dn password st)
    unfolding bind_given
    bind_given-IsBindOf dn password st = elim (Option-cases (get (to_lower u dn) site.readers)) [
      | inl e ↦ ground (arith, bind_person-IsBindOf dn password st)
      | inr (want, e) ↦ ground (arith, bind_reader-IsBindOf (to_lower u dn) want password st)
    ]

    -- Every bind counts once and leaves the directory (the snapshot, the local source and its
    -- generation) as it is, and its answer is the one for what it met. Without a password: success
    -- where there is no name either, and else unwilling to perform. A reader: success where the
    -- password's digest is the reader's, and else wrong credentials. From data that is too old:
    -- unavailable. A DN that is nobody's, or of somebody who is not served: wrong credentials. A
    -- person: what their source replied, and unavailable at the cap or in silence. Where a code is
    -- wanted: wrong credentials where the field cannot be split, and else what the policy engine
    -- found of the two halves, an outage being unavailable.
    pub bind-IsBind :
        (dn password : Text) (st : State C)
        → IsBind u mfa count site env dn password st (bind u mfa count site env dn password st)
    unfolding bind bind_empty
    bind-IsBind [] [] st = record {
      snap = refl;
      local = refl;
      gen = refl;
      counted = refl;
      answered = bind-Answered u mfa count site env [] [] st;
    }
    bind-IsBind (d ∷ dn) [] st = record {
      snap = refl;
      local = refl;
      gen = refl;
      counted = refl;
      answered = bind-Answered u mfa count site env (d ∷ dn) [] st;
    }
    bind-IsBind dn (c ∷ password) st =
        let h = bind_given-IsBindOf dn (c ∷ password) (record st { binds = st.binds + 1 }) in
        record {
          snap = h.snap;
          local = h.local;
          gen = h.gen;
          counted = h.binds;
          answered = bind-Answered u mfa count site env dn (c ∷ password) st;
        }
