-- ===== src/Server/Bind.antt =====
-- server.go: `Bind` and the functions under it.
pub mod Answered
pub mod Branches
pub mod Answers
pub mod Outage
pub mod Proved
pub mod Tests
use authnd.Base.{
  if◌then◌else◌, any, Text, codes, is_empty, Casing, to_lower, get, ◌+◌, Bool, true, false, ◌&&◌,
  ◌||◌, Option, none, some, List, [], ◌∷◌,
}
use authnd.Directory.{Identity, Outcome, proved, wrong, outage, Reply, answered}
use authnd.Factors.{
  Factor, FactorError, unavailable, source_outage, World, Count, Verdict, Mfa, mfa_digits,
  split_code, bind_factors,
}
use authnd.Pending.{within}
use authnd.Server.{
  Code, success, invalid_credentials, unwilling_to_perform, unauthenticated_bind, source_down,
  stale_data, Result, result, refuse, Site, State, Env, was_refused, factor_unavailable, say, who,
  data_too_old, constant_time_equal, wants_code,
}
use authnd.Server.Names.{name_of}

-- `s.cfg.MFA.Readers`, asked only where a code is wanted, so with an mfa block.
pub readers_carry_codes : Site → Bool
readers_carry_codes site = elim site.cfg.mfa [ none ↦ false | some m ↦ m.readers ]

pub is_outage : Option FactorError → Bool
is_outage (some source_outage) = true
is_outage _ = false

is_unavailable : Option FactorError → Bool
is_unavailable (some unavailable) = true
is_unavailable _ = false

module _ {C : Type 0} where
  -- verdict: the answer to a check that did not succeed.
  pub verdict : Text → Outcome → State C → State C × Result
  verdict name outage st = (say (was_refused name) st, refuse Code.unavailable source_down)
  verdict name _ st = (st, result invalid_credentials)

  -- The lines of `decide` for factors that could not be asked.
  say_unavailable : List (Option FactorError) → State C → State C
  say_unavailable [] st = st
  say_unavailable (a ∷ as_) st =
      say_unavailable as_ (if is_unavailable a then say factor_unavailable st else st)

  -- The world of one bind, and the state after it.
  abbrev pub world_of : State C → World C
  world_of st = record { pending = st.pending; codes = st.codes; memo = none; asked = 0 }

  abbrev pub with_world : State C → World C → State C
  with_world st w = record st { pending = w.pending; codes = w.codes }

  answer_of : Env → Text → State C → Verdict → State C × Result
  unfolding verdict say_unavailable
  answer_of env name st v =
      if v.accepted
      then (st, result success)
      else if any is_outage v.answers
      then verdict name outage st
      else if v.error_outage || env.budget_ended
      then verdict name outage st
      else (say_unavailable v.answers (say (was_refused name) st), result invalid_credentials)

  -- tooOld, for a handler that goes on with `rest` where the data is not too old.
  pub unless_too_old : Site → Env → State C → State C × Result → State C × Result
  unless_too_old site env st rest =
      if data_too_old site env st then (st, refuse Code.unavailable stale_data) else rest

  module _ (u : Casing) (mfa : Mfa C) (count : Count C) (site : Site) (env : Env) where
    -- decide
    pub decide : Text → List (Factor C) → State C → State C × Result
    unfolding answer_of
    decide name factors st =
        let (w, v) = mfa.verify site.policy factors (world_of st) in
        answer_of env name (with_world st w) v

    -- factorsFor and readerFactors, up to `decide`: the field is split, and asked for both halves.
    with_code : Text → Text → Text → (Text → Reply) → Text → State C → State C × Result
    unfolding decide
    with_code name secret source check given st =
        elim (split_code given (mfa_digits site.cfg.mfa)) [
          | none ↦ (say (was_refused name) st, result invalid_credentials)
          | some (password, code) ↦
              decide name
                (bind_factors count
                  (record { check = some check; given = password; where_ = source }) name secret
                  code)
                st
        ]

    -- The check of a reader's password, which this process holds.
    pub reader_check : Text → Text → Reply
    reader_check want given =
        answered (if constant_time_equal env given want then proved else wrong)

    pub secret_of : Text → Text
    secret_of reader = elim (get reader site.reader_secrets) [ none ↦ [] | some s ↦ s ]

    -- The reader's half of Bind.
    bind_reader : Text → Text → Text → State C → State C × Result
    unfolding with_code secret_of
    bind_reader reader want password st =
        if wants_code site && readers_carry_codes site
        then with_code reader (secret_of reader) [] (reader_check want) password st
        else if constant_time_equal env password want
        then (st, result success)
        else (st, result invalid_credentials)

    -- `verifyWithin` and the answer to it.
    pub check_password : Text → Identity → Text → State C → State C × Result
    unfolding verdict
    check_password name id password st =
        let (pending, o) = within id.source (env.reply id password) st.pending in
        elim o [
          | proved ↦ (record st { pending = pending }, result success)
          | bad ↦ verdict name bad (record st { pending = pending })
        ]

    -- The person's half of Bind, once the person is known.
    bind_identity : Text → Identity → Text → State C → State C × Result
    unfolding with_code check_password
    bind_identity name id password st =
        if wants_code site
        then with_code name id.totp_secret id.source (env.reply id) password st
        else check_password name id password st

    -- The person's half of Bind.
    bind_person : Text → Text → State C → State C × Result
    unfolding bind_identity
    bind_person dn password st = elim (name_of u site.people_dn dn) [
      | none ↦ (st, result invalid_credentials)
      | some name ↦ elim (get name (who st)) [
        | none ↦ (st, result invalid_credentials)
        | some id ↦ bind_identity name id password st
      ]
    ]

    bind_empty : Text → State C → State C × Result
    bind_empty [] st = (st, result success)
    bind_empty dn st = (st, refuse unwilling_to_perform unauthenticated_bind)

    bind_given : Text → Text → State C → State C × Result
    unfolding bind_reader bind_person unless_too_old
    bind_given dn password st = elim (get (to_lower u dn) site.readers) [
      | some want ↦ bind_reader (to_lower u dn) want password st
      | none ↦ unless_too_old site env st (bind_person dn password st)
    ]

    -- Bind
    pub bind : Text → Text → State C → State C × Result
    unfolding bind_empty bind_given
    bind dn password st =
        let counted = record st { binds = st.binds + 1 } in
        if is_empty password then bind_empty dn counted else bind_given dn password counted
