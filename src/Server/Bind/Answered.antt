-- ===== src/Server/Bind/Answered.antt =====
-- server.go, `Bind`: the answer, and what it is given for.
use authnd.Base.{
  ltb, if◌then◌else◌, any, Text, is_empty, Casing, to_lower, get, ◌≡◌, true, false, ◌&&◌, ◌||◌,
  none, some, [],
}
use authnd.Directory.{Identity, proved, wrong, Reply}
use authnd.Factors.{Count, Verdict, Mfa, mfa_digits, split_code, bind_factors}
use authnd.Pending.{pending_for, max_pending_per_source}
use authnd.Server.{
  Code, success, invalid_credentials, unwilling_to_perform, unauthenticated_bind, source_down,
  stale_data, Result, result, refuse, Site, State, Env, who, data_too_old, constant_time_equal,
  wants_code,
}
use authnd.Server.Names.{name_of}
use authnd.Server.Bind.{readers_carry_codes, is_outage, world_of, secret_of, reader_check}
use authnd.Server.Bind.Outage.{told, became}

-- The answer to a password with a code: yes where the factors were accepted, unavailable where one
-- of them met an outage or the time was up, and else wrong credentials.
unfoldable pub by_verdict : Env → Verdict → Result
by_verdict env v =
    if v.accepted
    then result success
    else if any is_outage v.answers || (v.error_outage || env.budget_ended)
    then refuse Code.unavailable source_down
    else result invalid_credentials

module _ {C : Type 0} (u : Casing) (mfa : Mfa C) (count : Count C) (site : Site) (env : Env) where
  -- The answer where a code is wanted behind the password.
  pub data Coded (name secret source : Text) (check : Text → Reply) (given : Text) (st : State C)
      : Result → Type 0 where
    unsplit :
        split_code given (mfa_digits site.cfg.mfa) ≡ none
        → Coded name secret source check given st (result invalid_credentials)
    verified :
        (password code : Text)
        → split_code given (mfa_digits site.cfg.mfa) ≡ some (password, code)
        → Coded name secret source check given st (
            by_verdict env
              (mfa.verify site.policy
                (bind_factors count
                  (record { check = some check; given = password; where_ = source })
                  name
                  secret
                  code)
                (world_of st)).1)

  -- Each answer with what it is given for; no two of these hold of one bind.
  pub data Answered (dn password : Text) (st : State C) : Result → Type 0 where
    anonymous :
        is_empty password ≡ true → is_empty dn ≡ true → Answered dn password st (result success)
    without_password :
        is_empty password ≡ true
        → is_empty dn ≡ false
        → Answered dn password st (refuse unwilling_to_perform unauthenticated_bind)
    reader :
        (want : Text)
        → is_empty password ≡ false
        → get (to_lower u dn) site.readers ≡ some want
        → (wants_code site && readers_carry_codes site) ≡ false
        → Answered dn password st
            (told (if constant_time_equal env password want then proved else wrong))
    reader_code :
        (want : Text) (r : Result)
        → is_empty password ≡ false
        → get (to_lower u dn) site.readers ≡ some want
        → (wants_code site && readers_carry_codes site) ≡ true
        → Coded
            (to_lower u dn)
            (secret_of u mfa count site env (to_lower u dn))
            []
            (reader_check u mfa count site env want)
            password
            st
            r
        → Answered dn password st r
    stale :
        is_empty password ≡ false
        → get (to_lower u dn) site.readers ≡ none
        → data_too_old site env st ≡ true
        → Answered dn password st (refuse Code.unavailable stale_data)
    nobody :
        is_empty password ≡ false
        → get (to_lower u dn) site.readers ≡ none
        → data_too_old site env st ≡ false
        → name_of u site.people_dn dn ≡ none
        → Answered dn password st (result invalid_credentials)
    not_served :
        (name : Text)
        → is_empty password ≡ false
        → get (to_lower u dn) site.readers ≡ none
        → data_too_old site env st ≡ false
        → name_of u site.people_dn dn ≡ some name
        → get name (who st) ≡ none
        → Answered dn password st (result invalid_credentials)
    person :
        (name : Text) (id : Identity)
        → is_empty password ≡ false
        → get (to_lower u dn) site.readers ≡ none
        → data_too_old site env st ≡ false
        → name_of u site.people_dn dn ≡ some name
        → get name (who st) ≡ some id
        → wants_code site ≡ false
        → Answered dn password st (
            told (
              became
                (ltb (pending_for id.source st.pending) max_pending_per_source)
                (env.reply id password)))
    person_code :
        (name : Text) (id : Identity) (r : Result)
        → is_empty password ≡ false
        → get (to_lower u dn) site.readers ≡ none
        → data_too_old site env st ≡ false
        → name_of u site.people_dn dn ≡ some name
        → get name (who st) ≡ some id
        → wants_code site ≡ true
        → Coded name id.totp_secret id.source (env.reply id) password st r
        → Answered dn password st r
