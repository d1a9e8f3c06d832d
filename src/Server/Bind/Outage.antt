-- ===== src/Server/Bind/Outage.antt =====
-- The answer to a person who binds with a password alone.
use authnd.Base.{ltb, Text, Casing, ◌≡◌, Bool, true, false, arith}
use authnd.Directory.{Identity, Outcome, proved, wrong, outage, Reply, answered, silent}
use authnd.Factors.{Count, Mfa}
use authnd.Pending.{pending_for, max_pending_per_source, within_lem}
use authnd.Server.{
  Code, success, invalid_credentials, Result, result, refuse, source_down, Site, State, Env,
}
use authnd.Server.Bind.{verdict, check_password}

-- What the client is told for what became of the check.
abbrev pub told : Outcome → Result
told proved = result success
told wrong = result invalid_credentials
told outage = refuse Code.unavailable source_down

-- What becomes of a check: none is started at the cap, and silence is an outage.
abbrev pub became : Bool → Reply → Outcome
became false r = outage
became true (answered o) = o
became true silent = outage

module _ {C : Type 0} (u : Casing) (mfa : Mfa C) (count : Count C) (site : Site) (env : Env) where
  pub check_password-told :
      (name : Text) (id : Identity) (password : Text) (st : State C)
      → (check_password u mfa count site env name id password st).1
        ≡ told (
            became
              (ltb (pending_for id.source st.pending) max_pending_per_source)
              (env.reply id password))
  unfolding check_password verdict
  check_password-told name id password st =
      ground (arith, within_lem id.source id.source (env.reply id password) st.pending)
