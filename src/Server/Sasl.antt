-- ===== src/Server/Sasl.antt =====
-- oidc.go: `BindSASL`, a bind with a token. The token's verifier and the functions on scoped names
-- are go-authn/oidc's, and parameters.
pub mod Named
pub mod Proved
pub mod Tests
use authnd.Base.{
  if◌then◌else◌, length, take, Text, codes, is_empty, Casing, text_eq, has_suffix, Map, get, ◌+◌,
  ◌-◌, Bool, not, ◌&&◌, ◌||◌, Option, none, some, List, [], ◌∷◌, map,
}
use authnd.Config.{OidcBlock}
use authnd.Directory.{Identity}
use authnd.Factors.{Factor, Count, Mfa}
use authnd.Oauth.{kvsep, parse_oauth_bearer, token_kinds}
use authnd.Roster.{Fold}
use authnd.Server.{
  Code, success, invalid_credentials, auth_method_not_supported, confidentiality_required,
  sasl_bind_in_progress, Result, Site, State, Env, was_refused, say, who, data_too_old, wants_code,
}
use authnd.Server.Names.{dn_of}
use authnd.Server.Bind.{decide}

-- oidc.Token: Username() and the claim "amr"; none where it is not there or is no list.
pub record Token : Type 0 where
  pub username : Text
  pub methods : Option (List Text)

-- go-authn/oidc: Verifier.Verify (none is an error), ScopedName without a default scope (none is an
-- error), EqualASCIIFold and ASCIILower.
pub record Oidc : Type 0 where
  pub verify : Text → Option Token
  pub scoped_name : Text → List Text → Option Text
  pub equal_ascii_fold : Text → Text → Bool
  pub lower_ascii : Text → Text

-- The status that a challenge carries.
pub data Status : Type 0 where
  invalid_request invalid_token insufficient_scope : Status

-- ldap.SASLResult: the code, the DN that the session is bound as, and the challenge.
pub record SaslResult : Type 0 where
  pub code : Code
  pub bound_dn : Option Text
  pub challenge : Option Status

answer : Code → SaslResult
answer c = record { code = c; bound_dn = none; challenge = none }

-- oidcChallenge
challenged : Status → SaslResult
challenged s = record { code = sasl_bind_in_progress; bound_dn = none; challenge = some s }

-- strings.TrimSuffix
trim_suffix : Text → Text → Text
trim_suffix s suffix = if has_suffix s suffix then take (length s - length suffix) s else s

-- directoryName
pub directory_name : Oidc → OidcBlock → Text → Text
unfolding trim_suffix
directory_name oidc b scoped =
    if is_empty b.local_domain
    then scoped
    else trim_suffix scoped (b'@' ∷ oidc.lower_ascii (trim_suffix b.local_domain (codes ".")))

-- The first person whose name is the same ignoring ASCII case.
first_folded : Oidc → Text → Map Identity → Option (Text × Identity)
first_folded oidc name [] = none
first_folded oidc name ((n, id) ∷ m) =
    let rest = first_folded oidc name m in
    if oidc.equal_ascii_fold n name then some (n, id) else rest

-- The person of a name: under exactly that name, or else under one that differs by case.
pub find_person : Oidc → Text → Map Identity → Option (Text × Identity)
unfolding first_folded
find_person oidc name people = elim (get name people) [
  | some id ↦ some (name, id)
  | none ↦ first_folded oidc name people
]

-- Whether the authzid asks for nobody, or for the person whom the token is about.
pub acts_as_self : Oidc → Text → Text → Text → Bool
acts_as_self oidc authzid name scoped =
    is_empty authzid || oidc.equal_ascii_fold authzid name || oidc.equal_ascii_fold authzid scoped

module _ {C : Type 0} where
  a_token : State C → State C
  a_token st = say (was_refused (codes "a token")) st

  -- tokenFactors
  pub token_factors : Casing → Token → List (Factor C)
  token_factors u tok =
      map (λ k. record { kind = k; verify = λ w. (w, none) }) (token_kinds u tok.methods)

  module _ (u : Casing) (fold : Fold) (mfa : Mfa C) (count : Count C) (site : Site) (env : Env)
      (oidc : Oidc) where
    bound : Identity → SaslResult
    bound id = record {
      code = success;
      bound_dn = some (dn_of site.people_dn id.name);
      challenge = none;
    }

    decided : Identity → State C × Result → State C × SaslResult
    unfolding bound answer
    decided id (st, r) = elim r.code [ success ↦ (st, bound id) | c ↦ (st, answer c) ]

    with_person : Token → Text → Option (Text × Identity) → State C → State C × SaslResult
    unfolding decided challenged
    with_person tok name none st = (say (was_refused name) st, challenged invalid_token)
    with_person tok name (some (n, id)) st =
        if wants_code site
        then decided id (decide u mfa count site env n (token_factors u tok) st)
        else (st, bound id)

    with_name : OidcBlock → Text → Token → Option Text → State C → State C × SaslResult
    unfolding with_person a_token
    with_name b authzid tok none st = (a_token st, challenged invalid_token)
    with_name b authzid tok (some scoped) st =
        let name = directory_name oidc b scoped in
        if not (acts_as_self oidc authzid name scoped)
        then (say (was_refused name) st, challenged insufficient_scope)
        else if data_too_old site env st
        then (say (was_refused name) st, challenged invalid_token)
        else with_person tok name (find_person oidc name (who st)) st

    with_token : OidcBlock → Text → Option Token → State C → State C × SaslResult
    unfolding with_name
    with_token b authzid none st = (a_token st, challenged invalid_token)
    with_token b authzid (some tok) st =
        if is_empty tok.username
        then (a_token st, challenged invalid_token)
        else with_name b authzid tok (oidc.scoped_name tok.username b.domains) st

    with_credentials : OidcBlock → Option (Text × Text) → State C → State C × SaslResult
    unfolding with_token
    with_credentials b none st = (a_token st, challenged invalid_request)
    with_credentials b (some (authzid, token)) st = with_token b authzid (oidc.verify token) st

    with_block : Bool → Text → Text → Option OidcBlock → State C → State C × SaslResult
    unfolding with_credentials
    with_block encrypted mechanism credentials none st = (st, answer auth_method_not_supported)
    with_block encrypted mechanism credentials (some b) st =
        if not (text_eq mechanism (codes "OAUTHBEARER"))
        then (st, answer auth_method_not_supported)
        else if text_eq credentials (kvsep ∷ [])
        then (st, answer invalid_credentials)
        else if not encrypted && not b.allow_plaintext
        then (a_token st, answer confidentiality_required)
        else with_credentials b (parse_oauth_bearer fold credentials) st

    -- BindSASL; `encrypted` is whether the session is.
    pub bind_sasl : Bool → Text → Text → State C → State C × SaslResult
    unfolding with_block
    bind_sasl encrypted mechanism credentials st =
        with_block encrypted mechanism credentials site.cfg.oidc
          (record st { binds = st.binds + 1 })
