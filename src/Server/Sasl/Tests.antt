-- ===== src/Server/Sasl/Tests.antt =====
-- A token for one person.
use authnd.Base.{
  codes, text_eq, cut, split, has_suffix, get, ◌≡◌, refl, true, false, none, some, [], ◌∷◌,
}
use authnd.Config.{Config, OidcBlock}
use authnd.Fixtures.{ascii, swap_case, config, site, start, env, counter, in_order}
use authnd.Oauth.{parse_oauth_bearer, oauth_bearer_credentials}
use authnd.Server.{Code, success, Site, State, data_too_old}
use authnd.Server.Sasl.{Token, Oidc, SaslResult, bind_sasl}
use authnd.Server.Sasl.Proved.{IsProvedToken, bind_sasl-IsProvedToken}

abbrev issuer : OidcBlock
issuer = record {
  issuer = codes "https://i";
  audience = codes "ldap";
  username_claim = [];
  domains = codes "d" ∷ [];
  local_domain = codes "d";
  allow_plaintext = false;
}

abbrev with_issuer : Site
with_issuer = record site { cfg = record config { oidc = some issuer } }

-- A verifier that accepts every token, for alice.
abbrev for_alice : Oidc
for_alice = record {
  verify = λ t. some (record { username = codes "alice@d"; methods = none });
  scoped_name = λ n domains. some n;
  equal_ascii_fold = λ s t. text_eq s t;
  lower_ascii = λ t. t;
}

sasl_works :
    (bind_sasl ascii swap_case in_order counter with_issuer env for_alice true
      (codes "OAUTHBEARER")
      (oauth_bearer_credentials [] (codes "t"))
      start).1.code
    ≡ success
unfolding bind_sasl oauth_bearer_credentials text_eq parse_oauth_bearer split cut
    authnd.Roster.fold_name authnd.Roster.least_in_orbit authnd.Server.Sasl.acts_as_self
    data_too_old authnd.Config.Refresh.max_age authnd.Server.Sasl.find_person get
    authnd.Server.Sasl.directory_name has_suffix authnd.Server.wants_code
sasl_works = refl

bind_sasl-IsProvedToken_example :
    IsProvedToken ascii swap_case in_order counter with_issuer env for_alice true
      (codes "OAUTHBEARER")
      (oauth_bearer_credentials [] (codes "t"))
      (record start { binds = 1 })
      (bind_sasl ascii swap_case in_order counter with_issuer env for_alice true
        (codes "OAUTHBEARER")
        (oauth_bearer_credentials [] (codes "t"))
        start).1
bind_sasl-IsProvedToken_example =
    bind_sasl-IsProvedToken ascii swap_case in_order counter with_issuer env for_alice true
      (codes "OAUTHBEARER") (oauth_bearer_credentials [] (codes "t")) start sasl_works
