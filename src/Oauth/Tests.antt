-- ===== src/Oauth/Tests.antt =====
-- Credentials of one client, and a token with two methods of one kind.
use authnd.Base.{codes, ◌≡◌, some, arith}
use authnd.Fixtures.{swap_case}
use authnd.Oauth.{parse_oauth_bearer, oauth_bearer_credentials}
use authnd.Oauth.Credentials.{parse_oauth_bearer-credentials}

parse_oauth_bearer-credentials_example :
    parse_oauth_bearer swap_case (oauth_bearer_credentials (codes "a,b=c") (codes "t0ken"))
    ≡ some (codes "a,b=c", codes "t0ken")
parse_oauth_bearer-credentials_example =
    parse_oauth_bearer-credentials swap_case (codes "a,b=c") (codes "t0ken") (ground arith)
      (ground arith) (λ e. cc)
