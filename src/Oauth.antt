-- ===== src/Oauth.antt =====
-- oidc.go: what an OAUTHBEARER bind carries, and the kinds of factor a token answers for.
pub mod Credentials
pub mod Kinds
pub mod Tests
use authnd.Base.{
  ◌==◌, if◌then◌else◌, is_some, any, Text, codes, is_empty, Casing, to_lower, text_eq, cut, split,
  cut_prefix, ℕ, zero, suc, ◌+◌, String, Bool, true, false, not, ◌&&◌, ◌||◌, Option, none, some,
  List, [], ◌∷◌, ◌++◌,
}
use authnd.Factors.{Kind, knowledge, possession, inherence, unknown}
use authnd.Roster.{Fold, equal_fold}

-- kvsep
abbrev pub kvsep : ℕ
kvsep = 1

-- The character that an escape at the start of the text stands for.
escaped : Text → Option ℕ
escaped s =
    if is_some (cut_prefix (codes "=2C") s)
    then some b','
    else if is_some (cut_prefix (codes "=3D") s)
    then some b'='
    else none

-- The Replacer of gs2Authzid: `skipped` characters of an escape are still to be passed over.
unescape_from : ℕ → Text → Text
unfolding escaped
unescape_from skipped [] = []
unescape_from (suc skipped) (c ∷ s) = unescape_from skipped s
unescape_from zero (c ∷ s) = elim (escaped (c ∷ s)) [
  | some e ↦ e ∷ unescape_from 2 s
  | none ↦ c ∷ unescape_from 0 s
]

unescape : Text → Text
unfolding unescape_from
unescape s = unescape_from 0 s

authzid_in : Text → Option Text
unfolding unescape
authzid_in [] = some []
authzid_in id = elim (cut_prefix (codes "a=") id) [ none ↦ none | some name ↦ some (unescape name) ]

is_flag : Text → Bool
is_flag flag = text_eq flag (codes "n") || text_eq flag (codes "y")

-- gs2Authzid; none is an error. A flag "p=..." and an unknown one are both errors.
pub gs2_authzid : Text → Option Text
unfolding authzid_in is_flag
gs2_authzid header = elim (cut b',' header) [
  | none ↦ none
  | some (flag, rest) ↦
      if is_flag flag
      then elim (cut b',' rest) [ none ↦ none | some (id, more) ↦ authzid_in id ]
      else none
]

bearer_token : Fold → Text → Option Text
unfolding equal_fold
bearer_token fold value = elim (cut b' ' value) [
  | none ↦ none
  | some (scheme, tok) ↦
      if equal_fold fold scheme (codes "Bearer") && not (is_empty tok) then some tok else none
]

-- The loop of parseOAuthBearer over the fields behind the header.
find_token : Fold → List Text → Option Text
unfolding equal_fold bearer_token
find_token fold [] = none
find_token fold (p ∷ ps) =
    let rest = find_token fold ps in
    elim (cut b'=' p) [
      | none ↦ rest
      | some (key, value) ↦
          if equal_fold fold key (codes "auth") then bearer_token fold value else rest
    ]

both : Option Text → Option Text → Option (Text × Text)
both (some authzid) (some token) = some (authzid, token)
both _ _ = none

parse_fields : Fold → List Text → Option (Text × Text)
unfolding both find_token
parse_fields fold [] = none
parse_fields fold (header ∷ []) = none
parse_fields fold (header ∷ fields) = both (gs2_authzid header) (find_token fold fields)

-- parseOAuthBearer: the authzid and the token; none is an error.
unfoldable pub parse_oauth_bearer : Fold → Text → Option (Text × Text)
unfolding parse_fields gs2_authzid
parse_oauth_bearer fold creds =
    if is_empty creds then none else parse_fields fold (split kvsep creds)

escape : Text → Text
escape [] = []
escape (c ∷ s) =
    let rest = escape s in
    if c == b',' then codes "=2C" ++ rest else if c == b'=' then codes "=3D" ++ rest else c ∷ rest

authzid_field : Text → Text
unfolding escape
authzid_field [] = []
authzid_field authzid = codes "a=" ++ escape authzid

-- oauthBearerCredentials
unfoldable pub oauth_bearer_credentials : Text → Text → Text
unfolding authzid_field
oauth_bearer_credentials authzid token =
    (codes "n," ++ (authzid_field authzid ++ codes ","))
    ++ kvsep ∷ ((codes "auth=Bearer " ++ token) ++ kvsep ∷ kvsep ∷ [])

among : Text → List String → Bool
among m names = any (λ n. text_eq m (codes n)) names

-- amrKind
pub amr_kind : Casing → Text → Kind
unfolding among
amr_kind u method =
    let m = to_lower u method in
    if among m ("pwd" ∷ "pin" ∷ "kba" ∷ "mca" ∷ [])
    then knowledge
    else if among m
        ("otp" ∷ "hwk" ∷ "swk" ∷ "sms" ∷ "tel" ∷ "sc" ∷ "pop" ∷ "user" ∷ "wia" ∷ "mfa" ∷ [])
    then possession
    else if among m ("fpt" ∷ "face" ∷ "iris" ∷ "retina" ∷ "vbm" ∷ "geo" ∷ [])
    then inherence
    else unknown

pub kind_eq : Kind → Kind → Bool
kind_eq knowledge knowledge = true
kind_eq possession possession = true
kind_eq inherence inherence = true
kind_eq unknown unknown = true
kind_eq _ _ = false

-- The loop of tokenFactors, past the kinds that it has seen.
new_kinds : Casing → List Kind → List Text → List Kind
unfolding kind_eq
new_kinds u seen [] = []
new_kinds u seen (m ∷ ms) = elim (any (kind_eq (amr_kind u m)) seen) [
  | true ↦ new_kinds u seen ms
  | false ↦ amr_kind u m ∷ new_kinds u (amr_kind u m ∷ seen) ms
]

-- tokenFactors: the kind of each factor; each of them answers yes.
pub token_kinds : Casing → Option (List Text) → List Kind
unfolding new_kinds
token_kinds u none = possession ∷ []
token_kinds u (some []) = possession ∷ []
token_kinds u (some methods) = new_kinds u [] methods
