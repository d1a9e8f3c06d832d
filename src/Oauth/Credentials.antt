-- ===== src/Oauth/Credentials.antt =====
-- oidc.go: the credentials that a client builds, and the server's reading of them.
use authnd.Base.{
  ◌==◌, Bool-cases, Text, codes, text_eq_refl, Free, cut-append, text_eq, cut, split, cut_prefix, ℕ,
  ◌≡◌, refl, ap, ◌∙◌, ◌≢◌, inl, inr, none, some, List, [], ◌∷◌, ◌++◌, arith,
}
use authnd.Roster.{Fold, fold_name}
use authnd.Oauth.{
  kvsep, escaped, unescape_from, unescape, authzid_in, is_flag, gs2_authzid, find_token, both,
  parse_fields, parse_oauth_bearer, escape, authzid_field, oauth_bearer_credentials,
}

split-cons : (sep : ℕ) (s : Text) → (w : Text) × (ws : List Text) × (split sep s ≡ w ∷ ws)
unfolding split
split-cons sep [] = ([], [], refl)
split-cons sep (c ∷ s) =
    let (w, ws, e) = split-cons sep s in
    elim (Bool-cases (c == sep)) [
      | inl q ↦ ([], w ∷ ws, ground (arith, e, q))
      | inr q ↦ (c ∷ w, ws, ground (arith, e, q))
    ]

split-append : (sep : ℕ) (a b : Text) → Free sep a → split sep (a ++ sep ∷ b) ≡ a ∷ split sep b
unfolding split
split-append sep [] b h = let (w, ws, e) = split-cons sep b in ground (arith, e)
split-append sep (c ∷ a) b h = ground (arith, split-append sep a b h.1)

Free-append : (sep : ℕ) (a b : Text) → Free sep a → Free sep b → Free sep (a ++ b)
Free-append sep [] b h k = k
Free-append sep (c ∷ a) b h k = (h.0, Free-append sep a b h.1 k)

-- No escape starts at another character.
escaped-ne : (c : ℕ) (s : Text) → c ≢ b'=' → escaped (c ∷ s) ≡ none
unfolding escaped cut_prefix
escaped-ne c s h = ground arith

-- An escaped name is read back.
unescape-escape : (s : Text) → unescape_from 0 (escape s) ≡ s
unfolding unescape_from escape escaped cut_prefix
unescape-escape [] = refl
unescape-escape (c ∷ s) = elim (Bool-cases (c == b',')) [
  | inl e ↦ rw e ground (arith, unescape-escape s)
  | inr e ↦ elim (Bool-cases (c == b'=')) [
    | inl f ↦ rw e (rw f ground (arith, unescape-escape s))
    | inr f ↦ rw e (rw f (ground (arith, unescape-escape s)))
  ]
]

-- Escaping leaves no comma, and adds no other separator.
escape-Free : (s : Text) → Free b',' (escape s)
unfolding escape
escape-Free [] = tt
escape-Free (c ∷ s) = elim (Bool-cases (c == b',')) [
  | inl e ↦ rw e (ground arith, (ground arith, (ground arith, escape-Free s)))
  | inr e ↦ elim (Bool-cases (c == b'=')) [
    | inl f ↦ rw e (rw f (ground arith, (ground arith, (ground arith, escape-Free s))))
    | inr f ↦ rw e (rw f (ground arith, escape-Free s))
  ]
]

escape-Free-kvsep : (s : Text) → Free kvsep s → Free kvsep (escape s)
unfolding escape
escape-Free-kvsep [] h = tt
escape-Free-kvsep (c ∷ s) (h, k) = elim (Bool-cases (c == b',')) [
  | inl e ↦ rw e (ground arith, (ground arith, (ground arith, escape-Free-kvsep s k)))
  | inr e ↦ elim (Bool-cases (c == b'=')) [
    | inl f ↦ rw e (rw f (ground arith, (ground arith, (ground arith, escape-Free-kvsep s k))))
    | inr f ↦ rw e (rw f (h, escape-Free-kvsep s k))
  ]
]

gs2_authzid-flag :
    (id : Text) → Free b',' id → gs2_authzid (b'n' ∷ b',' ∷ (id ++ b',' ∷ [])) ≡ authzid_in id
unfolding gs2_authzid cut is_flag text_eq
gs2_authzid-flag id h = ground (arith, cut-append b',' id [] h)

authzid_in-field : (authzid : Text) → authzid_in (authzid_field authzid) ≡ some authzid
unfolding authzid_in authzid_field unescape cut_prefix
authzid_in-field [] = refl
authzid_in-field (c ∷ s) = ap some (unescape-escape (c ∷ s))

authzid_field-Free : (authzid : Text) → Free b',' (authzid_field authzid)
unfolding authzid_field
authzid_field-Free [] = tt
authzid_field-Free (c ∷ s) = (ground arith, (ground arith, escape-Free (c ∷ s)))

authzid_field-Free-kvsep :
    (authzid : Text) → Free kvsep authzid → Free kvsep (authzid_field authzid)
unfolding authzid_field
authzid_field-Free-kvsep [] h = tt
authzid_field-Free-kvsep (c ∷ s) h = (ground arith, (ground arith, escape-Free-kvsep (c ∷ s) h))

bearer_token-credentials :
    (fold : Fold) (token : Text)
    → token ≢ []
    → find_token fold ((codes "auth=Bearer " ++ token) ∷ [] ∷ [] ∷ []) ≡ some token
unfolding find_token cut
bearer_token-credentials fold [] h = absurd (h refl)
bearer_token-credentials fold (c ∷ token) h = ground (
  arith,
  text_eq_refl (fold_name fold (codes "auth")),
  text_eq_refl (fold_name fold (codes "Bearer")),
)

header_Free :
    (authzid : Text)
    → Free kvsep authzid
    → Free kvsep (codes "n," ++ (authzid_field authzid ++ codes ","))
header_Free authzid h = (
  ground arith,
  (
    ground arith,
    Free-append kvsep (authzid_field authzid) (codes ",") (authzid_field-Free-kvsep authzid h)
        (ground arith, tt),
  ),
)

bearer_Free : (token : Text) → Free kvsep token → Free kvsep (codes "auth=Bearer " ++ token)
bearer_Free token h = Free-append kvsep (codes "auth=Bearer ") token (ground arith) h

last_field : split kvsep (kvsep ∷ []) ≡ [] ∷ [] ∷ []
unfolding split
last_field = refl

-- The three fields behind the header, and nothing else.
split-credentials :
    (authzid token : Text)
    → Free kvsep authzid
    → Free kvsep token
    → split kvsep (oauth_bearer_credentials authzid token)
      ≡ (codes "n," ++ (authzid_field authzid ++ codes ","))
        ∷ (codes "auth=Bearer " ++ token)
        ∷ []
        ∷ []
        ∷ []
unfolding oauth_bearer_credentials
split-credentials authzid token h k =
    split-append kvsep (codes "n," ++ (authzid_field authzid ++ codes ","))
      ((codes "auth=Bearer " ++ token) ++ kvsep ∷ kvsep ∷ []) (header_Free authzid h)
    ∙ ap (λ x. (codes "n," ++ (authzid_field authzid ++ codes ",")) ∷ x)
        (split-append kvsep (codes "auth=Bearer " ++ token) (kvsep ∷ []) (bearer_Free token k)
          ∙ ap (λ x. (codes "auth=Bearer " ++ token) ∷ x) last_field)

fields_read :
    (fold : Fold) (authzid token : Text)
    → token ≢ []
    → parse_fields fold (
        (codes "n," ++ (authzid_field authzid ++ codes ","))
        ∷ (codes "auth=Bearer " ++ token)
        ∷ []
        ∷ []
        ∷ [])
      ≡ some (authzid, token)
unfolding parse_fields both
fields_read fold authzid token h = ground (
  arith,
  gs2_authzid-flag (authzid_field authzid) (authzid_field-Free authzid),
  authzid_in-field authzid,
  bearer_token-credentials fold token h,
)

-- The server reads from the credentials that a client builds the authzid and the token that went
-- in, with commas and equals signs in the authzid, where neither holds the separator and the token
-- is not empty.
pub parse_oauth_bearer-credentials :
    (fold : Fold) (authzid token : Text)
    → Free kvsep authzid
    → Free kvsep token
    → token ≢ []
    → parse_oauth_bearer fold (oauth_bearer_credentials authzid token) ≡ some (authzid, token)
unfolding parse_oauth_bearer oauth_bearer_credentials split
parse_oauth_bearer-credentials fold authzid token h k some_token =
    ap (parse_fields fold) (split-credentials authzid token h k)
    ∙ fields_read fold authzid token some_token
