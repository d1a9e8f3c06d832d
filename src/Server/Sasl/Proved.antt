-- ===== src/Server/Sasl/Proved.antt =====
-- What stands behind a bind with a token that succeeds.
use authnd.Base.{
  Bool-cases, Text, codes, text_eq_iff, is_empty, Casing, text_eq, ◌+◌, ◌≡◌, refl, ◌⊎◌, inl, inr,
  Bool, true, false, not, ◌&&◌, ◌||◌, Option, none, some, [], ◌∷◌, arith,
}
use authnd.Config.{OidcBlock}
use authnd.Directory.{Identity}
use authnd.Factors.{Count, Mfa}
use authnd.Oauth.{kvsep, parse_oauth_bearer}
use authnd.Roster.{Fold}
use authnd.Server.{success, Result, Site, State, Env, who, data_too_old, wants_code}
use authnd.Server.Names.{dn_of}
use authnd.Server.Bind.{decide}
use authnd.Server.Sasl.{
  Token, Oidc, SaslResult, directory_name, find_person, acts_as_self, token_factors, bound, decided,
  with_person, with_name, with_token, with_credentials, with_block, bind_sasl,
}
use authnd.Server.Sasl.Named.{IsNamed, find_person-IsNamed}

module _ {C : Type 0} (u : Casing) (fold : Fold) (mfa : Mfa C) (count : Count C) (site : Site)
    (env : Env) (oidc : Oidc) where
  -- The person whom a scoped token names, and why the bind may be theirs.
  pub record IsTheirs (tok : Token) (name : Text) (st : State C) (r : SaslResult) : Type 0 where
    pub person : Text
    pub id : Identity
    pub named : IsNamed oidc (who st) name person id
    pub bound_as : r.bound_dn ≡ some (dn_of site.people_dn id.name)
    pub factors :
        (wants_code site ≡ false)
        ⊎ ((decide u mfa count site env person (token_factors u tok) st).1.code ≡ success)

  decided-success :
      (id : Identity) (p : State C × Result)
      → (decided u fold mfa count site env oidc id p).1.code ≡ success
      → (p.1.code ≡ success)
        × ((decided u fold mfa count site env oidc id p).1.bound_dn
            ≡ some (dn_of site.people_dn id.name))
  unfolding decided
  decided-success id (st, r) h = ground (arith, h)

  with_person-IsTheirs :
      (tok : Token) (name : Text) (o : Option (Text × Identity)) (st : State C)
      → find_person oidc name (who st) ≡ o
      → (with_person u fold mfa count site env oidc tok name o st).1.code ≡ success
      → IsTheirs tok name st (with_person u fold mfa count site env oidc tok name o st).1
  unfolding with_person bound
  with_person-IsTheirs tok name none st e h = absurd (ground (arith, h))
  with_person-IsTheirs tok name (some (n, id)) st e h = elim (Bool-cases (wants_code site)) [
    | inl w ↦
        let p =
          decided-success id (decide u mfa count site env n (token_factors u tok) st)
            (ground (arith, h, w)) in
        record {
          person = n;
          id = id;
          named = find_person-IsNamed oidc name n id (who st) e;
          bound_as = ground (arith, w, p.1);
          factors = inr p.0;
        }
    | inr w ↦ record {
      person = n;
      id = id;
      named = find_person-IsNamed oidc name n id (who st) e;
      bound_as = ground (arith, w);
      factors = inl w;
    }
  ]

  -- What stands behind a bind with a token that succeeds.
  pub record IsProvedToken (encrypted : Bool) (mechanism credentials : Text) (st : State C)
      (r : SaslResult) : Type 0 where
    pub block : OidcBlock
    pub configured : site.cfg.oidc ≡ some block
    pub mechanism_named : mechanism ≡ codes "OAUTHBEARER"
    pub transport : (encrypted || block.allow_plaintext) ≡ true
    pub authzid : Text
    pub raw : Text
    pub read : parse_oauth_bearer fold credentials ≡ some (authzid, raw)
    pub tok : Token
    pub verified : oidc.verify raw ≡ some tok
    pub scoped : Text
    pub in_scope : oidc.scoped_name tok.username block.domains ≡ some scoped
    pub acts : acts_as_self oidc authzid (directory_name oidc block scoped) scoped ≡ true
    pub fresh : data_too_old site env st ≡ false
    pub theirs : IsTheirs tok (directory_name oidc block scoped) st r

  -- What is proved of the name, once the token is verified.
  record NameFacts (b : OidcBlock) (authzid : Text) (tok : Token) (o : Option Text) (st : State C)
      (r : SaslResult) : Type 0 where
    scoped : Text
    in_scope : o ≡ some scoped
    acts : acts_as_self oidc authzid (directory_name oidc b scoped) scoped ≡ true
    fresh : data_too_old site env st ≡ false
    theirs : IsTheirs tok (directory_name oidc b scoped) st r

  with_name-facts :
      (b : OidcBlock) (authzid : Text) (tok : Token) (o : Option Text) (st : State C)
      → (with_name u fold mfa count site env oidc b authzid tok o st).1.code ≡ success
      → NameFacts b authzid tok o st (with_name u fold mfa count site env oidc b authzid tok o st).1
  unfolding with_name
  with_name-facts b authzid tok none st h = absurd (ground (arith, h))
  with_name-facts b authzid tok (some scoped) st h =
      elim (Bool-cases (acts_as_self oidc authzid (directory_name oidc b scoped) scoped)) [
        | inr a ↦ absurd (ground (arith, h, a))
        | inl a ↦ elim (Bool-cases (data_too_old site env st)) [
          | inl old ↦ absurd (ground (arith, h, a, old))
          | inr fresh ↦
              simp (a, fresh)
                (record {
                  scoped = scoped;
                  in_scope = refl;
                  acts = a;
                  fresh = fresh;
                  theirs =
                      with_person-IsTheirs tok (directory_name oidc b scoped)
                        (find_person oidc (directory_name oidc b scoped) (who st)) st refl
                        (ground (arith, h, a, fresh));
                })
        ]
      ]

  -- What is proved of the token, once the credentials are read.
  record TokenFacts (b : OidcBlock) (authzid raw : Text) (st : State C) (r : SaslResult)
      : Type 0 where
    tok : Token
    verified : oidc.verify raw ≡ some tok
    name_facts : NameFacts b authzid tok (oidc.scoped_name tok.username b.domains) st r

  with_token-facts :
      (b : OidcBlock) (authzid raw : Text) (o : Option Token) (st : State C)
      → oidc.verify raw ≡ o
      → (with_token u fold mfa count site env oidc b authzid o st).1.code ≡ success
      → TokenFacts b authzid raw st (with_token u fold mfa count site env oidc b authzid o st).1
  unfolding with_token
  with_token-facts b authzid raw none st e h = absurd (ground (arith, h))
  with_token-facts b authzid raw (some tok) st e h = elim (Bool-cases (is_empty tok.username)) [
    | inl nobody ↦ absurd (ground (arith, h, nobody))
    | inr somebody ↦ simp (somebody) (record {
      tok = tok;
      verified = e;
      name_facts =
          with_name-facts b authzid tok (oidc.scoped_name tok.username b.domains) st
            (ground (arith, h, somebody));
    })
  ]

  with_credentials-proved :
      (b : OidcBlock) (encrypted : Bool) (mechanism credentials : Text) (o : Option (Text × Text))
      (st : State C)
      → site.cfg.oidc ≡ some b
      → mechanism ≡ codes "OAUTHBEARER"
      → (encrypted || b.allow_plaintext) ≡ true
      → parse_oauth_bearer fold credentials ≡ o
      → (with_credentials u fold mfa count site env oidc b o st).1.code ≡ success
      → IsProvedToken encrypted mechanism credentials st
          (with_credentials u fold mfa count site env oidc b o st).1
  unfolding with_credentials
  with_credentials-proved b encrypted mechanism credentials none st c m t e h =
      absurd (ground (arith, h))
  with_credentials-proved b encrypted mechanism credentials (some (authzid, raw)) st c m t e h =
      let f = with_token-facts b authzid raw (oidc.verify raw) st refl h in
      record {
        block = b;
        configured = c;
        mechanism_named = m;
        transport = t;
        authzid = authzid;
        raw = raw;
        read = e;
        tok = f.tok;
        verified = f.verified;
        scoped = f.name_facts.scoped;
        in_scope = f.name_facts.in_scope;
        acts = f.name_facts.acts;
        fresh = f.name_facts.fresh;
        theirs = f.name_facts.theirs;
      }

  with_block-proved :
      (encrypted : Bool) (mechanism credentials : Text) (o : Option OidcBlock) (st : State C)
      → site.cfg.oidc ≡ o
      → (with_block u fold mfa count site env oidc encrypted mechanism credentials o st).1.code
        ≡ success
      → IsProvedToken encrypted mechanism credentials st
          (with_block u fold mfa count site env oidc encrypted mechanism credentials o st).1
  unfolding with_block
  with_block-proved encrypted mechanism credentials none st c h = absurd (ground (arith, h))
  with_block-proved encrypted mechanism credentials (some b) st c h =
      elim (Bool-cases (text_eq mechanism (codes "OAUTHBEARER"))) [
        | inr m ↦ absurd (ground (arith, h, m))
        | inl m ↦ elim (Bool-cases (text_eq credentials (kvsep ∷ []))) [
          | inl k ↦ absurd (ground (arith, h, m, k))
          | inr k ↦ elim (Bool-cases (not encrypted && not b.allow_plaintext)) [
            | inl p ↦ absurd (ground (arith, h, m, k, p))
            | inr p ↦
                simp (m, k, p)
                  (with_credentials-proved b encrypted mechanism credentials
                    (parse_oauth_bearer fold credentials) st c
                    ((text_eq_iff mechanism (codes "OAUTHBEARER")).0 m) (ground (arith, p)) refl
                    (ground (arith, h, m, k, p)))
          ]
        ]
      ]

  -- A bind with a token succeeds only over an encrypted session (or where plaintext is allowed), by
  -- OAUTHBEARER, with credentials that carry a token which the issuer's verifier accepts for a name
  -- in a scope of the configuration, that asks to act as nobody else, from data that is not too
  -- old. The session is then bound as the person who is served under the directory's name for it,
  -- ignoring ASCII case, and where a code is wanted the policy was satisfied by the token's own
  -- factors. The state that it is about has counted the bind.
  pub bind_sasl-IsProvedToken :
      (encrypted : Bool) (mechanism credentials : Text) (st : State C)
      → (bind_sasl u fold mfa count site env oidc encrypted mechanism credentials st).1.code
        ≡ success
      → IsProvedToken encrypted mechanism credentials
          (record st { binds = st.binds + 1 })
          (bind_sasl u fold mfa count site env oidc encrypted mechanism credentials st).1
  unfolding bind_sasl
  bind_sasl-IsProvedToken encrypted mechanism credentials st h =
      with_block-proved encrypted mechanism credentials site.cfg.oidc
        (record st { binds = st.binds + 1 }) refl h
