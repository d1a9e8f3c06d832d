-- ===== src/Server/Password/Authorised.antt =====
-- Whose password a request may change, and what it has proved when it reaches the lock.
use authnd.Base.{
  Option-cases, is_some, Text, text_eq_iff, is_empty, Casing, text_eq, get, ◌≡◌, refl, sym, ap, ◌∙◌,
  ◌⊎◌, inl, inr, Bool, true, false, Option, none, some, List, [], ◌∷◌, arith,
}
use authnd.Directory.{Identity, proved, answered}
use authnd.PasswdModify.{PasswdModify, Packet, decode_passwd_modify}
use authnd.Pending.{within_proved}
use authnd.Roster.{Fold}
use authnd.Server.{Site, State, Env, Result, who, data_too_old}
use authnd.Server.Names.{name_of, dn_of}
use authnd.Server.Changes.{Change, PasswordChange, only_a_password_change}
use authnd.Server.Password.{
  Proven, own_password, proves_password, prove_change, prove_modify, modify_proves, prove_extended,
  prove_request, extended_proves, target_dn,
}

module _ {C : Type 0} (u : Casing) (fold : Fold) (equal_dn : Text → Text → Bool) (site : Site) where
  -- The session is bound as the person at `dn`, who is served and is `target`.
  pub record IsOwner (bound dn target : Text) (st : State C) : Type 0 where
    pub at : name_of u site.people_dn dn ≡ some target
    pub session : name_of u site.people_dn bound ≡ some target
    pub same_dn : equal_dn bound (dn_of site.people_dn target) ≡ true
    pub served : is_some (get target (who st)) ≡ true

  -- The password of the identity at `target` was proved, whatever the session was bound by.
  pub record HasProved (env : Env) (target : Text) (old : Option Text) (new : Text) (p : Proven)
      (st : State C) : Type 0 where
    pub named : p.target ≡ target
    pub current : get target (who st) ≡ some p.id
    pub able : p.id.can_verify ≡ true
    pub sent : old ≡ some p.old
    pub asks : p.new ≡ new
    pub knows : env.reply p.id p.old ≡ answered proved

  own_password-IsOwner :
      (bound dn target : Text) (st : State C)
      → own_password u fold equal_dn site bound dn st ≡ inl target
      → IsOwner bound dn target st
  unfolding own_password
  own_password-IsOwner bound dn target st h = elim (Option-cases (name_of u site.people_dn dn)) [
    | inl e ↦ absurd (ground arith)
    | inr (t, e) ↦ elim (Option-cases (name_of u site.people_dn bound)) [
      | inl f ↦ absurd (ground arith)
      | inr (self, f) ↦
          let same : t ≡ target = ground arith in
          let owner : text_eq self t ≡ true = ground arith in
          let eq : self ≡ target = (text_eq_iff self t).0 owner ∙ same in
          record {
            at = e ∙ ap some same;
            session = f ∙ ap some eq;
            same_dn = ground arith;
            served = rw (← eq) (ground arith);
          }
    ]
  ]

  prove_change-HasProved :
      (env : Env) (target : Text) (old : Option Text) (new : Text) (p : Proven) (st : State C)
      → (prove_change u fold equal_dn site env target old new st).1 ≡ inl p
      → HasProved env target old new p st
  unfolding prove_change proves_password
  prove_change-HasProved env target old new p st h = elim (Option-cases (get target (who st))) [
    | inl e ↦ absurd (ground arith)
    | inr (id, e) ↦ given old id e h
  ]
    where
      given :
          (old : Option Text) (id : Identity)
          → get target (who st) ≡ some id
          → (prove_change u fold equal_dn site env target old new st).1 ≡ inl p
          → HasProved env target old new p st
      given none id e h = absurd (ground arith)
      given (some o) id e h =
          let same : id ≡ p.id = ground arith in
          let old_is : o ≡ p.old = ground arith in
          record {
            named = ground arith;
            current = e ∙ ap some same;
            able = ground arith;
            sent = ap some old_is;
            asks = ground arith;
            knows =
                rw (← same, ← old_is)
                  (within_proved id.source (env.reply id o) st.pending (ground arith));
          }

  -- What a request that reached the lock has shown, for the old and new password that it carries.
  HasProved-named :
      (env : Env) (target : Text) (old : Option Text) (new : Text) (p : Proven) (st : State C)
      → HasProved env target old new p st
      → HasProved env p.target (some p.old) p.new p st
  HasProved-named env target old new p st h = record {
    named = refl;
    current = ap (λ t. get t (who st)) h.named ∙ h.current;
    able = h.able;
    sent = refl;
    asks = refl;
    knows = h.knows;
  }

  prove_modify-inv :
      (env : Env) (changes : List Change) (target : Text) (p : Proven) (st : State C)
      → (prove_modify u fold equal_dn site env changes (inl target) st).1 ≡ inl p
      → (data_too_old site env st ≡ false)
        × (c : PasswordChange) × (only_a_password_change fold changes ≡ some c)
        × HasProved env target c.old c.new p st
  unfolding prove_modify
  prove_modify-inv env changes target p st h =
      elim (Option-cases (only_a_password_change fold changes)) [
        | inl e ↦ absurd (ground arith)
        | inr (c, e) ↦
            (ground arith, c, e, prove_change-HasProved env target c.old c.new p st (ground arith))
      ]

  -- A modify reaches the lock only where the session is bound as the person whose entry it names,
  -- the data is not too old, and the request is a change of that person's password and nothing
  -- else which sent the password that the person's own source then proved.
  pub modify_proves-IsOwner :
      (env : Env) (bound dn : Text) (changes : List Change) (p : Proven) (st : State C)
      → (modify_proves u fold equal_dn site env bound dn changes st).1 ≡ inl p
      → IsOwner bound dn p.target st
        × (data_too_old site env st ≡ false)
        × (only_a_password_change fold changes ≡ some (record { old = some p.old; new = p.new }))
        × HasProved env p.target (some p.old) p.new p st
  unfolding modify_proves prove_modify
  modify_proves-IsOwner env [] dn changes p st h = absurd (ground arith)
  modify_proves-IsOwner env (b ∷ bound) dn changes p st h =
      owned (own_password u fold equal_dn site (b ∷ bound) dn st) refl h
    where
      owned :
          (o : Text ⊎ Result)
          → own_password u fold equal_dn site (b ∷ bound) dn st ≡ o
          → (prove_modify u fold equal_dn site env changes o st).1 ≡ inl p
          → IsOwner (b ∷ bound) dn p.target st
            × (data_too_old site env st ≡ false)
            × (only_a_password_change fold changes
                ≡ some (record { old = some p.old; new = p.new }))
            × HasProved env p.target (some p.old) p.new p st
      owned (inr r) e k = absurd (ground arith)
      owned (inl target) e k =
          let (fresh, c, shape, proof) = prove_modify-inv env changes target p st k in
          (
            rw proof.named (own_password-IsOwner (b ∷ bound) dn target st e),
            fresh,
            shape ∙ ground (arith, proof.sent, proof.asks),
            HasProved-named env target c.old c.new p st proof,
          )

  prove_extended-inv :
      (env : Env) (pm : PasswdModify) (target : Text) (p : Proven) (st : State C)
      → (prove_extended u fold equal_dn site env pm (inl target) st).1 ≡ inl p
      → (is_empty pm.new ≡ false) × HasProved env target pm.old pm.new p st
  unfolding prove_extended
  prove_extended-inv env pm target p st h =
      (ground arith, prove_change-HasProved env target pm.old pm.new p st (ground arith))

  -- What the password modify operation has shown where it reaches the lock.
  pub record IsPasswdModify (env : Env) (bound : Text) (pm : PasswdModify) (p : Proven)
      (st : State C) : Type 0 where
    pub signed : is_empty bound ≡ false
    pub fresh : data_too_old site env st ≡ false
    pub owner : IsOwner bound (target_dn bound pm.identity) p.target st
    pub asked : (is_empty pm.new ≡ false) × (pm.new ≡ p.new)
    pub old : pm.old ≡ some p.old
    pub proof : HasProved env p.target (some p.old) p.new p st

  prove_request-inv :
      (env : Env) (bound : Text) (pm : PasswdModify) (p : Proven) (st : State C)
      → (prove_request u fold equal_dn site env bound (some pm) st).1 ≡ inl p
      → IsPasswdModify env bound pm p st
  unfolding prove_request prove_extended
  prove_request-inv env bound pm p st h =
      owned (own_password u fold equal_dn site bound (target_dn bound pm.identity) st) refl
        (ground arith)
    where
      owned :
          (o : Text ⊎ Result)
          → own_password u fold equal_dn site bound (target_dn bound pm.identity) st ≡ o
          → (prove_extended u fold equal_dn site env pm o st).1 ≡ inl p
          → IsPasswdModify env bound pm p st
      owned (inr r) e k = absurd (ground arith)
      owned (inl target) e k =
          let (new, proof) = prove_extended-inv env pm target p st k in
          record {
            signed = ground arith;
            fresh = ground arith;
            owner =
                rw proof.named
                  (own_password-IsOwner bound (target_dn bound pm.identity) target st e);
            asked = (new, sym proof.asks);
            old = proof.sent;
            proof = HasProved-named env target pm.old pm.new p st proof;
          }

  -- An extended operation reaches the lock only as a password modify request that decodes, on a
  -- session bound as the person it names (itself where it names nobody), with data that is not too
  -- old, a new password that is not empty, and the old one, which that person's source then proved.
  pub extended_proves-IsOwner :
      (env : Env) (decode : Text → Option Packet) (known : Bool) (bound value : Text) (p : Proven)
      (st : State C)
      → (extended_proves u fold equal_dn site env decode known bound value st).1 ≡ inl p
      → (known ≡ true)
        × (pm : PasswdModify) × (decode_passwd_modify decode value ≡ some pm)
        × IsPasswdModify env bound pm p st
  unfolding extended_proves prove_request
  extended_proves-IsOwner env decode known bound value p st h =
      elim (Option-cases (decode_passwd_modify decode value)) [
        | inl e ↦ absurd (ground arith)
        | inr (pm, e) ↦ (ground arith, pm, e, prove_request-inv env bound pm p st (ground arith))
      ]
