-- ===== src/Server/Password.antt =====
-- server.go: the password change: `Modify`, `Extended` and the functions under them.
pub mod Reload
pub mod Authorised
pub mod Commit
pub mod Tests
use authnd.Base.{
  ◌==◌, if◌then◌else◌, is_some, any, Text, is_empty, Casing, text_eq, Map, get, ◌+◌, ◌⊎◌, inl, inr,
  Bool, false, ◌&&◌, ◌||◌, Option, none, some, List, [], ◌∷◌, ◌++◌, map,
}
use authnd.Directory.{Identity, Outcome, proved, wrong, outage}
use authnd.PasswdModify.{PasswdModify, Packet, decode_passwd_modify}
use authnd.Pending.{within}
use authnd.Roster.{Fold, Indexed, ok, clash, new_roster}
use authnd.Server.{
  Code, success, unwilling_to_perform, insufficient_access, no_such_object, protocol_error, other,
  source_down, stale_data, anonymous, not_published, not_the_owner, not_a_password_change,
  no_password_to_prove, old_missing, old_wrong, generates_none, not_written, not_reloaded,
  unknown_operation, undecodable, served_elsewhere, Result, result, refuse, Site, State, Env, Line,
  was_refused, change_refused, not_changed, changed, say, who, data_too_old,
}
use authnd.Server.Changes.{Change, only_a_password_change}
use authnd.Server.Names.{name_of, dn_of}

-- What writing the configuration files comes to: hcldir.SetPassword's answer, and the identities of
-- the local source as loadConfig, localSource and Identities read them back; none is an error.
pub data Written : Type 0 where
  written not_declared failed : Written

pub record Files : Type 0 where
  pub set_password : Text → Text → Written
  pub read_back : Text → Text → Option (List Identity)

-- The people of the roster before that are neither in the file now nor were in it.
others : List Text → List Text → Map Identity → List Identity
others owned local [] = []
others owned local ((name, id) ∷ m) =
    let rest = others owned local m in
    if any (text_eq name) owned || any (text_eq name) local then rest else id ∷ rest

names : List Identity → List Text
names ids = map (λ id. id.name) ids

served_from : Text → Option Identity → Text
served_from set none = set
served_from set (some id) = id.source

-- Whether the proof still holds: `now == proved`, or it verifies once more.
pub still_proved : Env → Identity → Text → Option Identity → Bool
still_proved env proved_id old none = false
still_proved env proved_id old (some now) = (now.ref == proved_id.ref) || env.verify_now now old

-- What the first half of a handler hands to the second: the person whose password was proved.
pub record Proven : Type 0 where
  pub target : Text
  pub id : Identity
  pub old : Text
  pub new : Text

old_text : Option Text → Text
old_text none = []
old_text (some s) = s

pub target_dn : Text → Option Text → Text
target_dn bound none = bound
target_dn bound (some dn) = dn

module _ {C : Type 0} (u : Casing) (fold : Fold) (equal_dn : Text → Text → Bool) (site : Site) where
  same_owner : Text → Text → Option Text → State C → Bool
  same_owner bound target none st = false
  same_owner bound target (some self) st =
      is_some (get self (who st))
      && (text_eq self target && equal_dn bound (dn_of site.people_dn target))

  -- ownPassword: the person whose password may be changed, or the refusal.
  pub own_password : Text → Text → State C → Text ⊎ Result
  unfolding same_owner
  own_password bound dn st = elim (name_of u site.people_dn dn) [
    | none ↦ inr (refuse no_such_object not_published)
    | some target ↦
        if same_owner bound target (name_of u site.people_dn bound) st
        then inl target
        else inr (refuse insufficient_access not_the_owner)
  ]

  proof_answer : Text → Identity → Outcome → State C → State C × (Identity ⊎ Result)
  proof_answer target id proved st = (st, inl id)
  proof_answer target id outage st =
      (say (was_refused target) st, inr (refuse Code.unavailable source_down))
  proof_answer target id wrong st =
      (say (change_refused target) st, inr (refuse unwilling_to_perform old_wrong))

  ask_old : Env → Text → Identity → Option Text → State C → State C × (Identity ⊎ Result)
  unfolding proof_answer
  ask_old env target id none st = (st, inr (refuse insufficient_access old_missing))
  ask_old env target id (some old) st =
      let (pending, o) = within id.source (env.reply id old) st.pending in
      proof_answer target id o (record st { pending = pending })

  -- provesPassword
  pub proves_password : Env → Text → Option Text → State C → State C × (Identity ⊎ Result)
  unfolding ask_old
  proves_password env target old st = elim (get target (who st)) [
    | none ↦ (st, inr (refuse insufficient_access not_the_owner))
    | some id ↦
        if id.can_verify
        then ask_old env target id old st
        else (st, inr (refuse unwilling_to_perform no_password_to_prove))
  ]

  swap : List Identity → Indexed → State C → Option (State C)
  swap fresh (clash a b) st = none
  swap fresh (ok people) st =
      some
        (record st { snap = record st.snap { people = people }; local = fresh; gen = st.gen + 1 })

  -- reloadLocal, once the file is read: the new people beside the old ones, swapped in whole.
  pub reload_local : List Identity → State C → Option (State C)
  unfolding swap names others
  reload_local fresh st =
      swap fresh
        (new_roster fold (fresh ++ others (names fresh) st.snap.people.local (who st)) fresh) st

  reloaded : Text → Option (State C) → State C → State C × Result
  reloaded target none st = (say (Line.not_reloaded target) st, refuse other not_reloaded)
  reloaded target (some st') st = (say (changed target) st', result success)

  read_fresh : Option (List Identity) → State C → Option (State C)
  read_fresh none st = none
  read_fresh (some fresh) st = reload_local fresh st

  -- writePassword; `described` is the set's own description.
  pub write_password : Files → Text → Text → Text → State C → State C × Result
  unfolding reloaded read_fresh served_from
  write_password files described target password st = elim (files.set_password target password) [
    | not_declared ↦ (
      st,
      refuse unwilling_to_perform (served_elsewhere (served_from described (get target (who st)))),
    )
    | failed ↦ (say (not_changed target) st, refuse other not_written)
    | written ↦ reloaded target (read_fresh (files.read_back target password) st) st
  ]

  -- writeProved
  pub write_proved : Env → Files → Text → Text → Identity → Text → Text → State C → State C × Result
  unfolding still_proved
  write_proved env files described target id old password st =
      if still_proved env id old (get target (who st))
      then write_password files described target password st
      else (st, refuse unwilling_to_perform old_wrong)

  proven : Text → Option Text → Text → State C × (Identity ⊎ Result) → State C × (Proven ⊎ Result)
  unfolding old_text
  proven target old new (st, inl id) =
      (st, inl (record { target = target; id = id; old = old_text old; new = new }))
  proven target old new (st, inr r) = (st, inr r)

  -- The end of both handlers before the lock: provesPassword.
  prove_change : Env → Text → Option Text → Text → State C → State C × (Proven ⊎ Result)
  unfolding proven
  prove_change env target old new st = proven target old new (proves_password env target old st)

  prove_modify : Env → List Change → Text ⊎ Result → State C → State C × (Proven ⊎ Result)
  unfolding prove_change
  prove_modify env changes (inr r) st = (st, inr r)
  prove_modify env changes (inl target) st =
      if data_too_old site env st
      then (st, inr (refuse Code.unavailable stale_data))
      else elim (only_a_password_change fold changes) [
        | none ↦ (st, inr (refuse unwilling_to_perform not_a_password_change))
        | some c ↦ prove_change env target c.old c.new st
      ]

  -- Modify up to the lock.
  pub modify_proves : Env → Text → Text → List Change → State C → State C × (Proven ⊎ Result)
  unfolding prove_modify
  modify_proves env [] dn changes st = (st, inr (refuse insufficient_access anonymous))
  modify_proves env bound dn changes st = prove_modify env changes (own_password bound dn st) st

  prove_extended : Env → PasswdModify → Text ⊎ Result → State C → State C × (Proven ⊎ Result)
  unfolding prove_change
  prove_extended env pm (inr r) st = (st, inr r)
  prove_extended env pm (inl target) st =
      if is_empty pm.new
      then (st, inr (refuse unwilling_to_perform generates_none))
      else prove_change env target pm.old pm.new st

  prove_request : Env → Text → Option PasswdModify → State C → State C × (Proven ⊎ Result)
  unfolding prove_extended target_dn
  prove_request env bound none st = (st, inr (refuse protocol_error undecodable))
  prove_request env bound (some pm) st =
      if data_too_old site env st
      then (st, inr (refuse Code.unavailable stale_data))
      else if is_empty bound
      then (st, inr (refuse insufficient_access anonymous))
      else prove_extended env pm (own_password bound (target_dn bound pm.identity) st) st

  -- Extended up to the lock; `known` is whether the operation is RFC 3062's.
  pub extended_proves :
      Env → (Text → Option Packet) → Bool → Text → Text → State C → State C × (Proven ⊎ Result)
  unfolding prove_request
  extended_proves env decode known bound value st =
      if known
      then prove_request env bound (decode_passwd_modify decode value) st
      else (st, inr (refuse protocol_error unknown_operation))

  -- Both handlers from the lock on.
  pub commits : Env → Files → Text → Proven → State C → State C × Result
  commits env files described p st = write_proved env files described p.target p.id p.old p.new st

  finishes : Env → Files → Text → State C × (Proven ⊎ Result) → State C × Result
  finishes env files described (st, inl p) = commits env files described p st
  finishes env files described (st, inr r) = (st, r)

  -- Modify, where nothing else takes the lock in between.
  pub modify : Env → Files → Text → Text → Text → List Change → State C → State C × Result
  unfolding finishes
  modify env files described bound dn changes st =
      finishes env files described (modify_proves env bound dn changes st)

  -- Extended, where nothing else takes the lock in between.
  pub extended :
      Env → Files → Text → (Text → Option Packet) → Bool → Text → Text → State C → State C × Result
  unfolding finishes
  extended env files described decode known bound value st =
      finishes env files described (extended_proves env decode known bound value st)
