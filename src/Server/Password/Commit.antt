-- ===== src/Server/Password/Commit.antt =====
-- A password change from the lock on.
use authnd.Base.{
  Option-cases, Text, Casing, get, ◌≡◌, refl, ◌≢◌, inl, inr, Bool, true, false, Option, none, some,
  List, arith,
}
use authnd.Directory.{Identity}
use authnd.Roster.{Fold}
use authnd.Roster.Lookup.{last_named, IsIndexed}
use authnd.Server.{
  success, unwilling_to_perform, old_wrong, refuse, Site, State, Env, who, Line, changed, say,
}
use authnd.Server.Password.{
  Files, Written, written, not_declared, failed, Proven, commits, write_proved, write_password,
  reloaded, read_fresh, reload_local, still_proved,
}
use authnd.Server.Password.Reload.{IsReload, reload_local-IsReload}

-- The directory is what it was.
pub record IsUnchanged {C : Type 0} (st st' : State C) : Type 0 where
  pub snap : st'.snap ≡ st.snap
  pub local : st'.local ≡ st.local
  pub gen : st'.gen ≡ st.gen

-- A line of output is no part of the directory.
IsReload-say :
    {C : Type 0} (fresh : List Identity) (l : Line) (st st' : State C)
    → IsReload fresh st st'
    → IsReload fresh st (say l st')
IsReload-say fresh l st st' r = record {
  people = r.people;
  file_names = r.file_names;
  groups = r.groups;
  built = r.built;
  source = r.source;
  counted = r.counted;
  indexed = r.indexed;
}

module _ {C : Type 0} (u : Casing) (fold : Fold) (equal_dn : Text → Text → Bool) (site : Site) where
  -- A change that succeeded: the proof still held, the file was written, and what it now holds was
  -- read back and swapped in.
  pub record IsCommitted (env : Env) (files : Files) (p : Proven) (st st' : State C) : Type 0 where
    pub proof : still_proved env p.id p.old (get p.target (who st)) ≡ true
    pub wrote : files.set_password p.target p.new ≡ written
    pub fresh : List Identity
    pub read : files.read_back p.target p.new ≡ some fresh
    pub swapped : IsReload fresh st st'

  write_password-fails :
      (files : Files) (described target password : Text) (st : State C)
      → (write_password u fold equal_dn site files described target password st).1.code ≢ success
      → IsUnchanged st (write_password u fold equal_dn site files described target password st).0
  unfolding write_password reloaded
  write_password-fails files described target password st h =
      outcome (files.set_password target password)
        (read_fresh u fold equal_dn site (files.read_back target password) st) refl refl
    where
      outcome :
          (w : Written) (r : Option (State C))
          → files.set_password target password ≡ w
          → read_fresh u fold equal_dn site (files.read_back target password) st ≡ r
          → IsUnchanged st
              (write_password u fold equal_dn site files described target password st).0
      outcome not_declared r e k = ground arith
      outcome failed r e k = ground arith
      outcome written none e k = ground arith
      outcome written (some st') e k = absurd (ground arith)

  -- A change that does not succeed leaves the directory as it was: the snapshot, the local source
  -- and the generation.
  pub commits_fails :
      (env : Env) (files : Files) (described : Text) (p : Proven) (st : State C)
      → (commits u fold equal_dn site env files described p st).1.code ≢ success
      → IsUnchanged st (commits u fold equal_dn site env files described p st).0
  unfolding commits write_proved
  commits_fails env files described p st h =
      ground (arith, write_password-fails files described p.target p.new st)

  -- A change succeeds only where the proof still holds, and then the running server serves what
  -- was written: the people that the file holds now, each under their name, and of the others
  -- those that it never held.
  pub commits_success :
      (env : Env) (files : Files) (described : Text) (p : Proven) (st : State C)
      → IsIndexed (who st)
      → (commits u fold equal_dn site env files described p st).1.code ≡ success
      → IsCommitted env files p st (commits u fold equal_dn site env files described p st).0
  unfolding commits write_proved write_password reloaded read_fresh
  commits_success env files described p st indexed h =
      elim (Option-cases (files.read_back p.target p.new)) [
        | inl e ↦ absurd (ground arith)
        | inr (fresh, e) ↦ elim (Option-cases (reload_local u fold equal_dn site fresh st)) [
          | inl f ↦ absurd (ground arith)
          | inr (st', f) ↦
              let r = reload_local-IsReload u fold equal_dn site fresh st st' indexed f in
              let eq : (commits u fold equal_dn site env files described p st).0
                  ≡ say (changed p.target) st' =
                ground arith in
              record {
                proof = ground arith;
                wrote = ground arith;
                fresh = fresh;
                read = e;
                swapped = rw eq (IsReload-say fresh (changed p.target) st st' r);
              }
        ]
      ]

  stale_refused :
      (env : Env) (files : Files) (described : Text) (q : Proven) (st : State C) (now : Identity)
      → get q.target (who st) ≡ some now
      → now.ref ≢ q.id.ref
      → env.verify_now now q.old ≡ false
      → commits u fold equal_dn site env files described q st
        ≡ (st, refuse unwilling_to_perform old_wrong)
  unfolding commits write_proved still_proved
  stale_refused env files described q st now found ref no_more = ground arith

  -- Two changes that proved the same old password cannot both succeed: once the first one is
  -- written, and the identity read back for that person is another one that the second one's old
  -- password does not verify, the second is refused and the directory stays as the first left it.
  pub commits_second_refused :
      (env env' : Env) (files : Files) (described : Text) (p q : Proven) (st : State C)
      (fresh : List Identity) (now : Identity)
      → IsIndexed (who st)
      → (commits u fold equal_dn site env files described p st).1.code ≡ success
      → files.read_back p.target p.new ≡ some fresh
      → last_named q.target none fresh ≡ some now
      → now.ref ≢ q.id.ref
      → env'.verify_now now q.old ≡ false
      → commits u fold equal_dn site env' files described q
          (commits u fold equal_dn site env files described p st).0
        ≡ (
          (commits u fold equal_dn site env files described p st).0,
          refuse unwilling_to_perform old_wrong,
        )
  commits_second_refused env env' files described p q st fresh now indexed h read named ref
        no_more =
      let first = commits_success env files described p st indexed h in
      stale_refused env' files described q (commits u fold equal_dn site env files described p st).0
        now (ground (arith, first.read, first.swapped.people q.target)) ref no_more
