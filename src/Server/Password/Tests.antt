-- ===== src/Server/Password/Tests.antt =====
-- Password changes at a small installation.
use authnd.Base.{
  Text, codes, text_eq, cut, cut_prefix, has_suffix, get, put, ℕ, ◌≡◌, refl, inl, true, false, none,
  some, List, [], ◌∷◌, arith,
}
use authnd.Fixtures.{ascii, swap_case, alice, alice_again, site, start, env}
use authnd.PasswdModify.{PasswdModify, decode_passwd_modify, encode}
use authnd.Roster.{Roster}
use authnd.Roster.Lookup.{IsIndexed, last_named}
use authnd.Server.{
  Code, success, result, refuse, unwilling_to_perform, old_wrong, not_written, State, who,
  data_too_old,
}
use authnd.Server.Changes.{Change, add, delete, only_a_password_change}
use authnd.Server.Password.{
  Files, Written, written, failed, Proven, reload_local, commits, modify_proves, extended_proves,
  modify, extended,
}
use authnd.Server.Password.Authorised.{
  IsOwner, HasProved, IsPasswdModify, modify_proves-IsOwner, extended_proves-IsOwner,
}
use authnd.Server.Password.Commit.{
  IsUnchanged, IsCommitted, commits_fails, commits_success, commits_second_refused,
}

abbrev reloaded_state : State ℕ
reloaded_state = record start {
  snap = record start.snap {
    people = record { by_name = (codes "alice", alice_again) ∷ []; local = codes "alice" ∷ [] };
  };
  local = alice_again ∷ [];
  gen = 1;
}

abbrev alice_dn : Text
alice_dn = codes "uid=alice,ou=people,dc=x"

-- userPassword: delete "pw", add "new".
abbrev both : List Change
both =
    record { operation = delete; attribute = codes "userPassword"; values = codes "pw" ∷ [] }
    ∷ record { operation = add; attribute = codes "USERPASSWORD"; values = codes "new" ∷ [] }
    ∷ []

abbrev change : Proven
change = record { target = codes "alice"; id = alice; old = codes "pw"; new = codes "new" }

abbrev request : PasswdModify
request = record { identity = none; old = some (codes "pw"); new = codes "new" }

abbrev writes : Files
writes = record { set_password = λ n p. written; read_back = λ n p. some (alice_again ∷ []) }

abbrev read_only : Files
read_only = record { set_password = λ n p. failed; read_back = λ n p. none }

reload_works :
    reload_local ascii swap_case text_eq site (alice_again ∷ []) start ≡ some (reloaded_state)
unfolding reload_local authnd.Roster.new_roster authnd.Roster.clashes get text_eq put
    authnd.Roster.names_of
reload_works = refl

is_indexed : IsIndexed (who start)
unfolding get
is_indexed = (refl, refl, tt)

modify_reaches :
    (modify_proves ascii swap_case text_eq site env alice_dn alice_dn both start).1 ≡ inl change
unfolding modify_proves authnd.Server.Password.own_password authnd.Server.Names.name_of has_suffix
    text_eq cut_prefix cut get authnd.Server.Names.dn_of data_too_old authnd.Config.Refresh.max_age
    only_a_password_change authnd.Roster.fold_name authnd.Roster.least_in_orbit
    authnd.Server.Password.proves_password authnd.Pending.within authnd.Pending.acquire_check
modify_reaches = refl

modify_proves-IsOwner_example :
    IsOwner ascii swap_case text_eq site alice_dn alice_dn (codes "alice") start
    × (data_too_old site env start ≡ false)
    × (only_a_password_change swap_case both
        ≡ some (record { old = some (codes "pw"); new = codes "new" }))
    × HasProved ascii swap_case text_eq site env
        (codes "alice")
        (some (codes "pw"))
        (codes "new")
        change
        start
modify_proves-IsOwner_example =
    modify_proves-IsOwner ascii swap_case text_eq site env alice_dn alice_dn both change start
      modify_reaches

extended_reaches :
    (extended_proves ascii swap_case text_eq site env
      (λ v. some (encode request))
      true
      alice_dn
      (codes "value")
      start).1
    ≡ inl change
unfolding extended_proves decode_passwd_modify encode data_too_old authnd.Config.Refresh.max_age
    authnd.Server.Password.own_password authnd.Server.Names.name_of has_suffix text_eq cut_prefix
    cut get authnd.Server.Names.dn_of authnd.Server.Password.proves_password authnd.Pending.within
    authnd.Pending.acquire_check
extended_reaches = refl

extended_proves-IsOwner_example :
    (true ≡ true)
    × (pm : PasswdModify) × (decode_passwd_modify (λ v. some (encode request)) (codes "value")
        ≡ some pm)
    × IsPasswdModify ascii swap_case text_eq site env alice_dn pm change start
extended_proves-IsOwner_example =
    extended_proves-IsOwner ascii swap_case text_eq site env (λ v. some (encode request)) true
      alice_dn (codes "value") change start extended_reaches

commit_works : (commits ascii swap_case text_eq site env writes [] change start).1.code ≡ success
unfolding commits authnd.Server.Password.write_proved get text_eq
    authnd.Server.Password.write_password reload_local authnd.Roster.new_roster
    authnd.Roster.clashes
commit_works = refl

commit_fails :
    (commits ascii swap_case text_eq site env read_only [] change start).1
    ≡ refuse Code.other not_written
unfolding commits authnd.Server.Password.write_proved get text_eq
    authnd.Server.Password.write_password
commit_fails = refl

commits_fails_example :
    IsUnchanged start (commits ascii swap_case text_eq site env read_only [] change start).0
commits_fails_example =
    commits_fails ascii swap_case text_eq site env read_only [] change start
      (λ e. ground (arith, commit_fails, e))

commits_success_example :
    IsCommitted ascii swap_case text_eq site env writes change start
      (commits ascii swap_case text_eq site env writes [] change start).0
commits_success_example =
    commits_success ascii swap_case text_eq site env writes [] change start is_indexed commit_works

reads_back : last_named (codes "alice") none (alice_again ∷ []) ≡ some alice_again
unfolding last_named text_eq
reads_back = refl

commits_second_refused_example :
    commits ascii swap_case text_eq site env writes [] change
      (commits ascii swap_case text_eq site env writes [] change start).0
    ≡ (
      (commits ascii swap_case text_eq site env writes [] change start).0,
      refuse unwilling_to_perform old_wrong,
    )
unfolding text_eq
commits_second_refused_example =
    commits_second_refused ascii swap_case text_eq site env env writes [] change change start
      (alice_again ∷ []) alice_again is_indexed commit_works refl reads_back
      (λ e. absurd (omega (arith, e))) refl
