-- ===== src/Server/Bind/Tests.antt =====
-- Binds at a small installation.
use authnd.Base.{Text, codes, text_eq, cut, cut_prefix, has_suffix, get, ◌≡◌, refl, ap}
use authnd.Config.{Config}
use authnd.Fixtures.{ascii, site, start, env, counter, in_order}
use authnd.Pending.{within}
use authnd.Server.{success, result, data_too_old, wants_code}
use authnd.Server.Names.{name_of}
use authnd.Server.Bind.{bind}
use authnd.Server.Bind.Answers.{IsBind, bind-IsBind}
use authnd.Server.Bind.Proved.{Proof, bind_success_proved}

abbrev alice_dn : Text
alice_dn = codes "uid=alice,ou=people,dc=x"

bind_works : (bind ascii in_order counter site env alice_dn (codes "pw") start).1 ≡ result success
unfolding bind within in_order name_of get data_too_old wants_code authnd.Config.Refresh.max_age
    has_suffix text_eq cut_prefix cut authnd.Pending.acquire_check
bind_works = refl

bind-IsBind_example :
    IsBind ascii in_order counter site env alice_dn
      (codes "pw")
      start
      (bind ascii in_order counter site env alice_dn (codes "pw") start)
bind-IsBind_example = bind-IsBind ascii in_order counter site env alice_dn (codes "pw") start

bind_success_proved_example : Proof ascii in_order counter site env alice_dn (codes "pw") start
bind_success_proved_example =
    bind_success_proved ascii in_order counter site env (λ c name code. refl) alice_dn (codes "pw")
      start (ap (λ r. r.code) bind_works)
