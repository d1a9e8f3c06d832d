-- ===== src/PasswdModify/Tests.antt =====
-- A request that names nobody.
use authnd.Base.{codes, ◌≡◌, refl, none, some, []}
use authnd.PasswdModify.{PasswdModify, decode_passwd_modify, encode, decode_passwd_modify-encode}

abbrev request : PasswdModify
request = record { identity = none; old = some []; new = codes "new" }

decode_passwd_modify-encode_example :
    decode_passwd_modify (λ v. some (encode request)) (codes "value") ≡ some request
decode_passwd_modify-encode_example =
    decode_passwd_modify-encode (λ v. some (encode request)) (codes "value") request refl refl
