-- ===== src/Server/Tests.antt =====
-- DNs under one base.
use authnd.Base.{codes, Free, ◌≡◌, some, ◌∷◌, ◌++◌, arith}
use authnd.Fixtures.{ascii}
use authnd.Server.Names.{name_of, uid_is, name_of_between}

comma-Free : Free b',' (codes "alice")
comma-Free = ground arith

name_of_between_example :
    name_of ascii
      (codes "ou=people,dc=x")
      (uid_is ++ (codes "alice" ++ b',' ∷ (codes "ou=x" ++ b',' ∷ codes "ou=people,dc=x")))
    ≡ some (codes "alice")
name_of_between_example =
    name_of_between ascii (codes "ou=people,dc=x") (codes "alice") (codes "ou=x") (λ e. cc)
      comma-Free
