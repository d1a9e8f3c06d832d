-- ===== src/Pending/Tests.antt =====
-- One source with a check that stays silent.
use authnd.Base.{codes}
use authnd.Pending.Pool.{idle, begin, begins, start, step, IsCounted, Reach-IsCounted}

Reach-IsCounted_example : IsCounted (begin (codes "ldap") idle)
Reach-IsCounted_example = Reach-IsCounted (step start (begins (codes "ldap") idle))
