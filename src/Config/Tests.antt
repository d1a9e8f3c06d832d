-- ===== src/Config/Tests.antt =====
-- Small configurations.
use authnd.Base.{codes, text_eq, split, parse_uint, format_uint, pos, ◌≡◌, refl, true, some, arith}
use authnd.Config.{
  Config, Address, DurationText, SambaBlock, MfaBlock, KerberosBlock, UserBlock, Checked, ok,
}
use authnd.Config.Refresh.{
  refresh_every, max_age, default_max_age, check_refresh, AgeLimit, max_age-AgeLimit,
  max_age_of_overflow,
}
use authnd.Config.Samba.{
  check_samba, rid_base, algorithmic_rid, samba_sid, Sid, sid, uid_too_large, IsRidBase,
  algorithmic_rid_iff,
}
use authnd.Fixtures.{config}

refreshes_each_minute : refresh_every config ≡ pos 60000000000
unfolding refresh_every
refreshes_each_minute = refl

refresh_is_accepted : check_refresh config ≡ ok tt
unfolding check_refresh
refresh_is_accepted = refl

max_age-AgeLimit_example : AgeLimit config.max_age 60000000000 (max_age config)
max_age-AgeLimit_example =
    max_age-AgeLimit config 60000000000 refreshes_each_minute (omega arith) refresh_is_accepted

-- Thirty years.
abbrev patient : Config
patient = record config { refresh = DurationText.parsed (pos 946080000000000000) }

waits_thirty_years : refresh_every patient ≡ pos 946080000000000000
unfolding refresh_every
waits_thirty_years = refl

max_age_of_overflow_example : max_age patient ≡ pos default_max_age
max_age_of_overflow_example =
    max_age_of_overflow patient 946080000000000000 refl waits_thirty_years (omega arith)
      (omega arith)

abbrev domain : SambaBlock
domain = record { domain_sid = codes "S-1-5-21-1-2-3"; rid_base = pos 0 }

abbrev with_domain : Config
with_domain = record config { publish_nt_hash = true; samba = some domain }

domain_is_accepted : check_samba with_domain ≡ ok tt
unfolding check_samba authnd.Config.Samba.parse_sid split text_eq parse_uint format_uint
domain_is_accepted = refl
