-- ===== src/Config/Kerberos.antt =====
-- config.go: `checkKerberos` and `lifetime`.
use authnd.Base.{
  is_some, codes, is_empty, Casing, to_upper, text_eq, ℤ, pos, ◌≡◌, refl, Bool, true, false, not,
  ◌&&◌, Option, none, some, arith,
}
use authnd.Config.{
  KerberosBlock, MfaBlock, Address, DurationText, Checked, ok, err, refuse_if, kerberos_and_mfa,
  kerberos_no_realm, kerberos_lower_case, kerberos_no_keytab, kerberos_bad_listen,
  kerberos_bad_lifetime, ◌>>=◌, ◌>>◌,
}

abbrev is_garbled : DurationText → Bool
is_garbled DurationText.garbled = true
is_garbled _ = false

-- The address with its default, "127.0.0.1:88".
listen_or_default : Address → Checked Address
listen_or_default Address.unset = ok (Address.address (codes "127.0.0.1") true)
listen_or_default Address.garbled = err kerberos_bad_listen
listen_or_default a = ok a

-- checkKerberos, with the block that it leaves.
unfoldable pub check_kerberos :
    Casing → Option MfaBlock → Option KerberosBlock → Checked (Option KerberosBlock)
unfolding listen_or_default
check_kerberos u mfa none = ok none
check_kerberos u mfa (some k) = do
  refuse_if (is_some mfa) kerberos_and_mfa
  refuse_if (is_empty k.realm) kerberos_no_realm
  refuse_if (not (text_eq k.realm (to_upper u k.realm))) kerberos_lower_case
  refuse_if (is_empty k.keytab) kerberos_no_keytab
  listen ← listen_or_default k.listen
  refuse_if (is_garbled k.lifetime) kerberos_bad_lifetime
  ok (some (record k { listen = listen }))

-- lifetime: zero, for the KDC's own default, where the text is no duration.
unfoldable pub lifetime : KerberosBlock → ℤ
lifetime k = elim k.lifetime [ DurationText.parsed d ↦ d | _ ↦ pos 0 ]

-- An accepted realm stands beside no mfa block, and is there only if the block was.
pub check_kerberos-mfa :
    (u : Casing) (mfa : Option MfaBlock) (k k' : Option KerberosBlock)
    → check_kerberos u mfa k ≡ ok k'
    → (is_some mfa && is_some k') ≡ false
unfolding check_kerberos
check_kerberos-mfa u none k k' h = refl
check_kerberos-mfa u (some m) none k' h = ground arith
check_kerberos-mfa u (some m) (some k) k' h = ground arith
