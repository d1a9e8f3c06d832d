-- ===== src/Config/Check.antt =====
-- config.go: `check`, which completes the configuration or refuses it.
pub mod Sound
pub mod Tests
use authnd.Base.{
  ltb, ◌==◌, length, any, Text, codes, is_empty, Casing, to_lower, contains, text_eq, ℤ, pos,
  negsuc, int_ltb, ℕ, Bool, true, false, not, ◌&&◌, ◌||◌, Option, none, some, List, [], ◌∷◌,
}
use authnd.Config.{
  ◌>>=◌, ◌>>◌, Config, Address, ReaderBlock, UserBlock, GroupBlock, DirectoryBlock, MfaBlock,
  Checked, ok, err, refuse_if, bad_listen, no_base_dn, bad_base_dn, half_a_pair,
  starttls_without_certificate, nt_hash_in_the_clear, reader_not_a_dn, reader_twice,
  reader_two_passwords, reader_no_password, user_twice, user_two_passwords, user_password_and_hash,
  user_two_keys, user_bad_hash, user_bad_secret, group_twice, group_empty, mfa_one_factor,
  mfa_negative, mfa_too_many, mfa_digits, mfa_clock, directory_refused, nobody, tls, ◌>>◌,
}
use authnd.Config.Limits.{check_limits}
use authnd.Config.Refresh.{check_refresh}
use authnd.Config.Samba.{check_samba}
use authnd.Config.Kerberos.{check_kerberos}

-- What `check` asks of other packages: directory.ParseNTHash, directory.ParseTOTPSecret with the
-- length of the secret in bytes, and totp.MinSecret.
pub record Formats : Type 0 where
  pub is_nt_hash : Text → Bool
  pub totp_secret : Text → Option ℕ
  pub min_secret : ℕ

-- The names seen so far, as a Go map[string]bool.
abbrev seen_before : Text → List Text → Bool
seen_before k seen = any (text_eq k) seen

-- The address with its default, "127.0.0.1:3893".
listen_or_default : Address → Checked Address
listen_or_default Address.unset = ok (Address.address (codes "127.0.0.1") true)
listen_or_default Address.garbled = err bad_listen
listen_or_default a = ok a

-- loopback
abbrev pub loopback : Address → Bool
loopback (Address.address host local) = local
loopback _ = false

-- One round of the loop over the readers.
check_reader : Casing → List Text → ReaderBlock → Checked (Unit {0})
check_reader u seen r = do
  refuse_if (not (contains b'=' r.dn)) (reader_not_a_dn r.dn)
  refuse_if (seen_before (to_lower u r.dn) seen) (reader_twice r.dn)
  refuse_if (not (is_empty r.password) && not (is_empty r.password_file))
      (reader_two_passwords r.dn)
  refuse_if (is_empty r.password && is_empty r.password_file) (reader_no_password r.dn)

check_readers : Casing → List Text → List ReaderBlock → Checked (Unit {0})
check_readers u seen [] = ok tt
check_readers u seen (r ∷ rs) = check_reader u seen r >> check_readers u (to_lower u r.dn ∷ seen) rs

-- `secret` of a user: in the right form and secretLongEnough.
secret_accepted : Formats → Text → Bool
secret_accepted f s = elim (f.totp_secret s) [ none ↦ false | some n ↦ not (ltb n f.min_secret) ]

-- One round of the loop over the users.
check_user : Formats → List Text → UserBlock → Checked (Unit {0})
check_user f seen x = do
  refuse_if (seen_before x.name seen) (user_twice x.name)
  refuse_if (not (is_empty x.password) && not (is_empty x.password_file))
      (user_two_passwords x.name)
  refuse_if (not (is_empty x.password) && not (is_empty x.nt_hash)) (user_password_and_hash x.name)
  refuse_if (ltb 0 (length x.authorized_keys) && not (is_empty x.authorized_keys_file))
      (user_two_keys x.name)
  refuse_if (not (is_empty x.nt_hash) && not (f.is_nt_hash x.nt_hash)) (user_bad_hash x.name)
  refuse_if (not (is_empty x.totp_secret) && not (secret_accepted f x.totp_secret))
      (user_bad_secret x.name)

check_users : Formats → List Text → List UserBlock → Checked (Unit {0})
check_users f seen [] = ok tt
check_users f seen (x ∷ xs) = check_user f seen x >> check_users f (x.name ∷ seen) xs

check_groups : List Text → List GroupBlock → Checked (Unit {0})
check_groups seen [] = ok tt
check_groups seen (g ∷ gs) = do
  refuse_if (seen_before g.name seen) (group_twice g.name)
  refuse_if (length g.members == 0) (group_empty g.name)
  check_groups (g.name ∷ seen) gs

int_is : ℤ → ℕ → Bool
int_is (pos a) n = a == n
int_is (negsuc a) n = false

-- The mfa block.
check_mfa : Option MfaBlock → Checked (Unit {0})
unfolding int_is
check_mfa none = ok tt
check_mfa (some m) = do
  refuse_if (int_is m.factors 1) mfa_one_factor
  refuse_if (int_ltb m.factors (pos 0)) mfa_negative
  refuse_if (int_ltb (pos 2) m.factors) mfa_too_many
  refuse_if (not (int_is m.digits 0) && (int_ltb m.digits (pos 6) || int_ltb (pos 10) m.digits))
      mfa_digits
  refuse_if (int_ltb m.period (pos 0) || int_ltb m.window (pos 0)) mfa_clock

check_directories : List DirectoryBlock → Checked (Unit {0})
check_directories [] = ok tt
check_directories (b ∷ bs) = refuse_if (not b.accepted) directory_refused >> check_directories bs

-- The tests from base_dn to publish_nt_hash.
check_wire : Address → Config → Checked (Unit {0})
unfolding tls
check_wire listen c = do
  refuse_if (is_empty c.base_dn) no_base_dn
  refuse_if (not (contains b'=' c.base_dn)) bad_base_dn
  refuse_if
      ((is_empty c.cert_file && not (is_empty c.key_file))
        || (not (is_empty c.cert_file) && is_empty c.key_file))
      half_a_pair
  refuse_if (c.start_tls && not (tls c)) starttls_without_certificate
  refuse_if (c.publish_nt_hash && not (tls c) && not (loopback listen)) nt_hash_in_the_clear

-- The tests on the blocks that name readers, people and groups.
check_blocks : Casing → Formats → Config → Checked (Unit {0})
check_blocks u f c = do
  check_readers u [] c.readers
  check_users f [] c.users
  check_groups [] c.groups
  check_mfa c.mfa
  check_directories c.directories
  refuse_if ((length c.users == 0) && (length c.directories == 0)) nobody

-- check: the configuration with its defaults, or the first error.
pub check : Casing → Formats → Config → Checked Config
check u f c = do
  listen ← listen_or_default c.listen
  check_refresh c
  check_limits c
  check_wire listen c
  check_samba c
  check_blocks u f c
  kerberos ← check_kerberos u c.mfa c.kerberos
  ok (record c { listen = listen; kerberos = kerberos })
