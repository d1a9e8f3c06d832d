-- ===== src/Config.antt =====
-- config.go: the configuration as it is decoded, and what `check` refuses.
-- A duration is kept as what time.ParseDuration makes of its text, an address as what
-- net.SplitHostPort and net.ParseIP make of it, and a `users` block as its own Check's answer. The
-- keys that nothing here reads (sources, schema_files, the schema blocks, jwks_url) are left out.
pub mod Limits
pub mod Refresh
pub mod Samba
pub mod Kerberos
pub mod Check
pub mod Tests
use authnd.Base.{Text, is_empty, ℤ, ℕ, Bool, true, false, not, ◌&&◌, Option, List}

-- A duration key: not there (""), not a duration, or a number of nanoseconds.
pub data DurationText : Type 0 where
  unset garbled : DurationText
  parsed : ℤ → DurationText

-- An address key: not there (""), no address at all, or a host and whether that host is
-- "localhost" or a loopback IP.
pub data Address : Type 0 where
  unset garbled : Address
  address : Text → Bool → Address

pub record SambaBlock : Type 0 where
  pub domain_sid : Text
  pub rid_base : ℤ

pub record KerberosBlock : Type 0 where
  pub realm : Text
  pub listen : Address
  pub keytab : Text
  pub lifetime : DurationText

pub record MfaBlock : Type 0 where
  pub factors : ℤ
  pub distinct_kinds : Bool
  pub digits : ℤ
  pub period : ℤ
  pub window : ℤ
  pub readers : Bool

pub record OidcBlock : Type 0 where
  pub issuer : Text
  pub audience : Text
  pub username_claim : Text
  pub domains : List Text
  pub local_domain : Text
  pub allow_plaintext : Bool

pub record ReaderBlock : Type 0 where
  pub dn : Text
  pub password : Text
  pub password_file : Text
  pub totp_secret : Text

-- hcl.Range: the file, and the line and column where it starts; no file is "".
pub record Range : Type 0 where
  pub filename : Text
  pub line : ℕ
  pub column : ℕ

pub record UserBlock : Type 0 where
  pub name : Text
  pub password : Text
  pub password_file : Text
  pub nt_hash : Text
  pub authorized_keys : List Text
  pub authorized_keys_file : Text
  pub totp_secret : Text
  pub object_classes : List Text
  pub object_classes_range : Range

pub record GroupBlock : Type 0 where
  pub name : Text
  pub members : List Text
  pub object_classes : List Text
  pub object_classes_range : Range

-- `users "kind" { ... }`, and whether hcldir accepts it (Block.Check).
pub record DirectoryBlock : Type 0 where
  pub kind : Text
  pub accepted : Bool
  pub object_classes : List Text
  pub object_classes_range : Range
  pub group_object_classes : List Text
  pub group_object_classes_range : Range

pub record Config : Type 0 where
  pub files : List Text
  pub listen : Address
  pub base_dn : Text
  pub cert_file : Text
  pub key_file : Text
  pub start_tls : Bool
  pub publish_nt_hash : Bool
  pub samba : Option SambaBlock
  pub kerberos : Option KerberosBlock
  pub mfa : Option MfaBlock
  pub oidc : Option OidcBlock
  pub readers : List ReaderBlock
  pub users : List UserBlock
  pub groups : List GroupBlock
  pub directories : List DirectoryBlock
  pub refresh : DurationText
  pub max_age : DurationText
  pub max_connections : Option ℤ
  pub max_connections_per_ip : Option ℤ
  pub operation_timeout : DurationText
  pub startup_timeout : DurationText

-- What `check` can say; a text is the name that the message quotes.
pub data ConfigError : Type 0 where
  bad_listen bad_refresh short_refresh bad_max_age negative_max_age : ConfigError
  max_age_below_refresh negative_limit per_ip_above_total : ConfigError
  bad_timeout short_timeout no_base_dn bad_base_dn half_a_pair : ConfigError
  starttls_without_certificate nt_hash_in_the_clear : ConfigError
  no_samba_block samba_publishes_nothing bad_domain_sid bad_rid_base : ConfigError
  reader_not_a_dn reader_twice reader_two_passwords reader_no_password : Text → ConfigError
  user_twice user_two_passwords user_password_and_hash user_two_keys : Text → ConfigError
  user_bad_hash user_bad_secret : Text → ConfigError
  group_twice group_empty : Text → ConfigError
  mfa_one_factor mfa_negative mfa_too_many mfa_digits mfa_clock : ConfigError
  directory_refused nobody kerberos_and_mfa kerberos_no_realm : ConfigError
  kerberos_lower_case kerberos_no_keytab kerberos_bad_listen kerberos_bad_lifetime : ConfigError

pub data Checked {ℓ} (A : Type ℓ) : Type ℓ where
  ok : A → Checked A
  err : ConfigError → Checked A

infixl 5 ◌>>=◌ ◌>>◌
abbrev pub ◌>>=◌ {ℓ κ} : {A : Type ℓ} {B : Type κ} → Checked A → (A → Checked B) → Checked B
ok a >>= f = f a
err e >>= f = err e

abbrev pub ◌>>◌ {ℓ} : {B : Type ℓ} → Checked (Unit {0}) → Checked B → Checked B
m >> k = m >>= λ _. k

-- `if bad { return error }`
abbrev pub refuse_if : Bool → ConfigError → Checked (Unit {0})
refuse_if true e = err e
refuse_if false e = ok tt

-- tls
unfoldable pub tls : Config → Bool
tls c = not (is_empty c.cert_file) && not (is_empty c.key_file)

-- time.Second, in nanoseconds
abbrev pub second : ℕ
second = 1000000000
