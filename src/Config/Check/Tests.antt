-- ===== src/Config/Check/Tests.antt =====
-- A configuration of one user.
use authnd.Base.{
  length, codes, text_eq, split, parse_uint, format_uint, pos, ◌≡◌, refl, true, false, some, [],
  ◌∷◌,
}
use authnd.Config.{Config, Address, UserBlock, Checked, ok}
use authnd.Config.Check.{check, Formats}
use authnd.Config.Check.Sound.{IsServable, check-IsServable}
use authnd.Fixtures.{ascii, config}

abbrev user : UserBlock
user = record {
  name = codes "alice";
  password = codes "pw";
  password_file = [];
  nt_hash = [];
  authorized_keys = [];
  authorized_keys_file = [];
  totp_secret = [];
  object_classes = [];
  object_classes_range = record { filename = []; line = 0; column = 0 };
}

abbrev one_user : Config
one_user = record config { listen = Address.address (codes ":636") false; users = user ∷ [] }

abbrev pub formats : Formats
formats = record { is_nt_hash = λ t. true; totp_secret = λ t. some (length t); min_secret = 16 }

one_user_is_accepted : check ascii formats one_user ≡ ok one_user
unfolding check authnd.Config.Check.listen_or_default authnd.Config.Refresh.check_refresh
    authnd.Config.Limits.check_limits authnd.Config.Check.check_wire authnd.Config.Samba.check_samba
    authnd.Config.Check.check_blocks authnd.Config.Check.check_readers
    authnd.Config.Check.check_users authnd.Config.Check.check_user authnd.Config.Check.check_groups
    authnd.Config.Check.check_mfa authnd.Config.Check.check_directories
    authnd.Config.Kerberos.check_kerberos
one_user_is_accepted = refl

check-IsServable_example : IsServable ascii one_user
check-IsServable_example = check-IsServable ascii formats one_user one_user one_user_is_accepted

-- A configuration that publishes NT hashes over TLS.
abbrev pub with_hashes : Config
with_hashes = record one_user {
  cert_file = codes "c";
  key_file = codes "k";
  publish_nt_hash = true;
  samba = some (record { domain_sid = codes "S-1-5-21-1-2-3"; rid_base = pos 0 });
}

pub with_hashes_accepted : check ascii formats with_hashes ≡ ok with_hashes
unfolding check authnd.Config.Check.listen_or_default authnd.Config.Refresh.check_refresh
    authnd.Config.Limits.check_limits authnd.Config.Check.check_wire authnd.Config.Samba.check_samba
    authnd.Config.Check.check_blocks authnd.Config.Check.check_readers
    authnd.Config.Check.check_users authnd.Config.Check.check_user authnd.Config.Check.check_groups
    authnd.Config.Check.check_mfa authnd.Config.Check.check_directories
    authnd.Config.Kerberos.check_kerberos authnd.Config.Samba.parse_sid split text_eq parse_uint
    format_uint
with_hashes_accepted = refl
