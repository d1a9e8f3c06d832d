-- ===== src/Certs.antt =====
-- certs.go: the certificate that is served, and the looks at its files. What a look finds in the
-- files, and what tls.LoadX509KeyPair makes of them, is given to it.
pub mod Kept
pub mod Tests
use authnd.Base.{
  ltb, leb, if◌then◌else◌, Text, text_eq, ℕ, ◌-◌, Bool, true, false, not, ◌&&◌, ◌||◌, Option, none,
  some, List, [], ◌∷◌,
}

-- fileStamp: the digest of a file, or none where it cannot be read or is too large; fileIdentity.
pub record FileIdentity : Type 0 where
  pub cert : Option Text
  pub key : Option Text

-- fileIdentity{}
abbrev pub no_files : FileIdentity
no_files = record { cert = none; key = none }

pub data Line : Type 0 where
  not_reloaded reloaded : Line

-- certStore; a certificate is told apart by a number.
pub record CertStore : Type 0 where
  pub cert : ℕ
  pub served : FileIdentity
  pub failed : FileIdentity
  pub checked : ℕ
  pub out : List Line

-- What tls.LoadX509KeyPair returns: a certificate, an empty one where there is an error too.
pub record Load : Type 0 where
  pub cert : ℕ
  pub is_error : Bool

-- One look at the files: the clock, their identity, and the pair as it is read then.
pub record Look : Type 0 where
  pub now : ℕ
  pub identity : FileIdentity
  pub load : Load

same_stamp : Option Text → Option Text → Bool
same_stamp none none = true
same_stamp (some a) (some b) = text_eq a b
same_stamp _ _ = false

pub same_files : FileIdentity → FileIdentity → Bool
unfolding same_stamp
same_files a b = same_stamp a.cert b.cert && same_stamp a.key b.key

say_line : Bool → Line → CertStore → CertStore
say_line true l s = record s { out = l ∷ s.out }
say_line false l s = s

-- reloadLocked, once the pair is read.
loads : Bool → FileIdentity → Load → CertStore → CertStore
unfolding say_line same_files
loads force id r s =
    if r.is_error
    then record (say_line (not (same_files id s.failed) || force) not_reloaded s) { failed = id }
    else if same_files id s.served
    then s
    else say_line true reloaded (record s { cert = r.cert; served = id; failed = no_files })

looked : Bool → Look → CertStore → CertStore
unfolding loads
looked force l s =
    if same_files l.identity s.served && not force
    then s
    else if same_files l.identity s.failed && not force
    then s
    else loads force l.identity l.load s

-- reloadLocked
pub reload_locked : Bool → Look → CertStore → CertStore
unfolding looked
reload_locked force l s = looked force l (record s { checked = l.now })

-- get's look, where the last one was `recheck` ago or the clock went back.
pub get_certificate : ℕ → Look → CertStore → CertStore
unfolding reload_locked
get_certificate recheck l s =
    if ltb l.now s.checked || leb recheck (l.now - s.checked) then reload_locked false l s else s

-- newCertStore; none is an error.
pub new_cert_store : Look → Option CertStore
new_cert_store l =
    if l.load.is_error
    then none
    else some (record {
      cert = l.load.cert;
      served = l.identity;
      failed = no_files;
      checked = l.now;
      out = [];
    })
