-- ===== src/Directory.antt =====
-- What the program uses of go-authn/directory, which is not part of the repository: a person as
-- the values that the methods of directory.Identity return.
use authnd.Base.{Text, Map, ℕ, Bool, Option, List}

pub record Identity : Type 0 where
  -- The pointer: two identities are the same object when these are equal.
  pub ref : ℕ
  -- Name(), Where()
  pub name : Text
  pub source : Text
  -- Can(Verifier), Can(Password), Can(NTHash)
  pub can_verify : Bool
  pub can_password : Bool
  pub can_nt_hash : Bool
  -- TOTPSecret(), Keys(), NTKey(), ObjectClasses(), Groups()
  pub totp_secret : Text
  pub keys : List Text
  pub nt_key : Option Text
  pub object_classes : List Text
  pub groups : List Text
  -- Attributes().All() and Attributes().Get(name)
  pub attributes : Map (List Text)
  pub get_attribute : Text → List Text

-- What a password check answers: nil, an error, or directory.ErrUnavailable.
pub data Outcome : Type 0 where
  proved wrong outage : Outcome

-- What a check that was started comes to before its context ends.
pub data Reply : Type 0 where
  answered : Outcome → Reply
  silent : Reply
