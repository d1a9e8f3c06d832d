-- ===== src/Server.antt =====
-- server.go: the server's state, and the parts that its handlers share.
-- A text is a list of code points where letter case matters, and of bytes where it is a password.
pub mod Names
pub mod Bind
pub mod Changes
pub mod Password
pub mod Sasl
pub mod Search
pub mod Tests
use authnd.Base.{
  ltb, leb, ◌==◌, if◌then◌else◌, Text, text_eq, Map, ℤ, pos, negsuc, ℕ, zero, ◌-◌, ◌^◌, max, min,
  Bool, false, Option, none, some, List, ◌∷◌,
}
use authnd.Config.{Config, MfaBlock}
use authnd.Config.Refresh.{max_age}
use authnd.Directory.{Identity, Reply}
use authnd.Factors.{Policy}
use authnd.Roster.{Roster}

-- The LDAP result codes that are answered.
pub data Code : Type 0 where
  success invalid_credentials unwilling_to_perform insufficient_access : Code
  unavailable no_such_object protocol_error other : Code
  auth_method_not_supported confidentiality_required sasl_bind_in_progress : Code

-- The diagnostic message beside a code: none, or which of the texts in the source.
pub data Diagnostic : Type 0 where
  no_text unauthenticated_bind source_down stale_data only_a_reader : Diagnostic
  anonymous not_published not_the_owner not_a_password_change : Diagnostic
  no_password_to_prove old_missing old_wrong generates_none : Diagnostic
  not_written not_reloaded unknown_operation undecodable : Diagnostic
  served_elsewhere : Text → Diagnostic

pub record Result : Type 0 where
  pub code : Code
  pub text : Diagnostic

-- ldap.Result{Code: c} and ldap.Refuse(c, text)
abbrev pub result : Code → Result
result c = record { code = c; text = no_text }

abbrev pub refuse : Code → Diagnostic → Result
refuse c d = record { code = c; text = d }

-- Everything a group is published with.
pub record GroupFacts : Type 0 where
  pub members : List Text
  pub attributes : Map (List Text)
  pub declared : List Text
  pub missing : Bool

pub record GroupSnapshot : Type 0 where
  pub names : List Text
  pub by : Map GroupFacts

-- Everybody and every group at one moment; `built` is when the sources were read.
pub record Snapshot : Type 0 where
  pub people : Roster
  pub groups : GroupSnapshot
  pub built : ℕ

-- What does not change while the server runs.
pub record Site : Type 0 where
  pub cfg : Config
  pub people_dn : Text
  pub groups_dn : Text
  -- bind DN, lower-cased, to password, and to the secret of its one-time codes
  pub readers : Map Text
  pub reader_secrets : Map Text
  pub policy : Policy

-- A line of the server's own output.
pub data Line : Type 0 where
  was_refused change_refused not_changed not_reloaded changed : Text → Line
  factor_unavailable refresh_skipped refresh_failed refresh_works : Line

-- What changes. `local` is what the live source points at, `gen` counts the swaps of password
-- writes, and the newest line of `out` stands first.
pub record State (C : Type 0) : Type 0 where
  pub binds : ℕ
  pub snap : Snapshot
  pub local : List Identity
  pub gen : ℕ
  pub failing : Bool
  pub refreshing : Bool
  pub pending : Map ℕ
  pub codes : C
  pub out : List Line

-- What an operation meets outside: the clock, the answers of the sources within the bind's budget
-- and with no budget, whether the budget alone has ended, and SHA-256.
pub record Env : Type 0 where
  pub now : ℕ
  pub reply : Identity → Text → Reply
  pub verify_now : Identity → Text → Bool
  pub budget_ended : Bool
  pub sha256 : Text → Text

abbrev pub say : {C : Type 0} → Line → State C → State C
say l st = record st { out = l ∷ st.out }

-- who
abbrev pub who : {C : Type 0} → State C → Map Identity
who st = st.snap.people.by_name

-- s.now().Sub(built) > max, where Sub saturates at the largest int64
older_than : ℤ → ℕ → ℕ → Bool
older_than (pos zero) now built = false
older_than (pos max) now built = ltb max (min (now - built) (2 ^ 63 - 1))
older_than (negsuc n) now built = false

-- dataTooOld
unfoldable pub data_too_old : {C : Type 0} → Site → Env → State C → Bool
unfolding older_than
data_too_old site env st = older_than (max_age site.cfg) env.now st.snap.built

-- constantTimeEqual
unfoldable pub constant_time_equal : Env → Text → Text → Bool
constant_time_equal env a b = text_eq (env.sha256 a) (env.sha256 b)

-- wantsCode
unfoldable pub wants_code : Site → Bool
wants_code site = leb 2 site.policy.count

-- The policy that `open` makes of the mfa block.
unfoldable pub policy_of : Option MfaBlock → Policy
policy_of none = record { count = 0; distinct_kinds = false }
policy_of (some m) = record {
  count = elim m.factors [ pos n ↦ if n == 0 then 2 else n | negsuc n ↦ 0 ];
  distinct_kinds = m.distinct_kinds;
}
