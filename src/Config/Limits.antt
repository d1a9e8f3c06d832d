-- ===== src/Config/Limits.antt =====
-- limits.go: `limits` and `checkLimits`.
use authnd.Base.{
  ℤ, pos, negsuc, int_ltb, ℕ, ◌*◌, ◌/◌, ◌≤◌, ◌≡◌, ◌⊎◌, inr, ◌&&◌, ◌||◌, Option, none, some, arith,
}
use authnd.Config.{
  Config, DurationText, Checked, ok, err, refuse_if, negative_limit, per_ip_above_total,
  bad_timeout, short_timeout, second, ◌>>◌,
}

pub record Limits : Type 0 where
  pub max_conns : ℤ
  pub per_ip : ℤ
  pub operation : ℤ
  pub startup : ℤ

abbrev default_max_connections : ℕ
default_max_connections = 4096

abbrev default_operation_timeout : ℕ
default_operation_timeout = 30 * second

abbrev default_startup_timeout : ℕ
default_startup_timeout = 60 * second

-- `if c.X != nil { l.x = *c.X }`
given : Option ℤ → ℤ → ℤ
given none d = d
given (some n) d = n

-- `if c.X != "" { l.x, _ = time.ParseDuration(c.X) }`; a refused text is the zero duration.
unfoldable pub duration_or : DurationText → ℤ → ℤ
duration_or DurationText.unset d = d
duration_or DurationText.garbled d = pos 0
duration_or (DurationText.parsed t) d = t

-- limits
unfoldable pub limits : Config → Limits
unfolding given duration_or
limits c = record {
  max_conns = given c.max_connections (pos default_max_connections);
  per_ip = given c.max_connections_per_ip (pos 0);
  operation = duration_or c.operation_timeout (pos default_operation_timeout);
  startup = duration_or c.startup_timeout (pos default_startup_timeout);
}

-- The first loop of checkLimits: one key.
check_count : Option ℤ → Checked (Unit {0})
check_count none = ok tt
check_count (some n) = refuse_if (int_ltb n (pos 0)) negative_limit

-- The cap per address against the cap on all connections, when both are there.
check_per_ip : Option ℤ → Option ℤ → Checked (Unit {0})
check_per_ip (some n) (some m) = refuse_if (int_ltb (pos 0) n && int_ltb n m) per_ip_above_total
check_per_ip _ _ = ok tt

-- The second loop of checkLimits: one key.
check_timeout : DurationText → Checked (Unit {0})
check_timeout DurationText.unset = ok tt
check_timeout DurationText.garbled = err bad_timeout
check_timeout (DurationText.parsed t) =
    refuse_if (int_ltb t (pos 0) || (int_ltb (pos 0) t && int_ltb t (pos (second / 10))))
      short_timeout

-- checkLimits
unfoldable pub check_limits : Config → Checked (Unit {0})
unfolding check_count check_per_ip check_timeout
check_limits c = do
  check_count c.max_connections
  check_count c.max_connections_per_ip
  check_per_ip c.max_connections c.max_connections_per_ip
  check_timeout c.operation_timeout
  check_timeout c.startup_timeout

-- A duration that is no limit (zero), or at least a tenth of a second.
abbrev pub IsTimeout : ℤ → Type 0
IsTimeout (pos t) = (t ≡ 0) ⊎ (second / 10 ≤ t)
IsTimeout (negsuc t) = ⊥

abbrev pub IsCount : ℤ → Type 0
IsCount (pos n) = Unit
IsCount (negsuc n) = ⊥

-- The resolved limits are usable.
pub record AreUsable (l : Limits) : Type 0 where
  pub conns : IsCount l.max_conns
  pub ip : IsCount l.per_ip
  pub operation : IsTimeout l.operation
  pub startup : IsTimeout l.startup

IsCount-usable : (o : Option ℤ) (n : ℕ) → check_count o ≡ ok tt → IsCount (given o (pos n))
unfolding check_count given
IsCount-usable none n h = tt
IsCount-usable (some (pos k)) n h = tt
IsCount-usable (some (negsuc k)) n h = cc

IsTimeout-usable :
    (d : DurationText) (n : ℕ)
    → second / 10 ≤ n
    → check_timeout d ≡ ok tt
    → IsTimeout (duration_or d (pos n))
unfolding check_timeout duration_or
IsTimeout-usable DurationText.unset n le h = inr le
IsTimeout-usable DurationText.garbled n le h = cc
IsTimeout-usable (DurationText.parsed (pos t)) n le h = ground arith
IsTimeout-usable (DurationText.parsed (negsuc t)) n le h = cc

-- Every configuration that checkLimits accepts resolves to usable limits: no negative cap, and
-- each timeout is zero (no limit) or at least 100 ms.
pub limits-AreUsable : (c : Config) → check_limits c ≡ ok tt → AreUsable (limits c)
unfolding limits check_limits
limits-AreUsable c h = record {
  conns = IsCount-usable c.max_connections _ (ground arith);
  ip = IsCount-usable c.max_connections_per_ip _ (ground arith);
  operation = IsTimeout-usable c.operation_timeout _ (omega arith) (ground arith);
  startup = IsTimeout-usable c.startup_timeout _ (omega arith) (ground arith);
}
