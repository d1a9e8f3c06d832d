-- ===== src/Config/Refresh.antt =====
-- refresh.go: `refreshEvery`, `maxAge` and `checkRefresh`.
use authnd.Base.{
  if◌then◌else◌, max, ℤ, pos, negsuc, int_ltb, wrap_int64, ℕ, zero, suc, ◌*◌, ◌^◌, ◌≤◌, ◌<◌, ◌≡◌,
  refl, ap, ◌⊎◌, ◌&&◌, ◌||◌, arith,
}
use authnd.Config.{
  Config, DurationText, Checked, ok, err, refuse_if, bad_refresh, short_refresh, bad_max_age,
  negative_max_age, max_age_below_refresh, second, ◌>>◌,
}
use authnd.Config.Limits.{duration_or}

abbrev pub default_refresh : ℕ
default_refresh = 60 * second

abbrev pub default_max_age : ℕ
default_max_age = 600 * second

-- refreshEvery: the period, zero for never.
unfoldable pub refresh_every : Config → ℤ
unfolding duration_or
refresh_every c = duration_or c.refresh (pos default_refresh)

-- `max(defaultMaxAge, 10*r)`, or 0 when r <= 0; 10*r is an int64.
unfoldable pub age_for_period : ℤ → ℤ
age_for_period (negsuc r) = pos 0
age_for_period (pos zero) = pos 0
age_for_period (pos r) =
    let ten = wrap_int64 (10 * r) in
    if int_ltb (pos default_max_age) ten then ten else pos default_max_age

max_age_of : DurationText → ℤ → ℤ
unfolding age_for_period duration_or
max_age_of DurationText.unset r = age_for_period r
max_age_of d r = duration_or d (pos 0)

-- maxAge: how old the served data may be, zero for no limit.
unfoldable pub max_age : Config → ℤ
unfolding max_age_of refresh_every
max_age c = max_age_of c.max_age (refresh_every c)

-- The `refresh` half of checkRefresh.
check_period : DurationText → Checked (Unit {0})
check_period DurationText.unset = ok tt
check_period DurationText.garbled = err bad_refresh
check_period (DurationText.parsed d) =
    refuse_if (int_ltb d (pos 0) || (int_ltb (pos 0) d && int_ltb d (pos second))) short_refresh

-- The `max_age` half, against the period `r`.
check_age : DurationText → ℤ → Checked (Unit {0})
check_age DurationText.unset r = ok tt
check_age DurationText.garbled r = err bad_max_age
check_age (DurationText.parsed d) r = do
  refuse_if (int_ltb d (pos 0)) negative_max_age
  refuse_if (int_ltb (pos 0) d && int_ltb (pos 0) r && int_ltb d r) max_age_below_refresh

-- checkRefresh
unfoldable pub check_refresh : Config → Checked (Unit {0})
unfolding check_period check_age refresh_every
check_refresh c = do check_period c.refresh; check_age c.max_age (refresh_every c)

-- The limit that a configuration sets for the age of the data, with the period `r`: without a
-- max_age, none where nothing is read again, and else ten minutes or ten periods, whichever is
-- more; with one, that, which is zero for no limit, or not below the period where there is one.
unfoldable pub AgeLimit : DurationText → ℕ → ℤ → Type 0
AgeLimit DurationText.unset zero a = a ≡ pos 0
AgeLimit DurationText.unset (suc r) a = a ≡ pos (max (600 * second) (10 * suc r))
AgeLimit DurationText.garbled r a = ⊥
AgeLimit (DurationText.parsed (pos d)) r a = (a ≡ pos d) × ((d ≡ 0) ⊎ (r ≡ 0) ⊎ (r ≤ d))
AgeLimit (DurationText.parsed (negsuc d)) r a = ⊥

age-AgeLimit :
    (d : DurationText) (r : ℕ)
    → 10 * r < 2 ^ 63
    → check_age d (pos r) ≡ ok tt
    → AgeLimit d r (max_age_of d (pos r))
unfolding check_age max_age_of AgeLimit
age-AgeLimit DurationText.unset zero lt h = refl
age-AgeLimit DurationText.unset (suc r) lt h = ground arith
age-AgeLimit DurationText.garbled r lt h = cc
age-AgeLimit (DurationText.parsed (pos a)) r lt h = (refl, ground arith)
age-AgeLimit (DurationText.parsed (negsuc a)) r lt h = cc

-- A configuration that checkRefresh accepts, with a period below 2^63 / 10 ns (29 years), limits
-- the age of the data as it says: without a max_age there is no limit where nothing is read again,
-- and else the limit is ten minutes or ten periods, whichever is more; a max_age is the limit, and
-- where it is not zero and there is a period, it is not below the period.
pub max_age-AgeLimit :
    (c : Config) (r : ℕ)
    → refresh_every c ≡ pos r
    → 10 * r < 2 ^ 63
    → check_refresh c ≡ ok tt
    → AgeLimit c.max_age r (max_age c)
unfolding check_refresh max_age
max_age-AgeLimit c r e lt h =
    rw e (age-AgeLimit c.max_age r lt (ground (arith, ap (check_age c.max_age) e)))

-- With no max_age, a refresh period between 2^63 / 10 and 2^64 / 10 ns makes ten periods overflow
-- an int64, and the data is too old after ten minutes.
pub max_age_of_overflow :
    (c : Config) (r : ℕ)
    → c.max_age ≡ DurationText.unset
    → refresh_every c ≡ pos r
    → 2 ^ 63 ≤ 10 * r
    → 10 * r < 2 ^ 64
    → max_age c ≡ pos default_max_age
unfolding max_age
max_age_of_overflow c r unset e ge lt = rw (unset, e) (overflow r ge lt)
  where
    overflow :
        (r : ℕ) → 2 ^ 63 ≤ 10 * r → 10 * r < 2 ^ 64 → age_for_period (pos r) ≡ pos default_max_age
    overflow zero ge lt = absurd (omega arith)
    overflow (suc r) ge lt = ground arith
