-- ===== src/Startup.antt =====
-- limits.go: `startup` with a limit, its goroutine and the one that waits, step by step. A step is
-- what one of the two does under its lock, or the closing of the sources.
pub mod Once
pub mod Ends
pub mod Tests
use authnd.Base.{◌==◌, if◌then◌else◌, ℕ, ◌≡◌, Bool, true, false, Option, none, some}

-- The goroutine: at work; closing what it opened, since nobody waits; about to send its error or
-- none; or at its end. The Booleans say whether the work failed.
pub data Worker : Type 0 where
  working : Worker
  tidying leaving sent : Bool → Worker

pub data Answer : Type 0 where
  opened failed timed_out : Answer

-- The one that waits: in `select`; closing since the work failed, or since it came too late; or done.
pub data Waiter : Type 0 where
  waiting failing dropping : Waiter
  returned : Answer → Waiter

pub record Startup : Type 0 where
  pub worker : Worker
  pub waiter : Waiter
  pub finished : Bool
  pub abandoned : Bool
  -- how often s.dir.Close was called
  pub closes : ℕ

abbrev pub started : Startup
started = record {
  worker = working;
  waiter = waiting;
  finished = false;
  abandoned = false;
  closes = 0;
}

-- cleanup, under its sync.Once
pub cleanup : ℕ → ℕ
cleanup n = if n == 0 then 1 else n

pub data Move : Type 0 where
  ends : Bool → Move
  tidies sends receives fires closes_failed closes_late : Move

ends_work : Bool → Worker → Startup → Option Startup
ends_work bad working s =
    some (record s { worker = if s.abandoned then tidying bad else leaving bad; finished = true })
ends_work bad _ s = none

tidies_up : Worker → Startup → Option Startup
tidies_up (tidying bad) s = some (record s { worker = leaving bad; closes = cleanup s.closes })
tidies_up _ s = none

sends_error : Worker → Startup → Option Startup
sends_error (leaving bad) s = some (record s { worker = sent bad })
sends_error _ s = none

receives_error : Worker → Waiter → Startup → Option Startup
receives_error (sent bad) waiting s =
    some (record s { waiter = if bad then failing else returned opened })
receives_error _ _ s = none

timer_fires : Waiter → Startup → Option Startup
timer_fires waiting s =
    some
      (record s { waiter = if s.finished then dropping else returned timed_out; abandoned = true })
timer_fires _ s = none

closes_after : Waiter → Waiter → Startup → Option Startup
closes_after failing failing s =
    some (record s { waiter = returned Answer.failed; closes = cleanup s.closes })
closes_after dropping dropping s =
    some (record s { waiter = returned timed_out; closes = cleanup s.closes })
closes_after _ _ s = none

-- One step of startup; none where it cannot be taken.
pub move : Move → Startup → Option Startup
unfolding ends_work tidies_up sends_error receives_error timer_fires closes_after cleanup
move (ends bad) s = ends_work bad s.worker s
move tidies s = tidies_up s.worker s
move sends s = sends_error s.worker s
move receives s = receives_error s.worker s.waiter s
move fires s = timer_fires s.waiter s
move closes_failed s = closes_after failing s.waiter s
move closes_late s = closes_after dropping s.waiter s

pub data Reach : Startup → Type 0 where
  start : Reach started
  step : {s t : Startup} (m : Move) → Reach s → move m s ≡ some t → Reach t
