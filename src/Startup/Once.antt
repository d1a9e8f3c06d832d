-- ===== src/Startup/Once.antt =====
-- limits.go, `startup`: how often the sources are closed.
use authnd.Base.{ℕ, ◌≡◌, refl, Bool, true, false, not, Option, none, some, arith}
use authnd.Startup.{
  Worker, working, tidying, leaving, sent, Answer, opened, failed, timed_out, Waiter, waiting,
  failing, dropping, returned, Startup, Move, move, Reach, start, step,
}

pub is_done : Worker → Bool
is_done working = false
is_done _ = true

pub is_gone : Waiter → Bool
is_gone dropping = true
is_gone (returned timed_out) = true
is_gone _ = false

-- How often the sources have been closed, for each pair of places that the two can be at; none for
-- a pair that is never reached.
pub closes_at : Worker → Waiter → Option ℕ
closes_at working waiting = some 0
closes_at (leaving f) waiting = some 0
closes_at (sent f) waiting = some 0
closes_at (sent true) failing = some 0
closes_at (sent true) (returned failed) = some 1
closes_at (sent false) (returned opened) = some 0
closes_at (leaving f) dropping = some 0
closes_at (sent f) dropping = some 0
closes_at working (returned timed_out) = some 0
closes_at (tidying f) (returned timed_out) = some 0
closes_at (leaving f) (returned timed_out) = some 1
closes_at (sent f) (returned timed_out) = some 1
closes_at _ _ = none

pub record IsSound (s : Startup) : Type 0 where
  pub done : s.finished ≡ is_done s.worker
  pub gone : s.abandoned ≡ is_gone s.waiter
  pub count : closes_at s.worker s.waiter ≡ some s.closes

move-IsSound : (m : Move) (s t : Startup) → move m s ≡ some t → IsSound s → IsSound t
unfolding move is_done is_gone closes_at
move-IsSound m s t h k = record {
  done = ground (arith, h, k.done, k.gone, k.count);
  gone = ground (arith, h, k.done, k.gone, k.count);
  count = ground (arith, h, k.done, k.gone, k.count);
}

Reach-IsSound : {s : Startup} → Reach s → IsSound s
unfolding is_done is_gone closes_at
Reach-IsSound start = record { done = refl; gone = refl; count = refl }
Reach-IsSound (step {s} {t} m r e) = move-IsSound m s t e (Reach-IsSound r)

pub closes_for : Answer → ℕ
closes_for opened = 0
closes_for _ = 1

pub agrees : Bool → Answer → Bool
agrees bad opened = not bad
agrees bad failed = bad
agrees bad timed_out = true

-- Once both have ended, in whatever order they came: the sources were closed exactly once where
-- startup returned an error, its own or that of the work, and never where it returned none; and it
-- returned none only where the work did, and the work's error only where there was one.
pub Reach-closes :
    {s : Startup} (bad : Bool) (a : Answer)
    → Reach s
    → s.worker ≡ sent bad
    → s.waiter ≡ returned a
    → (s.closes ≡ closes_for a) × (agrees bad a ≡ true)
unfolding closes_at closes_for agrees
Reach-closes bad a r w q =
    let k = Reach-IsSound r in (ground (arith, k.count, w, q), ground (arith, k.count, w, q))
