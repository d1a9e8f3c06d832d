-- ===== src/Startup/Ends.antt =====
-- limits.go, `startup`: the states in which nothing can move.
use authnd.Base.{◌≡◌, refl, Bool, true, false, none, arith}
use authnd.Startup.{
  Worker, working, tidying, leaving, sent, Waiter, waiting, failing, dropping, returned, Startup,
  Move, ends, tidies, sends, fires, closes_failed, closes_late, move,
}

-- Both goroutines are at their end.
pub is_over : Worker → Waiter → Bool
is_over (sent bad) (returned a) = true
is_over _ _ = false

can_move :
    (w : Worker) (v : Waiter) (s : Startup)
    → s.worker ≡ w
    → s.waiter ≡ v
    → ((m : Move) → move m s ≡ none)
    → is_over w v ≡ true
unfolding move is_over
can_move working v s e f h = absurd (ground (arith, e, f, h (ends true)))
can_move (tidying bad) v s e f h = absurd (ground (arith, e, f, h tidies))
can_move (leaving bad) v s e f h = absurd (ground (arith, e, f, h sends))
can_move (sent bad) waiting s e f h = absurd (ground (arith, e, f, h fires))
can_move (sent bad) failing s e f h = absurd (ground (arith, e, f, h closes_failed))
can_move (sent bad) dropping s e f h = absurd (ground (arith, e, f, h closes_late))
can_move (sent bad) (returned a) s e f h = refl

-- A state of startup in which no move can be taken is one where both goroutines are at their end:
-- none of them is left waiting for the other.
pub stuck-over : (s : Startup) → ((m : Move) → move m s ≡ none) → is_over s.worker s.waiter ≡ true
stuck-over s h = can_move s.worker s.waiter s refl refl h
