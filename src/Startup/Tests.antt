-- ===== src/Startup/Tests.antt =====
-- The work ends after startup gave up.
use authnd.Base.{◌≡◌, refl, true, false, some, none}
use authnd.Startup.{
  working, tidying, leaving, sent, timed_out, returned, Startup, started, move, Move, fires, ends,
  tidies, sends, receives, closes_failed, closes_late, start, step,
}
use authnd.Startup.Ends.{is_over, stuck-over}
use authnd.Startup.Once.{closes_for, agrees, Reach-closes}

abbrev gave_up : Startup
gave_up = record {
  worker = working;
  waiter = returned timed_out;
  finished = false;
  abandoned = true;
  closes = 0;
}

abbrev too_late : Startup
too_late = record {
  worker = tidying false;
  waiter = returned timed_out;
  finished = true;
  abandoned = true;
  closes = 0;
}

abbrev tidied : Startup
tidied = record {
  worker = leaving false;
  waiter = returned timed_out;
  finished = true;
  abandoned = true;
  closes = 1;
}

abbrev all_done : Startup
all_done = record {
  worker = sent false;
  waiter = returned timed_out;
  finished = true;
  abandoned = true;
  closes = 1;
}

gives_up : move fires started ≡ some gave_up
unfolding move
gives_up = refl

ends_late : move (ends false) gave_up ≡ some too_late
unfolding move
ends_late = refl

cleans : move tidies too_late ≡ some tidied
unfolding move
cleans = refl

leaves : move sends tidied ≡ some all_done
unfolding move
leaves = refl

Reach-closes_example : (1 ≡ closes_for timed_out) × (agrees false timed_out ≡ true)
Reach-closes_example =
    Reach-closes false timed_out
      (step sends (step tidies (step (ends false) (step fires start gives_up) ends_late) cleans)
        leaves)
      refl refl

all_done-stuck : (m : Move) → move m all_done ≡ none
unfolding move
all_done-stuck (ends bad) = refl
all_done-stuck tidies = refl
all_done-stuck sends = refl
all_done-stuck receives = refl
all_done-stuck fires = refl
all_done-stuck closes_failed = refl
all_done-stuck closes_late = refl

stuck-over_example : is_over (sent false) (returned timed_out) ≡ true
stuck-over_example = stuck-over all_done all_done-stuck
