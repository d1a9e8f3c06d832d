-- ===== src/Refresh/Tests.antt =====
-- Refreshes of a small installation.
use authnd.Base.{◌<◌, ◌-◌, text_eq, get, ℕ, ◌≡◌, refl, true, false, some, [], ◌∷◌, arith}
use authnd.Fixtures.{ascii, swap_case, site, start}
use authnd.Groups.{FrozenSet, no_such_group}
use authnd.Roster.{names_of}
use authnd.Roster.Lookup.{last_named}
use authnd.Refresh.{Round, refresh_try, refresh_gives_up, refresh_tick, refresh_skips}
use authnd.Refresh.Lines.{Refreshing, after_tick, after_note, ticks, skips, gives_up, done, next}
use authnd.Refresh.Streak.{IsBalanced, IsNoted, sum, Events-IsBalanced}
use authnd.Refresh.Sync.{IsInSync, OwnsNames, quiet, IsFair}
use authnd.Refresh.Rounds.{
  AllFair, RefreshTold, refresh_try-RefreshTold, now, refreshes, Lives-IsInSync,
}

abbrev no_groups : FrozenSet
no_groups = record {
  sources = [];
  members = λ n. no_such_group [];
  attributes = λ n. no_such_group [];
  declared = λ n. no_such_group [];
}

-- A round in which the sources have only the local people.
abbrev round : Round ℕ
round = record {
  identities = λ local. some local;
  groups = some no_groups;
  now = 7;
  before_list = λ st. st;
  before_build = λ st. st;
  before_swap = λ st. st;
}

owns_names : OwnsNames (λ local. some local)
unfolding OwnsNames
owns_names local ids e n id h = ground (arith, e, h)

is_fair : IsFair ascii swap_case text_eq site round
is_fair = record { owns = owns_names; listing = quiet; building = quiet; swapping = quiet }

are_fair : AllFair ascii swap_case text_eq site (round ∷ [])
unfolding AllFair
are_fair = (is_fair, tt)

refresh_works : (refresh_try swap_case site (round ∷ []) start).1 ≡ true
unfolding refresh_try authnd.Refresh.run_round authnd.Refresh.build_snapshot
    authnd.Roster.new_roster authnd.Roster.clashes get authnd.Refresh.groups_served
    authnd.Groups.read_groups
refresh_works = refl

refresh_try-RefreshTold_example :
    RefreshTold ascii swap_case text_eq site start (refresh_try swap_case site (round ∷ []) start)
refresh_try-RefreshTold_example =
    refresh_try-RefreshTold ascii swap_case text_eq site (round ∷ []) start are_fair

is_in_sync : IsInSync start
unfolding last_named get names_of
is_in_sync = record { served = λ n id h. h; file_names = refl; indexed = (refl, refl, tt) }

Lives-IsInSync_example : IsInSync ((refresh_try swap_case site (round ∷ []) start).0)
Lives-IsInSync_example =
    Lives-IsInSync ascii swap_case text_eq site start
      ((refresh_try swap_case site (round ∷ []) start).0)
      (refreshes (round ∷ []) start ((refresh_try swap_case site (round ∷ []) start).0) are_fair
        (now ((refresh_try swap_case site (round ∷ []) start).0)))
      is_in_sync

-- A refresh starts, the next one finds it running, and the first gives up: the line of the skip is
-- decided on, and printed last.
abbrev quiet_server : Refreshing ℕ
quiet_server = record { server = start; skipping = 0; saying = []; last = start.failing }

abbrev one_runs : Refreshing ℕ
one_runs = after_tick quiet_server (refresh_tick quiet_server.server)

abbrev one_waits : Refreshing ℕ
one_waits = after_tick one_runs (refresh_tick one_runs.server)

abbrev one_skips : Refreshing ℕ
one_skips =
    after_note true (record one_waits { skipping = one_waits.skipping - 1 })
      (refresh_skips one_waits.server)

abbrev one_gave_up : Refreshing ℕ
one_gave_up = after_note true one_skips (refresh_gives_up false one_skips.server)

one_is_waiting : 0 < one_waits.skipping
unfolding after_tick refresh_tick
one_is_waiting = omega arith

is_balanced : IsBalanced quiet_server
unfolding IsBalanced sum
is_balanced = refl

is_noted : IsNoted quiet_server
unfolding IsNoted
is_noted = refl

Events-IsBalanced_example : IsNoted one_gave_up × IsBalanced one_gave_up
Events-IsBalanced_example =
    Events-IsBalanced quiet_server one_gave_up
      (next quiet_server one_runs one_gave_up (ticks quiet_server) (
        next one_runs one_waits one_gave_up (ticks one_runs) (
          next one_waits one_skips one_gave_up (skips one_waits one_is_waiting) (
            next one_skips one_gave_up one_gave_up (gives_up false one_skips) (done one_gave_up)))))
      is_noted is_balanced
