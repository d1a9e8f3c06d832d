-- ===== src/Refresh.antt =====
-- refresh.go: reading the sources again, and swapping the new snapshot in.
pub mod Sync
pub mod Rounds
pub mod Lines
pub mod Streak
pub mod Tests
use authnd.Base.{
  ltb, leb, ◌==◌, if◌then◌else◌, ltb→lt, lt→ltb, leb→le, ==_iff, Bool-cases, Option-cases, is_some,
  length, take, drop, any, all, keep, length-append, take-append, drop-append, take-append-drop,
  length-take, length-drop, All, Text, codes, text_eq_refl, text_eq_iff, is_empty, ascii_lower,
  ascii_upper, Casing, to_lower, to_upper, contains, Free, cut-append, cut-none_of_Free,
  append_of_cut, cut_prefix-append, append_of_cut_prefix, has_suffix-append, text_eq, cut, split,
  parse_uint, format_uint, parse_uint-format_uint, cut_prefix, has_suffix, Map, get-put, get-remove,
  get, put, remove, ℤ, pos, negsuc, int_ltb, wrap_int64, ℕ, zero, suc, ◌+◌, ◌-◌, ◌*◌, ◌/◌, ◌%◌, ◌^◌,
  ◌≤◌, ◌<◌, max, min, String, ◌≡◌, refl, sym, ap, ◌∙◌, ◌≢◌, ◌↔◌, ◌⊎◌, inl, inr, Bool, true, false,
  not, ◌&&◌, ◌||◌, Option, none, some, List, [], ◌∷◌, ◌++◌, map, append_assoc, append-nil,
  map-append, arith,
}
use authnd.Config.{GroupBlock}
use authnd.Directory.{Identity}
use authnd.Groups.{FrozenSet, read_groups}
use authnd.Roster.{Fold, Indexed, ok, clash, new_roster}
use authnd.Server.{
  Line, GroupSnapshot, Snapshot, Site, State, refresh_skipped, refresh_failed, refresh_works, say,
}

-- checkConfigGroups: every member of every group block is somebody who is served.
members_served : Map Identity → List Text → Bool
members_served people ms = all (λ m. is_some (get m people)) ms

pub groups_served : Map Identity → List GroupBlock → Bool
unfolding members_served
groups_served people gs = all (λ (g : GroupBlock). members_served people g.members) gs

snapshot_of : Site → Option GroupSnapshot → ℕ → Indexed → Option Snapshot
snapshot_of site groups now (clash a b) = none
snapshot_of site none now (ok people) = none
snapshot_of site (some groups) now (ok people) =
    if groups_served people.by_name site.cfg.groups
    then some (record { people = people; groups = groups; built = now })
    else none

-- The end of `read`, once the people are listed: the local source as it is now, the groups as the
-- sources give them, and the clock; none is an error.
pub build_snapshot :
    Fold → Site → List Identity → Option FrozenSet → ℕ → List Identity → Option Snapshot
unfolding snapshot_of
build_snapshot fold site ids groups now local =
    snapshot_of site (read_groups groups ids) now (new_roster fold ids local)

-- One round of refreshTry: what the sources answer (the identities for what the live
-- source points at as they are listed), and what else happens to the server between
-- its steps.
pub record Round (C : Type 0) : Type 0 where
  pub identities : List Identity → Option (List Identity)
  pub groups : Option FrozenSet
  pub now : ℕ
  pub before_list : State C → State C
  pub before_build : State C → State C
  pub before_swap : State C → State C

-- What a round comes to: the state, and whether it failed, was beaten by a password write, or
-- swapped.
pub data Ended : Type 0 where
  failed beaten swapped : Ended

module _ {C : Type 0} where
  -- The swap of refreshTry, under swapMu: nothing where a password was written since `gen`.
  pub swap_in : ℕ → Snapshot → State C → State C × Bool
  swap_in gen sn st = if st.gen == gen then (record st { snap = sn }, true) else (st, false)

  module _ (fold : Fold) (site : Site) where
    built : Round C → ℕ → List Identity → State C → State C × Option Snapshot
    built r gen ids st = (r.before_swap st, build_snapshot fold site ids r.groups r.now st.local)

    listed : Round C → ℕ → Option (List Identity) → State C → State C × Option Snapshot
    unfolding built
    listed r gen none st = (st, none)
    listed r gen (some ids) st = built r gen ids (r.before_build st)

    end_round : ℕ → State C × Option Snapshot → State C × Ended
    end_round gen (st, none) = (st, failed)
    end_round gen (st, some sn) =
        let (st', done) = swap_in gen sn st in (st', if done then swapped else beaten)

    pub run_round : Round C → State C → State C × Ended
    unfolding listed end_round swap_in
    run_round r st =
        let st1 = r.before_list st in
        end_round st.gen (listed r st.gen (r.identities st1.local) st1)

    -- What a round leads to, where `again` is the next one.
    after : (State C → State C × Bool) → State C × Ended → State C × Bool
    after again (st, failed) = (st, false)
    after again (st, beaten) = again st
    after again (st, swapped) = (st, true)

    -- refreshTry, over its rounds (three): whether it succeeded.
    pub refresh_try : List (Round C) → State C → State C × Bool
    unfolding after
    refresh_try [] st = (st, false)
    refresh_try (r ∷ rs) st = after (refresh_try rs) (run_round r st)

  -- noteRefresh up to the unlocking of s.mu, and the line that is printed after it.
  unfoldable pub note_refresh : Bool → State C → State C × Option Line
  note_refresh bad st = (
    record st { failing = bad },
    if bad && not st.failing
        then some refresh_failed
        else if not bad && st.failing
        then some refresh_works
        else none,
  )

  -- The CompareAndSwap of refreshOnce; whether the previous one still runs.
  unfoldable pub refresh_tick : State C → State C × Bool
  refresh_tick st = if st.refreshing then (st, true) else (record st { refreshing = true }, false)

  -- A refresh that is skipped, up to the unlocking of s.mu, and the line that is printed after it.
  unfoldable pub refresh_skips : State C → State C × Option Line
  refresh_skips st =
      (record st { failing = true }, if st.failing then none else some refresh_skipped)

  -- The goroutine of refreshOnce is at its end: another one may start.
  pub refresh_stops : State C → State C
  refresh_stops st = record st { refreshing = false }

  -- refreshOnce stops waiting; where the server goes on, that is a failure too.
  unfoldable pub refresh_gives_up : Bool → State C → State C × Option Line
  unfolding note_refresh
  refresh_gives_up stopping st = if stopping then (st, none) else note_refresh true st
