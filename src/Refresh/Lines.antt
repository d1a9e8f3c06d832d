-- ===== src/Refresh/Lines.antt =====
-- refresh.go, `refreshOnce` and `noteRefresh`: the steps of the refreshes and of their lines.
use authnd.Base.{
  ℕ, ◌+◌, ◌-◌, ◌<◌, ◌≡◌, Bool, true, false, not, ◌||◌, Option, none, some, List, ◌∷◌, ◌++◌,
}
use authnd.Server.{State, Line, say}
use authnd.Refresh.{note_refresh, refresh_tick, refresh_skips, refresh_stops, refresh_gives_up}

-- The server with its refreshes: how many are about to note that they are skipped, the lines that are
-- decided on under s.mu and not printed yet, and whether the last end that was noted is bad.
pub record Refreshing (C : Type 0) : Type 0 where
  pub server : State C
  pub skipping : ℕ
  pub saying : List Line
  pub last : Bool

module _ {C : Type 0} where
  -- An end that was noted, with the line that is to be printed.
  unfoldable pub after_note : Bool → Refreshing C → State C × Option Line → Refreshing C
  after_note bad r (st, none) = record r { server = st; last = bad }
  after_note bad r (st, some l) = record r { server = st; last = bad; saying = l ∷ r.saying }

  -- A tick, which goes on to note that it is skipped where the previous refresh still runs.
  unfoldable pub after_tick : Refreshing C → State C × Bool → Refreshing C
  after_tick r (st, false) = record r { server = st }
  after_tick r (st, true) = record r { server = st; skipping = r.skipping + 1 }

  -- One step of a refresh: what it does at once, or under s.mu, or the printing of a line.
  pub data Event : Refreshing C → Refreshing C → Type 0 where
    ticks : (r : Refreshing C) → Event r (after_tick r (refresh_tick r.server))
    skips :
        (r : Refreshing C)
        → 0 < r.skipping
        → Event r
            (after_note true (record r { skipping = r.skipping - 1 }) (refresh_skips r.server))
    notes :
        (bad : Bool) (r : Refreshing C)
        → r.server.refreshing ≡ true
        → Event r (after_note bad r (note_refresh bad r.server))
    stops : (r : Refreshing C) → Event r (record r { server = refresh_stops r.server })
    gives_up :
        (stopping : Bool) (r : Refreshing C)
        → Event r (after_note (not stopping || r.last) r (refresh_gives_up stopping r.server))
    prints :
        (before after : List Line) (l : Line) (r : Refreshing C)
        → r.saying ≡ before ++ l ∷ after
        → Event r (record r { server = say l r.server; saying = before ++ after })

  pub data Events : Refreshing C → Refreshing C → Type 0 where
    done : (r : Refreshing C) → Events r r
    next : (r r' r'' : Refreshing C) → Event r r' → Events r' r'' → Events r r''
