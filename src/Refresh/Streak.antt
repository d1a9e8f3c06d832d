-- ===== src/Refresh/Streak.antt =====
-- refresh.go, `noteRefresh` and `refreshOnce`: what is said of a streak of failing refreshes.
use authnd.Base.{
  if◌then◌else◌, Bool-cases, ℕ, ◌+◌, ◌-◌, ◌≡◌, refl, ap, ◌∙◌, inl, inr, Bool, true, false, not,
  ◌&&◌, ◌||◌, Option, none, some, List, [], ◌∷◌, ◌++◌, arith,
}
use authnd.Server.{State, Line, refresh_skipped, refresh_failed, refresh_works, say}
use authnd.Refresh.{note_refresh, refresh_tick, refresh_skips, refresh_stops, refresh_gives_up}
use authnd.Refresh.Lines.{
  Refreshing, after_note, after_tick, Event, ticks, skips, notes, stops, gives_up, prints, Events,
  done, next,
}

-- Whether a line says that a streak of failures begins, or that one is over.
unfoldable pub begins : Line → ℕ
begins refresh_skipped = 1
begins refresh_failed = 1
begins _ = 0

unfoldable pub ends : Line → ℕ
ends refresh_works = 1
ends _ = 0

unfoldable pub sum : (Line → ℕ) → List Line → ℕ
sum f [] = 0
sum f (l ∷ ls) = f l + sum f ls

abbrev line_sum : (Line → ℕ) → Option Line → ℕ
line_sum f none = 0
line_sum f (some l) = f l

sum-append : (f : Line → ℕ) (ls ms : List Line) → sum f (ls ++ ms) ≡ sum f ls + sum f ms
unfolding sum
sum-append f [] ms = omega arith
sum-append f (l ∷ ls) ms = omega (arith, sum-append f ls ms)

module _ {C : Type 0} where
  -- Each streak that began is over, but the one that the server is in: counted over the lines that
  -- are printed and those that are still to be.
  unfoldable pub IsBalanced : Refreshing C → Type 0
  IsBalanced r =
      sum begins r.server.out + sum begins r.saying
      ≡ sum ends r.server.out + sum ends r.saying + (if r.server.failing then 1 else 0)

  abbrev in_streak : State C → ℕ
  in_streak st = if st.failing then 1 else 0

  -- A note whose line accounts for the change of `failing`.
  after_note-IsBalanced :
      (bad : Bool) (r : Refreshing C) (st : State C) (o : Option Line)
      → IsBalanced r
      → st.out ≡ r.server.out
      → in_streak r.server + line_sum begins o ≡ line_sum ends o + in_streak st
      → IsBalanced (after_note bad r (st, o))
  unfolding IsBalanced after_note sum
  after_note-IsBalanced bad r st none h e k =
      let b = ap (sum begins) e in let d = ap (sum ends) e in omega (arith, h, b, d, k)
  after_note-IsBalanced bad r st (some l) h e k =
      let b = ap (sum begins) e in let d = ap (sum ends) e in omega (arith, h, b, d, k)

  note_refresh-IsBalanced :
      (bad : Bool) (r : Refreshing C)
      → IsBalanced r
      → IsBalanced (after_note bad r (note_refresh bad r.server))
  unfolding note_refresh begins ends
  note_refresh-IsBalanced bad r h =
      after_note-IsBalanced bad r (note_refresh bad r.server).0 (note_refresh bad r.server).1 h refl
        (accounts bad r.server.failing)
    where
      accounts :
          (bad failing : Bool)
          → (if failing then 1 else 0)
              + line_sum begins (
                  if bad && not failing
                  then some refresh_failed
                  else if not bad && failing
                  then some refresh_works
                  else none)
            ≡ line_sum ends (
                if bad && not failing
                then some refresh_failed
                else if not bad && failing
                then some refresh_works
                else none)
              + (if bad then 1 else 0)
      accounts true true = refl
      accounts true false = refl
      accounts false true = refl
      accounts false false = refl

  refresh_skips-IsBalanced :
      (r : Refreshing C) (n : ℕ)
      → IsBalanced r
      → IsBalanced (after_note true (record r { skipping = n }) (refresh_skips r.server))
  unfolding refresh_skips begins ends IsBalanced
  refresh_skips-IsBalanced r n h =
      after_note-IsBalanced true (record r { skipping = n }) (refresh_skips r.server).0
        (refresh_skips r.server).1 h refl (accounts r.server.failing)
    where
      accounts :
          (failing : Bool)
          → (if failing then 1 else 0)
              + line_sum begins (if failing then none else some refresh_skipped)
            ≡ line_sum ends (if failing then none else some refresh_skipped) + 1
      accounts true = refl
      accounts false = refl

  after_tick-IsBalanced :
      (r : Refreshing C) → IsBalanced r → IsBalanced (after_tick r (refresh_tick r.server))
  unfolding IsBalanced after_tick refresh_tick
  after_tick-IsBalanced r h = elim (Bool-cases r.server.refreshing) [
    | inl e ↦ rw e h
    | inr e ↦ rw e h
  ]

  prints-IsBalanced :
      (r : Refreshing C) (before after : List Line) (l : Line)
      → r.saying ≡ before ++ l ∷ after
      → IsBalanced r
      → IsBalanced (record r { server = say l r.server; saying = before ++ after })
  unfolding IsBalanced sum
  prints-IsBalanced r before after l e h = omega (
    arith,
    h,
    ap (sum begins) e ∙ sum-append begins before (l ∷ after),
    ap (sum ends) e ∙ sum-append ends before (l ∷ after),
    sum-append begins before after,
    sum-append ends before after,
  )

  gives_up-IsBalanced :
      (stopping : Bool) (r : Refreshing C)
      → IsBalanced r
      → IsBalanced (after_note (not stopping || r.last) r (refresh_gives_up stopping r.server))
  unfolding refresh_gives_up after_note IsBalanced
  gives_up-IsBalanced true r h = h
  gives_up-IsBalanced false r h = note_refresh-IsBalanced true r h

  Event-IsBalanced : (r r' : Refreshing C) → Event r r' → IsBalanced r → IsBalanced r'
  unfolding IsBalanced refresh_stops
  Event-IsBalanced _ _ (ticks r) h = after_tick-IsBalanced r h
  Event-IsBalanced _ _ (skips r some_skip) h = refresh_skips-IsBalanced r (r.skipping - 1) h
  Event-IsBalanced _ _ (notes bad r running) h = note_refresh-IsBalanced bad r h
  Event-IsBalanced _ _ (stops r) h = h
  Event-IsBalanced _ _ (gives_up stopping r) h = gives_up-IsBalanced stopping r h
  Event-IsBalanced _ _ (prints before after l r e) h = prints-IsBalanced r before after l e h

  -- The server is in a streak exactly where the last end that was noted is bad.
  unfoldable pub IsNoted : Refreshing C → Type 0
  IsNoted r = r.server.failing ≡ r.last

  after_note-IsNoted :
      (bad : Bool) (r : Refreshing C) (st : State C) (o : Option Line)
      → st.failing ≡ bad
      → IsNoted (after_note bad r (st, o))
  unfolding IsNoted after_note
  after_note-IsNoted bad r st none e = e
  after_note-IsNoted bad r st (some l) e = e

  after_tick-IsNoted :
      (r : Refreshing C) → IsNoted r → IsNoted (after_tick r (refresh_tick r.server))
  unfolding IsNoted after_tick refresh_tick
  after_tick-IsNoted r h = elim (Bool-cases r.server.refreshing) [ inl e ↦ rw e h | inr e ↦ rw e h ]

  gives_up-IsNoted :
      (stopping : Bool) (r : Refreshing C)
      → IsNoted r
      → IsNoted (after_note (not stopping || r.last) r (refresh_gives_up stopping r.server))
  unfolding refresh_gives_up note_refresh IsNoted
  gives_up-IsNoted true r h = after_note-IsNoted r.last r r.server none h
  gives_up-IsNoted false r h =
      after_note-IsNoted true r (note_refresh true r.server).0 (note_refresh true r.server).1 refl

  Event-IsNoted : (r r' : Refreshing C) → Event r r' → IsNoted r → IsNoted r'
  unfolding IsNoted refresh_stops note_refresh refresh_skips
  Event-IsNoted _ _ (ticks r) h = after_tick-IsNoted r h
  Event-IsNoted _ _ (skips r some_skip) h =
      after_note-IsNoted true (record r { skipping = r.skipping - 1 }) (refresh_skips r.server).0
        (refresh_skips r.server).1 refl
  Event-IsNoted _ _ (notes bad r running) h =
      after_note-IsNoted bad r (note_refresh bad r.server).0 (note_refresh bad r.server).1 refl
  Event-IsNoted _ _ (stops r) h = h
  Event-IsNoted _ _ (gives_up stopping r) h = gives_up-IsNoted stopping r h
  Event-IsNoted _ _ (prints before after l r e) h = h

  -- Whatever the refreshes do, in whatever order they note their ends and print their lines: the
  -- server is in a streak exactly where the last end that was noted is a failure or a skip; and of
  -- the lines that are printed or decided on, those that say that a streak begins are as many as
  -- those that say that one is over, and one more while the server is in a streak. The start has to
  -- be so already.
  pub Events-IsBalanced :
      (r r' : Refreshing C) → Events r r' → IsNoted r → IsBalanced r → IsNoted r' × IsBalanced r'
  Events-IsBalanced _ _ (done r) n h = (n, h)
  Events-IsBalanced _ _ (next r r' r'' e es) n h =
      Events-IsBalanced r' r'' es (Event-IsNoted r r' e n) (Event-IsBalanced r r' e h)
