-- ===== src/Refresh/Rounds.antt =====
-- What the rounds of a refresh leave, whatever is written beside them.
use mathlib.Core.Path.{subst}
use authnd.Base.{
  ◌==◌, ==_iff, Bool-cases, Text, Casing, ℕ, ◌≡◌, refl, sym, ap, ◌∙◌, inl, inr, Bool, true, false,
  Option, none, some, List, [], ◌∷◌, arith,
}
use authnd.Directory.{Identity}
use authnd.Groups.{read_groups}
use authnd.Roster.{Fold, Roster, Indexed, ok, clash, new_roster}
use authnd.Roster.Lookup.{IsIndexed, new_roster-get}
use authnd.Server.{GroupSnapshot, Snapshot, Site, State}
use authnd.Refresh.{
  Round, Ended, failed, beaten, swapped, snapshot_of, build_snapshot, swap_in, built, listed,
  end_round, after, run_round, refresh_try,
}
use authnd.Refresh.Sync.{
  IsInSync, OwnsNames, Beside, quiet, works, writes, IsFair, beside-gen, beside-IsInSync,
}

snapshot_of_inv :
    (site : Site) (groups : Option GroupSnapshot) (now : ℕ) (i : Indexed) (sn : Snapshot)
    → snapshot_of site groups now i ≡ some sn
    → (r : Roster) × (i ≡ ok r) × (sn.people ≡ r)
unfolding snapshot_of
snapshot_of_inv site none now (clash a b) sn h = cc
snapshot_of_inv site (some g) now (clash a b) sn h = cc
snapshot_of_inv site none now (ok r) sn h = cc
snapshot_of_inv site (some g) now (ok r) sn h = (r, refl, ground (arith, h))

module _ {C : Type 0} (u : Casing) (fold : Fold) (equal_dn : Text → Text → Bool) (site : Site) where
  -- A snapshot built from what the live source held is in sync with that.
  swap-IsInSync :
      (r : Round C) (ids : List Identity) (local : List Identity) (sn : Snapshot) (st : State C)
      → OwnsNames r.identities
      → r.identities local ≡ some ids
      → st.local ≡ local
      → build_snapshot fold site ids r.groups r.now local ≡ some sn
      → IsInSync (record st { snap = sn })
  unfolding build_snapshot OwnsNames
  swap-IsInSync r ids local sn st owns listing same h =
      let (p, e, is) =
        snapshot_of_inv site (read_groups r.groups ids) r.now (new_roster fold ids local) sn h in
      let (looked, unique, named) = new_roster-get fold ids local p e in
      record {
        served =
            λ n id owned. ground (arith, is, looked n, owns local ids listing n id, owned, same);
        file_names = ground (arith, is, named, same);
        indexed = subst (λ (x : Roster). IsIndexed x.by_name) (sym is) unique;
      }

  beside-trans :
      (st st' st'' : State C)
      → Beside u fold equal_dn site st st'
      → Beside u fold equal_dn site st' st''
      → Beside u fold equal_dn site st st''
  beside-trans _ _ st'' (quiet st) c = c
  beside-trans _ _ end (works st st' st'' s l g b) c =
      works st st' end s l g (beside-trans st' st'' end b c)
  beside-trans _ _ end (writes fresh st st' st'' e b) c =
      writes fresh st st' end e (beside-trans st' st'' end b c)

  -- What a round leaves.
  pub data RoundTold (st : State C) : State C × Ended → Type 0 where
    round_failed : (st' : State C) → Beside u fold equal_dn site st st' → RoundTold st (st', failed)
    round_beaten : (st' : State C) → Beside u fold equal_dn site st st' → RoundTold st (st', beaten)
    round_swapped :
        (st' : State C) (sn : Snapshot)
        → Beside u fold equal_dn site st st'
        → IsInSync (record st' { snap = sn })
        → RoundTold st (record st' { snap = sn }, swapped)

  end_round_told :
      (r : Round C) (ids at_list at_build : List Identity) (st st3 : State C) (o : Option Snapshot)
      → OwnsNames r.identities
      → r.identities at_list ≡ some ids
      → build_snapshot fold site ids r.groups r.now at_build ≡ o
      → Beside u fold equal_dn site st st3
      → (st3.gen ≡ st.gen → (st3.local ≡ at_build) × (at_build ≡ at_list))
      → RoundTold st (end_round fold site st.gen (st3, o))
  unfolding end_round swap_in
  end_round_told r ids at_list at_build st st3 none owns listing b beside same =
      round_failed st3 beside
  end_round_told r ids at_list at_build st st3 (some sn) owns listing b beside same =
      elim (Bool-cases (st3.gen == st.gen)) [
        | inl e ↦
            let (kept, held) = same ((==_iff st3.gen st.gen).0 e) in
            simp (e) (
              round_swapped st3 sn beside
                (swap-IsInSync r ids at_build sn st3 owns (ap r.identities held ∙ listing) kept b))
        | inr e ↦ simp (e) (round_beaten st3 beside)
      ]

  -- A generation that is the same at the end was so all along.
  held_back :
      (st st1 st2 st3 : State C)
      → Beside u fold equal_dn site st st1
      → Beside u fold equal_dn site st1 st2
      → Beside u fold equal_dn site st2 st3
      → st3.gen ≡ st.gen
      → (st3.local ≡ st2.local) × (st2.local ≡ st1.local)
  held_back st st1 st2 st3 b1 b2 b3 e =
      let (le1, _) = beside-gen u fold equal_dn site st st1 b1 in
      let (le2, same2) = beside-gen u fold equal_dn site st1 st2 b2 in
      let (le3, same3) = beside-gen u fold equal_dn site st2 st3 b3 in
      (same3 (omega (arith, le1, le2, le3, e)), same2 (omega (arith, le1, le2, le3, e)))

  listed_told :
      (r : Round C) (st st1 : State C) (o : Option (List Identity))
      → IsFair u fold equal_dn site r
      → Beside u fold equal_dn site st st1
      → r.identities st1.local ≡ o
      → RoundTold st (end_round fold site st.gen (listed fold site r st.gen o st1))
  unfolding listed built end_round
  listed_told r st st1 none fair b1 e = round_failed st1 b1
  listed_told r st st1 (some ids) fair b1 e =
      let st2 = r.before_build st1 in
      let st3 = r.before_swap st2 in
      let b2 : Beside u fold equal_dn site st1 st2 = fair.building st1 in
      let b3 : Beside u fold equal_dn site st2 st3 = fair.swapping st2 in
      end_round_told r ids st1.local st2.local st st3
        (build_snapshot fold site ids r.groups r.now st2.local) fair.owns e refl
        (beside-trans st st1 st3 b1 (beside-trans st1 st2 st3 b2 b3))
        (held_back st st1 st2 st3 b1 b2 b3)

  -- A round that fails or is beaten leaves what happened beside it; one that swaps serves what the
  -- live source holds at that moment.
  run_round_told :
      (r : Round C) (st : State C)
      → IsFair u fold equal_dn site r
      → RoundTold st (run_round fold site r st)
  unfolding run_round
  run_round_told r st fair =
      let st1 = r.before_list st in
      listed_told r st st1 (r.identities st1.local) fair (fair.listing st) refl

  -- What a refresh leaves: what happened beside it, or that with a snapshot that is in sync.
  pub data RefreshTold (st : State C) : State C × Bool → Type 0 where
    kept : (st' : State C) → Beside u fold equal_dn site st st' → RefreshTold st (st', false)
    replaced :
        (st' : State C) (sn : Snapshot)
        → Beside u fold equal_dn site st st'
        → IsInSync (record st' { snap = sn })
        → RefreshTold st (record st' { snap = sn }, true)

  unfoldable pub AllFair : List (Round C) → Type 0
  AllFair [] = Unit
  AllFair (r ∷ rs) = IsFair u fold equal_dn site r × AllFair rs

  after_beaten :
      (st st' : State C) (p : State C × Bool)
      → Beside u fold equal_dn site st st'
      → RefreshTold st' p
      → RefreshTold st p
  after_beaten st st' _ b (kept st'' c) = kept st'' (beside-trans st st' st'' b c)
  after_beaten st st' _ b (replaced st'' sn c h) = replaced st'' sn (beside-trans st st' st'' b c) h

  after_round :
      (rs : List (Round C)) (st : State C) (p : State C × Ended)
      → RoundTold st p
      → ((st' : State C) → RefreshTold st' (refresh_try fold site rs st'))
      → RefreshTold st (after fold site (refresh_try fold site rs) p)
  unfolding after
  after_round rs st _ (round_failed st' b) rest = kept st' b
  after_round rs st _ (round_beaten st' b) rest =
      after_beaten st st' (refresh_try fold site rs st') b (rest st')
  after_round rs st _ (round_swapped st' sn b h) rest = replaced st' sn b h

  -- A refresh that fails leaves the server as what happened beside it left it: the snapshot stays.
  -- One that succeeds changes the snapshot alone, and then everybody whom the live source holds at
  -- that moment is served as it holds them. Password writes may happen before, between and after
  -- all its reads; the sources' list has to give the live source its own names.
  pub refresh_try-RefreshTold :
      (rs : List (Round C)) (st : State C)
      → AllFair rs
      → RefreshTold st (refresh_try fold site rs st)
  unfolding refresh_try AllFair
  refresh_try-RefreshTold [] st fair = kept st (quiet st)
  refresh_try-RefreshTold (r ∷ rs) st (fair, rest) =
      after_round rs st (run_round fold site r st) (run_round_told r st fair)
        (λ st'. refresh_try-RefreshTold rs st' rest)

  told-IsInSync :
      (st : State C) (p : State C × Bool) → RefreshTold st p → IsInSync st → IsInSync p.0
  told-IsInSync st _ (kept st' b) h = beside-IsInSync u fold equal_dn site st st' b h
  told-IsInSync st _ (replaced st' sn b h') h = h'

  -- What the server does to its people: password writes, refreshes, and the rest.
  pub data Lives : State C → State C → Type 0 where
    now : (st : State C) → Lives st st
    lives_on :
        (st st' st'' : State C)
        → Beside u fold equal_dn site st st'
        → Lives st' st''
        → Lives st st''
    refreshes :
        (rs : List (Round C)) (st st'' : State C)
        → AllFair rs
        → Lives ((refresh_try fold site rs st).0) st''
        → Lives st st''

  -- No refresh undoes a password write: through any sequence of password writes and refreshes,
  -- those that write between a refresh's reads included, whoever the live source holds is served as
  -- it holds them.
  pub Lives-IsInSync : (st st' : State C) → Lives st st' → IsInSync st → IsInSync st'
  Lives-IsInSync _ _ (now st) h = h
  Lives-IsInSync _ _ (lives_on st st' st'' b l) h =
      Lives-IsInSync st' st'' l (beside-IsInSync u fold equal_dn site st st' b h)
  Lives-IsInSync _ _ (refreshes rs st st'' fair l) h =
      Lives-IsInSync ((refresh_try fold site rs st).0) st'' l
        (told-IsInSync st (refresh_try fold site rs st) (refresh_try-RefreshTold rs st fair) h)
