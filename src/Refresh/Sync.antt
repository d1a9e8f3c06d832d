-- ===== src/Refresh/Sync.antt =====
-- refresh.go: password writes beside a refresh, and what is served.
use mathlib.Core.Path.{subst}
use authnd.Base.{
  Text, Casing, get, ◌≤◌, ◌≡◌, refl, sym, ap, ◌∙◌, Bool, Option, none, some, List, arith,
}
use authnd.Directory.{Identity}
use authnd.Roster.{Fold, names_of}
use authnd.Roster.Lookup.{last_named, IsIndexed}
use authnd.Server.{Snapshot, Site, State, who}
use authnd.Server.Password.{reload_local}
use authnd.Server.Password.Reload.{IsReload, reload_local-IsReload, reload_local-gen}
use authnd.Refresh.{Round}

-- The people that the live source holds are served as it holds them, and the roster knows their
-- names as its own.
pub record IsInSync {C : Type 0} (st : State C) : Type 0 where
  pub served :
      (n : Text) (id : Identity) → last_named n none st.local ≡ some id → get n (who st) ≡ some id
  pub file_names : st.snap.people.local ≡ names_of st.local
  pub indexed : IsIndexed (who st)

-- dir.Set.Identities: the first source, which is the live one, owns its names.
unfoldable pub OwnsNames : (List Identity → Option (List Identity)) → Type 0
OwnsNames list =
    (local ids : List Identity)
    → list local ≡ some ids
    → (n : Text) (id : Identity) → last_named n none local ≡ some id
    → last_named n none ids ≡ some id

module _ {C : Type 0} (u : Casing) (fold : Fold) (equal_dn : Text → Text → Bool) (site : Site) where
  -- What happens beside a refresh: password writes, and all that leaves the snapshot alone.
  pub data Beside : State C → State C → Type 0 where
    quiet : (st : State C) → Beside st st
    works :
        (st st' st'' : State C)
        → st'.snap ≡ st.snap
        → st'.local ≡ st.local
        → st'.gen ≡ st.gen
        → Beside st' st''
        → Beside st st''
    writes :
        (fresh : List Identity) (st st' st'' : State C)
        → reload_local u fold equal_dn site fresh st ≡ some st'
        → Beside st' st''
        → Beside st st''

  pub record IsFair (r : Round C) : Type 0 where
    pub owns : OwnsNames r.identities
    pub listing : (st : State C) → Beside st (r.before_list st)
    pub building : (st : State C) → Beside st (r.before_build st)
    pub swapping : (st : State C) → Beside st (r.before_swap st)

  works-IsInSync :
      (st st' : State C) → st'.snap ≡ st.snap → st'.local ≡ st.local → IsInSync st → IsInSync st'
  works-IsInSync st st' s l h = record {
    served = λ n id e.
        ap (λ (x : Snapshot). get n x.people.by_name) s
        ∙ h.served n id (sym (ap (last_named n none) l) ∙ e);
    file_names = ap (λ (x : Snapshot). x.people.local) s ∙ (h.file_names ∙ sym (ap names_of l));
    indexed = subst (λ (x : Snapshot). IsIndexed x.people.by_name) (sym s) h.indexed;
  }

  reload_local-IsInSync :
      (fresh : List Identity) (st st' : State C)
      → reload_local u fold equal_dn site fresh st ≡ some st'
      → IsInSync st
      → IsInSync st'
  reload_local-IsInSync fresh st st' e h =
      let r : IsReload fresh st st' =
        reload_local-IsReload u fold equal_dn site fresh st st' h.indexed e in
      record {
        served = λ n id owned. ground (arith, r.people n, owned, r.source);
        file_names = r.file_names ∙ sym (ap names_of r.source);
        indexed = r.indexed;
      }

  pub beside-IsInSync : (st st' : State C) → Beside st st' → IsInSync st → IsInSync st'
  beside-IsInSync _ _ (quiet st) h = h
  beside-IsInSync _ _ (works st st' st'' s l g b) h =
      beside-IsInSync st' st'' b (works-IsInSync st st' s l h)
  beside-IsInSync _ _ (writes fresh st st' st'' e b) h =
      beside-IsInSync st' st'' b (reload_local-IsInSync fresh st st' e h)

  works-gen :
      (st st' st'' : State C)
      → st'.local ≡ st.local
      → st'.gen ≡ st.gen
      → (st'.gen ≤ st''.gen) × (st''.gen ≡ st'.gen → st''.local ≡ st'.local)
      → (st.gen ≤ st''.gen) × (st''.gen ≡ st.gen → st''.local ≡ st.local)
  works-gen st st' st'' l g (le, same) = (grind (arith, le, g), λ e. same (e ∙ sym g) ∙ l)

  writes-gen :
      (fresh : List Identity) (st st' st'' : State C)
      → reload_local u fold equal_dn site fresh st ≡ some st'
      → (st'.gen ≤ st''.gen) × (st''.gen ≡ st'.gen → st''.local ≡ st'.local)
      → (st.gen ≤ st''.gen) × (st''.gen ≡ st.gen → st''.local ≡ st.local)
  writes-gen fresh st st' st'' e (le, same) = (
    grind (arith, le, reload_local-gen u fold equal_dn site fresh st st' e),
    λ back. absurd (grind (arith, le, back, reload_local-gen u fold equal_dn site fresh st st' e)),
  )

  pub beside-gen :
      (st st' : State C)
      → Beside st st'
      → (st.gen ≤ st'.gen) × (st'.gen ≡ st.gen → st'.local ≡ st.local)
  beside-gen _ _ (quiet st) = (omega arith, λ e. refl)
  beside-gen _ _ (works st st' st'' s l g b) = works-gen st st' st'' l g (beside-gen st' st'' b)
  beside-gen _ _ (writes fresh st st' st'' e b) =
      writes-gen fresh st st' st'' e (beside-gen st' st'' b)
