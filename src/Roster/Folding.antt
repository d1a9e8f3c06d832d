-- ===== src/Roster/Folding.antt =====
-- roster.go, `foldName`, on the orbits of the case folding.
use mathlib.Core.Path.{subst}
use authnd.Base.{
  ltb, ◌==◌, Bool-cases, Text, ℕ, zero, suc, ◌≡◌, refl, sym, ap, ◌∙◌, ◌↔◌, ◌⊎◌, inl, inr, [], ◌∷◌,
  arith,
}
use authnd.Roster.{fold_name, Fold, least_from, least_in_orbit}

least-one :
    (fold : Fold) (r : ℕ) → fold r ≡ r → least_in_orbit fold (fold r) ≡ least_in_orbit fold r
least-one fold r e = ap (least_in_orbit fold) e

least-two :
    (fold : Fold) (r a : ℕ)
    → fold r ≡ a
    → fold a ≡ r
    → least_in_orbit fold a ≡ least_in_orbit fold r
unfolding least_in_orbit least_from
least-two fold r a e f = rw (e, f) (ground (arith, e, f))

least-three :
    (fold : Fold) (r a b : ℕ)
    → fold r ≡ a
    → fold a ≡ b
    → fold b ≡ r
    → least_in_orbit fold a ≡ least_in_orbit fold r
unfolding least_in_orbit least_from
least-three fold r a b e f g = rw (e, f, g) (ground (arith, e, f, g))

least-four :
    (fold : Fold) (r a b c : ℕ)
    → fold r ≡ a
    → fold a ≡ b
    → fold b ≡ c
    → fold c ≡ r
    → least_in_orbit fold a ≡ least_in_orbit fold r
unfolding least_in_orbit least_from
least-four fold r a b c e f g h = rw (e, f, g, h) (ground (arith, e, f, g, h))

-- The orbit of a rune comes back to it in at most four steps.
unfoldable pub Closes : Fold → ℕ → Type 0
Closes fold r =
    (fold r ≡ r)
    ⊎ (fold (fold r) ≡ r)
    ⊎ (fold (fold (fold r)) ≡ r)
    ⊎ (fold (fold (fold (fold r))) ≡ r)

least-fold :
    (fold : Fold) (r : ℕ) → Closes fold r → least_in_orbit fold (fold r) ≡ least_in_orbit fold r
unfolding Closes
least-fold fold r (inl e) = least-one fold r e
least-fold fold r (inr (inl e)) = least-two fold r (fold r) refl e
least-fold fold r (inr (inr (inl e))) = least-three fold r (fold r) (fold (fold r)) refl refl e
least-fold fold r (inr (inr (inr e))) =
    least-four fold r (fold r) (fold (fold r)) (fold (fold (fold r))) refl refl refl e

-- What SimpleFold leads to from a rune.
pub data InOrbit (fold : Fold) (r : ℕ) : ℕ → Type 0 where
  start : InOrbit fold r r
  step : {s : ℕ} → InOrbit fold r s → InOrbit fold r (fold s)

-- Two runes are the same ignoring case: their orbits meet.
pub SameOrbit : Fold → ℕ → ℕ → Type 0
SameOrbit fold r s = (m : ℕ) × InOrbit fold r m × InOrbit fold s m

-- Two texts are, rune by rune.
pub SameFold : Fold → Text → Text → Type 0
SameFold fold [] [] = Unit
SameFold fold (a ∷ s) (b ∷ t) = SameOrbit fold a b × SameFold fold s t
SameFold fold _ _ = ⊥

least_from-InOrbit :
    (fold : Fold) (rounds r f least : ℕ)
    → InOrbit fold r f
    → InOrbit fold r least
    → InOrbit fold r (least_from fold rounds r f least)
unfolding least_from
least_from-InOrbit fold zero r f least h k = k
least_from-InOrbit fold (suc rounds) r f least h k = elim (Bool-cases (f == r)) [
  | inl e ↦ simp (e) k
  | inr e ↦ elim (Bool-cases (ltb f least)) [
    | inl b ↦ simp (e, b) (least_from-InOrbit fold rounds r (fold f) f (step h) h)
    | inr b ↦ simp (e, b) (least_from-InOrbit fold rounds r (fold f) least (step h) k)
  ]
]

least-InOrbit : (fold : Fold) (r : ℕ) → InOrbit fold r (least_in_orbit fold r)
unfolding least_in_orbit
least-InOrbit fold r = least_from-InOrbit fold 4 r (fold r) r (step start) start

module _ (fold : Fold) (closes : (r : ℕ) → Closes fold r) where
  least-orbit : (r m : ℕ) → InOrbit fold r m → least_in_orbit fold m ≡ least_in_orbit fold r
  least-orbit r _ start = refl
  least-orbit r _ (step {s} h) = least-fold fold s (closes s) ∙ least-orbit r s h

  least_iff : (a b : ℕ) → (least_in_orbit fold a ≡ least_in_orbit fold b) ↔ SameOrbit fold a b
  unfolding SameOrbit
  least_iff a b = (
    λ e. (
      least_in_orbit fold a,
      least-InOrbit fold a,
      subst (InOrbit fold b) (sym e) (least-InOrbit fold b),
    ),
    λ (m, h, k). sym (least-orbit a m h) ∙ least-orbit b m k,
  )

  -- Two names are folded to the same name exactly where they are equal rune by rune ignoring case,
  -- as strings.EqualFold compares them, for any folding whose orbits have at most four runes.
  pub fold_name_iff : (s t : Text) → (fold_name fold s ≡ fold_name fold t) ↔ SameFold fold s t
  unfolding fold_name SameFold
  fold_name_iff [] [] = (λ e. tt, λ h. refl)
  fold_name_iff [] (b ∷ t) = (λ e. cc, λ h. absurd h)
  fold_name_iff (a ∷ s) [] = (λ e. cc, λ h. absurd h)
  fold_name_iff (a ∷ s) (b ∷ t) = (
    λ e. ((least_iff a b).0 (ground (arith, e)), (fold_name_iff s t).0 (ground (arith, e))),
    λ (h, k). ground (arith, (least_iff a b).1 h, (fold_name_iff s t).1 k),
  )
