-- ===== src/Oauth/Kinds.antt =====
-- The factors that a token stands for: one for each kind that its methods have.
use mathlib.Core.Path.{subst}
use authnd.Base.{
  sym, Bool-cases, any, Text, Casing, ◌≡◌, refl, ap, ◌∙◌, ◌↔◌, inl, inr, true, false, not, ◌&&◌,
  some, List, [], ◌∷◌, arith,
}
use authnd.Factors.{Kind}
use authnd.Oauth.{amr_kind, kind_eq, new_kinds, token_kinds}

kind_eq_iff : (a b : Kind) → (kind_eq a b ≡ true) ↔ (a ≡ b)
unfolding kind_eq
kind_eq_iff a b = ground arith

pub Distinct : List Kind → Type 0
Distinct [] = Unit
Distinct (k ∷ ks) = (any (kind_eq k) ks ≡ false) × Distinct ks

-- The kinds that are added are those of the methods that have not been seen.
any-new_kinds :
    (u : Casing) (k : Kind) (seen : List Kind) (ms : List Text)
    → any (kind_eq k) (new_kinds u seen ms)
      ≡ (any (λ m. kind_eq k (amr_kind u m)) ms && not (any (kind_eq k) seen))
unfolding new_kinds
any-new_kinds u k seen [] = refl
any-new_kinds u k seen (m ∷ ms) = elim (Bool-cases (kind_eq k (amr_kind u m))) [
  | inl e ↦
      let same : k ≡ amr_kind u m = (kind_eq_iff k (amr_kind u m)).0 e in
      ground (
        arith,
        ap (λ x. any (kind_eq x) seen) same,
        any-new_kinds u k seen ms,
        any-new_kinds u k (amr_kind u m ∷ seen) ms,
      )
  | inr e ↦ ground (arith, any-new_kinds u k seen ms, any-new_kinds u k (amr_kind u m ∷ seen) ms)
]

skips :
    (u : Casing) (seen : List Kind) (m : Text) (ms : List Text)
    → any (kind_eq (amr_kind u m)) seen ≡ true
    → new_kinds u seen (m ∷ ms) ≡ new_kinds u seen ms
unfolding new_kinds
skips u seen m ms e = ground (arith, e)

adds :
    (u : Casing) (seen : List Kind) (m : Text) (ms : List Text)
    → any (kind_eq (amr_kind u m)) seen ≡ false
    → new_kinds u seen (m ∷ ms) ≡ amr_kind u m ∷ new_kinds u (amr_kind u m ∷ seen) ms
unfolding new_kinds
adds u seen m ms e = ground (arith, e)

new_kinds-Distinct :
    (u : Casing) (seen : List Kind) (ms : List Text) → Distinct (new_kinds u seen ms)
unfolding new_kinds Distinct
new_kinds-Distinct u seen [] = tt
new_kinds-Distinct u seen (m ∷ ms) = elim (Bool-cases (any (kind_eq (amr_kind u m)) seen)) [
  | inl e ↦ subst Distinct (sym (skips u seen m ms e)) (new_kinds-Distinct u seen ms)
  | inr e ↦ subst Distinct (sym (adds u seen m ms e)) (
    ground (
      arith,
      any-new_kinds u (amr_kind u m) (amr_kind u m ∷ seen) ms,
      kind_eq_iff (amr_kind u m) (amr_kind u m),
    ),
    new_kinds-Distinct u (amr_kind u m ∷ seen) ms,
  )
]

-- A token whose issuer names methods stands for exactly the kinds of these, each once, however many
-- methods have the same kind.
token_kinds-Distinct :
    (u : Casing) (m : Text) (ms : List Text)
    → Distinct (token_kinds u (some (m ∷ ms)))
      × ((k : Kind)
          → any (kind_eq k) (token_kinds u (some (m ∷ ms)))
            ≡ any (λ n. kind_eq k (amr_kind u n)) (m ∷ ms))
unfolding token_kinds
token_kinds-Distinct u m ms =
    (new_kinds-Distinct u [] (m ∷ ms), λ k. any-new_kinds u k [] (m ∷ ms) ∙ ground arith)
