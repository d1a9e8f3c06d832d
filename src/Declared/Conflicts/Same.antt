-- ===== src/Declared/Conflicts/Same.antt =====
-- declared.go, `sameClasses`: how two lists of classes are compared.
use mathlib.Core.Path.{subst}
use authnd.Base.{
  Text, text_eq_refl, text_eq_iff, Casing, to_lower, ◌≡◌, refl, ◌↔◌, true, List, [], ◌∷◌, map,
  arith,
}
use authnd.Groups.{sort}
use authnd.Groups.Unique.{count, sort-eq_iff}
use authnd.Declared.Conflicts.{lists_eq, norm, same_classes}

lists_eq_refl : (l : List Text) → lists_eq l l ≡ true
unfolding lists_eq
lists_eq_refl [] = refl
lists_eq_refl (x ∷ l) = ground (arith, text_eq_refl x, lists_eq_refl l)

eq_of_lists_eq : (l m : List Text) → lists_eq l m ≡ true → l ≡ m
unfolding lists_eq
eq_of_lists_eq [] [] h = refl
eq_of_lists_eq [] (y ∷ m) h = cc
eq_of_lists_eq (x ∷ l) [] h = cc
eq_of_lists_eq (x ∷ l) (y ∷ m) h = ground (arith, text_eq_iff x y, eq_of_lists_eq l m, h)

lists_eq_iff : (a b : List Text) → (lists_eq a b ≡ true) ↔ (a ≡ b)
lists_eq_iff a b = (eq_of_lists_eq a b, λ e. subst (λ x. lists_eq a x ≡ true) e (lists_eq_refl a))

-- Two lists of classes are taken to be the same exactly where each name, ignoring its case, stands in
-- both as often: in any order, but not when one of them repeats a name.
same_classes_iff :
    (u : Casing) (a b : List Text)
    → (same_classes u a b ≡ true)
      ↔ ((k : Text) → count k (map (to_lower u) a) ≡ count k (map (to_lower u) b))
unfolding same_classes norm
same_classes_iff u a b =
    let (eq, same) = lists_eq_iff (sort (map (to_lower u) a)) (sort (map (to_lower u) b)) in
    let (counts, sorted) = sort-eq_iff (map (to_lower u) a) (map (to_lower u) b) in
    (λ h. counts (eq h), λ c. same (sorted c))
