-- ===== src/Groups/Order.antt =====
-- groups.go: sorting and compacting a list of names.
use authnd.Base.{
  Bool-cases, any, Text, text_eq_iff, text_eq, ◌≡◌, refl, ap, ◌∙◌, inl, inr, Bool, true, false,
  ◌||◌, List, [], ◌∷◌, arith,
}
use authnd.Groups.{text_lt, insert, sort, compact_from, compact}

pub text_lt_asymm : (s t : Text) → text_lt s t ≡ true → text_lt t s ≡ false
unfolding text_lt
text_lt_asymm [] [] h = cc
text_lt_asymm [] (b ∷ t) h = refl
text_lt_asymm (a ∷ s) [] h = cc
text_lt_asymm (a ∷ s) (b ∷ t) h = ground (arith, text_lt_asymm s t)

pub text_lt_total : (s t : Text) → text_lt t s ≡ false → text_eq s t ≡ false → text_lt s t ≡ true
unfolding text_lt text_eq
text_lt_total [] [] h k = cc
text_lt_total [] (b ∷ t) h k = refl
text_lt_total (a ∷ s) [] h k = cc
text_lt_total (a ∷ s) (b ∷ t) h k = ground (arith, text_lt_total s t)

-- No name is below the one before it.
unfoldable pub NonDescendingFrom : Text → List Text → Type 0
NonDescendingFrom a [] = Unit
NonDescendingFrom a (b ∷ l) = (text_lt b a ≡ false) × NonDescendingFrom b l

unfoldable pub NonDescending : List Text → Type 0
unfolding NonDescendingFrom
NonDescending [] = Unit
NonDescending (a ∷ l) = NonDescendingFrom a l

-- Each name is above the one before it, so none stands there twice.
AscendingFrom : Text → List Text → Type 0
AscendingFrom a [] = Unit
AscendingFrom a (b ∷ l) = (text_lt a b ≡ true) × AscendingFrom b l

pub Ascending : List Text → Type 0
unfolding AscendingFrom
Ascending [] = Unit
Ascending (a ∷ l) = AscendingFrom a l

insert-NonDescendingFrom :
    (a x : Text) (l : List Text)
    → text_lt x a ≡ false
    → NonDescendingFrom a l
    → NonDescendingFrom a (insert x l)
unfolding insert NonDescendingFrom
insert-NonDescendingFrom a x [] h k = (h, tt)
insert-NonDescendingFrom a x (b ∷ l) h (above, k) = elim (Bool-cases (text_lt b x)) [
  | inl e ↦ rw e (above, insert-NonDescendingFrom b x l (text_lt_asymm b x e) k)
  | inr e ↦ rw e (h, (e, k))
]

insert-NonDescending : (x : Text) (l : List Text) → NonDescending l → NonDescending (insert x l)
unfolding insert NonDescending
insert-NonDescending x [] k = tt
insert-NonDescending x (b ∷ l) k = elim (Bool-cases (text_lt b x)) [
  | inl e ↦ rw e (insert-NonDescendingFrom b x l (text_lt_asymm b x e) k)
  | inr e ↦ rw e (e, k)
]

pub sort-NonDescending : (l : List Text) → NonDescending (sort l)
unfolding sort NonDescending
sort-NonDescending [] = tt
sort-NonDescending (x ∷ l) = insert-NonDescending x (sort l) (sort-NonDescending l)

NonDescendingFrom-eq :
    (a b : Text) (l : List Text)
    → text_eq a b ≡ true
    → NonDescendingFrom b l
    → NonDescendingFrom a l
unfolding NonDescendingFrom
NonDescendingFrom-eq a b l e k = rw ((text_eq_iff a b).0 e) k

compact_from-AscendingFrom :
    (a : Text) (l : List Text) → NonDescendingFrom a l → AscendingFrom a (compact_from a l)
unfolding compact_from NonDescendingFrom AscendingFrom
compact_from-AscendingFrom a [] k = tt
compact_from-AscendingFrom a (b ∷ l) (above, k) = elim (Bool-cases (text_eq a b)) [
  | inl e ↦ rw e (compact_from-AscendingFrom a l (NonDescendingFrom-eq a b l e k))
  | inr e ↦ rw e (text_lt_total a b above e, compact_from-AscendingFrom b l k)
]

compact-Ascending : (l : List Text) → NonDescending l → Ascending (compact l)
unfolding compact NonDescending Ascending
compact-Ascending [] k = tt
compact-Ascending (a ∷ l) k = compact_from-AscendingFrom a l k

pub compact-sort-Ascending : (l : List Text) → Ascending (compact (sort l))
compact-sort-Ascending l = compact-Ascending (sort l) (sort-NonDescending l)

any-insert : (p : Text → Bool) (x : Text) (l : List Text) → any p (insert x l) ≡ (p x || any p l)
unfolding insert
any-insert p x [] = refl
any-insert p x (b ∷ l) = ground (arith, any-insert p x l)

any-sort : (p : Text → Bool) (l : List Text) → any p (sort l) ≡ any p l
unfolding sort
any-sort p [] = refl
any-sort p (x ∷ l) = any-insert p x (sort l) ∙ ground (arith, any-sort p l)

any-compact_from :
    (p : Text → Bool) (a : Text) (l : List Text)
    → (p a || any p (compact_from a l)) ≡ (p a || any p l)
unfolding compact_from
any-compact_from p a [] = refl
any-compact_from p a (b ∷ l) = elim (Bool-cases (text_eq a b)) [
  | inl e ↦ rw e (ground (arith, ap p ((text_eq_iff a b).0 e), any-compact_from p a l))
  | inr e ↦ rw e (ground (arith, any-compact_from p b l))
]

any-compact : (p : Text → Bool) (l : List Text) → any p (compact l) ≡ any p l
unfolding compact
any-compact p [] = refl
any-compact p (a ∷ l) = any-compact_from p a l

-- Sorting and compacting keeps exactly the names that were there.
pub any-compact-sort : (p : Text → Bool) (l : List Text) → any p (compact (sort l)) ≡ any p l
any-compact-sort p l = any-compact p (sort l) ∙ any-sort p l
