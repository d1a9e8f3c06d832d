-- ===== src/Groups/Unique.antt =====
-- Sorted lists of names, and how often each name stands in them.
use authnd.Base.{
  if◌then◌else◌, Bool-cases, Text, text_eq_refl, text_eq_iff, text_eq, ℕ, ◌+◌, ◌<◌, ◌≡◌, refl, sym,
  ap, ◌∙◌, ◌↔◌, inl, inr, false, List, [], ◌∷◌, arith,
}
use authnd.Groups.{text_lt, insert, sort}
use authnd.Groups.Order.{text_lt_total, NonDescendingFrom, NonDescending, sort-NonDescending}

-- How often a name stands in a list.
abbrev pub count : Text → List Text → ℕ
count k [] = 0
count k (x ∷ xs) = (if text_eq k x then 1 else 0) + count k xs

count-insert : (k x : Text) (l : List Text) → count k (insert x l) ≡ count k (x ∷ l)
unfolding insert
count-insert k x [] = refl
count-insert k x (b ∷ l) = ground (arith, count-insert k x l)

pub count-sort : (k : Text) (l : List Text) → count k (sort l) ≡ count k l
unfolding sort
count-sort k [] = refl
count-sort k (x ∷ l) = ground (arith, count-insert k x (sort l), count-sort k l)

-- text_lt, negated, is an order.
not_lt_trans : (a b c : Text) → text_lt b a ≡ false → text_lt c b ≡ false → text_lt c a ≡ false
unfolding text_lt
not_lt_trans [] [] [] h k = refl
not_lt_trans [] [] (z ∷ c) h k = refl
not_lt_trans [] (y ∷ b) [] h k = refl
not_lt_trans [] (y ∷ b) (z ∷ c) h k = refl
not_lt_trans (x ∷ a) [] c h k = cc
not_lt_trans (x ∷ a) (y ∷ b) [] h k = cc
not_lt_trans (x ∷ a) (y ∷ b) (z ∷ c) h k = ground (arith, not_lt_trans a b c)

not_lt_antisym : (a b : Text) → text_lt a b ≡ false → text_lt b a ≡ false → a ≡ b
not_lt_antisym a b h k = ground (arith, text_lt_total a b, text_eq_iff a b)

text_lt_irrefl : (a : Text) → text_lt a a ≡ false
unfolding text_lt
text_lt_irrefl [] = refl
text_lt_irrefl (x ∷ a) = ground (arith, text_lt_irrefl a)

-- Nothing in a sorted list is below its first name.
first_least :
    (a k : Text) (l : List Text) → NonDescendingFrom a l → 0 < count k (a ∷ l) → text_lt k a ≡ false
unfolding NonDescendingFrom
first_least a k [] n h =
    ground (arith, text_eq_iff k a, text_lt_irrefl a, ap (λ x. text_lt x a) {x = k} {y = a})
first_least a k (b ∷ l) (above, n) h = elim (Bool-cases (text_eq k a)) [
  | inl e ↦ ap (λ x. text_lt x a) ((text_eq_iff k a).0 e) ∙ text_lt_irrefl a
  | inr e ↦ not_lt_trans a b k above (first_least b k l n (ground (arith, h, e)))
]

NonDescending-tail : (a : Text) (l : List Text) → NonDescendingFrom a l → NonDescending l
unfolding NonDescendingFrom NonDescending
NonDescending-tail a [] n = tt
NonDescending-tail a (b ∷ l) (_, n) = n

count-first : (a : Text) (l : List Text) → 0 < count a (a ∷ l)
count-first a l = ground (arith, text_eq_refl a)

sorted_unique :
    (l m : List Text)
    → NonDescending l
    → NonDescending m
    → ((k : Text) → count k l ≡ count k m)
    → l ≡ m
unfolding NonDescending
sorted_unique [] [] n o c = refl
sorted_unique [] (b ∷ m) n o c = absurd (omega (arith, count-first b m, c b))
sorted_unique (a ∷ l) [] n o c = absurd (omega (arith, count-first a l, c a))
sorted_unique (a ∷ l) (b ∷ m) n o c =
    let least_a = first_least a b l n (omega (arith, count-first b m, c b)) in
    let least_b = first_least b a m o (omega (arith, count-first a l, c a)) in
    let same : a ≡ b = not_lt_antisym a b least_b least_a in
    let tails =
      sorted_unique l m (NonDescending-tail a l n) (NonDescending-tail b m o)
        (λ k. let here = ap (text_eq k) same in ground (arith, c k, here)) in
    cc (same, tails)

-- Two lists are the same when they are sorted exactly where each name stands in both as often.
pub sort-eq_iff : (l m : List Text) → (sort l ≡ sort m) ↔ ((k : Text) → count k l ≡ count k m)
sort-eq_iff l m = (
  λ e k. sym (count-sort k l) ∙ (ap (count k) e ∙ count-sort k m),
  λ c.
      sorted_unique (sort l) (sort m) (sort-NonDescending l) (sort-NonDescending m)
        (λ k. count-sort k l ∙ (c k ∙ sym (count-sort k m))),
)
