-- ===== src/Declared/Unmet/Closed.antt =====
-- declared.go, `unmet`: a declared class and its superclasses.
use authnd.Base.{
  Bool-cases, is_some, All, Text, text_eq_iff, Casing, to_lower, text_eq, Map, ◌≡◌, refl, ◌∙◌, inl,
  inr, true, ◌&&◌, Option, none, some, List, [], ◌∷◌, arith,
}
use authnd.Schema.{Class, facts, Problem, Schema, Resolves, Inherits, any_above}
use authnd.Declared.Added.{has_key, key_of, skipped_by, skipped}
use authnd.Declared.Unmet.{
  Left, leave, leave_under, leave_below, missing_of, leave_missing_of, leave_missing, rule_for,
  leave_refused, rule_of, rules_of, left_by,
}
use authnd.Declared.Unmet.Above.{lacks, skipped_by-above, leave-keys, any_above_mono}
use authnd.Declared.Unmet.Going.{Belongs, belongs, in_first, goes, may_go, goes_with}
use authnd.Declared.Unmet.Steps.{
  missing-lacks, leave_under-keeps, leave_under-has, leave_below-keeps, leave_missing-keeps,
  leave_missing-has,
}

All-and :
    {A : Type 0} {P Q R : A → Type 0} (xs : List A)
    → ((a : A) → P a → Q a → R a)
    → All P xs
    → All Q xs
    → All R xs
All-and [] f p q = tt
All-and (x ∷ xs) f (p, ps) (q, qs) = (f x p q, All-and xs f ps qs)

module _ (u : Casing) (s : Schema) (ps : List Problem) (declared : List Class)
    (ignores_case : (n m : Text)
      → to_lower u n ≡ to_lower u m
      → s.object_class n ≡ s.object_class m)
    (first : List Text) where
  -- All that is left off is what was left off first, or a declared class that is to go.
  abbrev Bounded : Left → Type 0
  Bounded l = (k : Text) → has_key k l.skip ≡ true → may_go u s ps declared first k ≡ true

  leave-Bounded :
      (c : Class) (missing : List Text) (rule super : Text) (l : Left)
      → Belongs c declared
      → goes u s ps declared first c ≡ true
      → Bounded l
      → Bounded (leave u c missing rule super l)
  leave-Bounded c missing rule super l b g h k e = ground (
    arith,
    leave-keys u c missing rule super l k,
    h k,
    b (λ d. text_eq (key_of u d) k && goes u s ps declared first d),
    text_eq_iff k (key_of u c),
    text_eq_iff (key_of u c) k,
    g,
    e,
  )

  leave_under-Bounded :
      (rules : Map Text) (c : Class) (o : Option Class) (l : Left)
      → Belongs c declared
      → (is_some o ≡ true → goes u s ps declared first c ≡ true)
      → Bounded l
      → Bounded (leave_under u rules c o l)
  unfolding leave_under
  leave_under-Bounded rules c none l b g h = h
  leave_under-Bounded rules c (some d) l b g h =
      leave-Bounded c [] (rule_for u rules d) (facts d).name l b (g refl) h

  leave_missing_of-Bounded :
      (c : Class) (ms : List Text) (l : Left)
      → Belongs c declared
      → missing_of u s ps c ≡ ms
      → Bounded l
      → Bounded (leave_missing_of u c ms l)
  unfolding leave_missing_of lacks
  leave_missing_of-Bounded c [] l b e h = h
  leave_missing_of-Bounded c (m ∷ ms) l b e h =
      leave-Bounded c (m ∷ ms) [] [] l b (ground (arith, missing-lacks u s ps c ps m ms e)) h

  leave_missing-Bounded :
      (cs : List Class) (l : Left)
      → All (λ c. Belongs c declared) cs
      → Bounded l
      → Bounded (leave_missing u s ps cs l)
  unfolding leave_missing
  leave_missing-Bounded [] l bs h = h
  leave_missing-Bounded (c ∷ cs) l (b, bs) h =
      leave_missing-Bounded cs (leave_missing_of u c (missing_of u s ps c) l) bs
        (leave_missing_of-Bounded c (missing_of u s ps c) l b refl h)

  module _ (resolve : All (Resolves s) declared) (inherit : All Inherits declared) where
    leave_below-Bounded :
        (rules : Map Text) (cs : List Class) (l : Left)
        → All (λ c. Belongs c declared) cs
        → All (Resolves s) cs
        → All Inherits cs
        → Bounded l
        → Bounded (leave_below u rules cs l)
    unfolding leave_below
    leave_below-Bounded rules [] l bs rs is h = h
    leave_below-Bounded rules (c ∷ cs) l (b, bs) (r, rs) (i, is) h =
        let o = skipped_by u l.skip c in
        leave_below-Bounded rules cs (leave_under u rules c o l) bs rs is (
          leave_under-Bounded rules c o l b
            (goes_with u s ps declared first ignores_case resolve inherit l.skip c h r i) h)

  -- What is below a class that was left off first goes.
  leave_below-has :
      (rules : Map Text) (cs : List Class) (l : Left)
      → All (Resolves s) cs
      → ((k : Text) → has_key k first ≡ true → has_key k l.skip ≡ true)
      → All
          (λ (c : Class).
            any_above (in_first u s ps declared first) c ≡ true
            → has_key (key_of u c) (leave_below u rules cs l).skip ≡ true)
          cs
  unfolding leave_below
  leave_below-has rules [] l rs h = tt
  leave_below-has rules (c ∷ cs) l (r, rs) h =
      let o = skipped_by u l.skip c in
      let l' = leave_under u rules c o l in
      (
        (λ a. leave_below-keeps u s ps rules cs l' (key_of u c) (
            leave_under-has u s ps rules c o l (
              skipped_by-above u l.skip c
              ∙ any_above_mono s (in_first u s ps declared first) (λ d. has_key (key_of u d) l.skip)
                  c (λ d q. h (key_of u d)) r a))),
        leave_below-has rules cs l' rs (λ k e. leave_under-keeps u s ps rules c o l k (h k e)),
      )

module _ (u : Casing) where
  -- A declared class that is not to be added, for itself or for a superclass, is left off itself.
  pub left_by-closed :
      (s : Schema) (shape : List Text) (cs : List Class) (ps : List Problem)
      → ((n m : Text) → to_lower u n ≡ to_lower u m → s.object_class n ≡ s.object_class m)
      → All (Resolves s) cs
      → All Inherits cs
      → All
          (λ (c : Class).
            skipped u (left_by u s shape cs ps).skip c ≡ true
            → has_key (key_of u c) (left_by u s shape cs ps).skip ≡ true)
          cs
  unfolding left_by skipped
  left_by-closed s shape cs ps ignores_case resolve inherit =
      let refused = leave_refused u s (rule_of s shape) ps (record { off = []; skip = [] }) in
      let rules = rules_of u refused.off [] in
      let below = leave_below u rules cs refused in
      let end = leave_missing u s ps cs below in
      let bounded : (k : Text)
          → has_key k end.skip ≡ true
          → may_go u s ps cs refused.skip k ≡ true =
        leave_missing-Bounded u s ps cs ignores_case refused.skip cs below (belongs cs) (
          leave_below-Bounded u s ps cs ignores_case refused.skip resolve inherit rules cs refused
            (belongs cs) resolve inherit (λ k h. ground (arith, h))) in
      let above =
        leave_below-has u s ps cs ignores_case refused.skip rules cs refused resolve (λ k h. h) in
      let has = leave_missing-has u s ps cs below in
      let settle : (c : Class)
          → (any_above (in_first u s ps cs refused.skip) c ≡ true
              → has_key (key_of u c) below.skip ≡ true)
            × (lacks u s ps c ≡ true → has_key (key_of u c) end.skip ≡ true)
          → Resolves s c × Inherits c
          → skipped u end.skip c ≡ true
          → has_key (key_of u c) end.skip ≡ true =
        λ c (up, lacking) (r, i) h. elim (Bool-cases (has_key (key_of u c) end.skip)) [
          | inl e ↦ e
          | inr e ↦
              let g : goes u s ps cs refused.skip c ≡ true =
                goes_with u s ps cs refused.skip ignores_case resolve inherit end.skip c bounded r i
                  (ground (arith, h, e)) in
              elim (Bool-cases (lacks u s ps c)) [
                | inl l ↦ lacking l
                | inr l ↦
                    leave_missing-keeps u s ps cs below (key_of u c) (up (ground (arith, g, l)))
              ]
        ] in
      All-and cs settle (All-and cs (λ c p q. (p, q)) above has)
        (All-and cs (λ c p q. (p, q)) resolve inherit)
