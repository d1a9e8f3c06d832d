-- ===== src/Declared/Unmet/Said.antt =====
-- declared.go, `unmet`: the classes that are skipped, and those that are said to be left off.
use authnd.Base.{
  Bool-cases, any, Text, Casing, to_lower, text_eq, Map, ◌≡◌, refl, inl, inr, Option, none, some,
  List, [], ◌∷◌, arith,
}
use authnd.Schema.{
  Class, facts, Problem, not_allowed, unknown_attribute, precluded, auxiliary_not_allowed,
  missing_required, other_problem, Schema,
}
use authnd.Entries.{LeftOff}
use authnd.Declared.Added.{has_key, key_of, skipped_by}
use authnd.Declared.Added.Whole.{any-append}
use authnd.Declared.Unmet.{
  Left, leave, leave_named, leave_problem, leave_under, leave_below, missing_of, leave_missing_of,
  leave_missing, rule_for, leave_refused, rule_of, rules_of, left_by,
}

module _ (u : Casing) where
  -- What is said is what is skipped.
  unfoldable pub IsSaid : Left → Type 0
  IsSaid l =
      (k : Text) → has_key k l.skip ≡ any (λ (o : LeftOff). text_eq k (to_lower u o.class)) l.off

  leave-IsSaid :
      (c : Class) (missing : List Text) (rule super : Text) (l : Left)
      → IsSaid l
      → IsSaid (leave u c missing rule super l)
  unfolding leave IsSaid
  leave-IsSaid c missing rule super l h k = elim (Bool-cases (has_key (key_of u c) l.skip)) [
    | inl e ↦ rw e (h k)
    | inr e ↦
        let o : LeftOff = record {
          class = (facts c).name;
          missing = missing;
          rule = rule;
          super = super;
        } in
        rw e (
          ground (
            arith,
            any-append (text_eq k) l.skip (key_of u c ∷ []),
            any-append (λ (x : LeftOff). text_eq k (to_lower u x.class)) l.off (o ∷ []),
            h k,
          ))
  ]

  leave_problem-IsSaid :
      (s : Schema) (rule : Text) (p : Problem) (l : Left)
      → IsSaid l
      → IsSaid (leave_problem u s rule p l)
  unfolding leave_problem leave_named
  leave_problem-IsSaid s rule p l h =
      elim p.kind
        as (λ k. IsSaid (elim k [
          | auxiliary_not_allowed ↦ leave_named u (s.object_class p.class) rule l
          | not_allowed ↦ l
          | unknown_attribute ↦ l
          | precluded ↦ l
          | missing_required ↦ l
          | other_problem ↦ l
        ])) [
          | auxiliary_not_allowed ↦ named (s.object_class p.class)
          | not_allowed ↦ h
          | unknown_attribute ↦ h
          | precluded ↦ h
          | missing_required ↦ h
          | other_problem ↦ h
        ]
    where
      named : (o : Option Class) → IsSaid (leave_named u o rule l)
      named none = h
      named (some c) = leave-IsSaid c [] rule [] l h

  leave_refused-IsSaid :
      (s : Schema) (rule : Text) (ps : List Problem) (l : Left)
      → IsSaid l
      → IsSaid (leave_refused u s rule ps l)
  unfolding leave_refused
  leave_refused-IsSaid s rule [] l h = h
  leave_refused-IsSaid s rule (p ∷ ps) l h =
      leave_refused-IsSaid s rule ps (leave_problem u s rule p l)
        (leave_problem-IsSaid s rule p l h)

  leave_under-IsSaid :
      (rules : Map Text) (c : Class) (o : Option Class) (l : Left)
      → IsSaid l
      → IsSaid (leave_under u rules c o l)
  unfolding leave_under
  leave_under-IsSaid rules c none l h = h
  leave_under-IsSaid rules c (some d) l h =
      leave-IsSaid c [] (rule_for u rules d) (facts d).name l h

  leave_below-IsSaid :
      (rules : Map Text) (cs : List Class) (l : Left) → IsSaid l → IsSaid (leave_below u rules cs l)
  unfolding leave_below
  leave_below-IsSaid rules [] l h = h
  leave_below-IsSaid rules (c ∷ cs) l h =
      leave_below-IsSaid rules cs (leave_under u rules c (skipped_by u l.skip c) l)
        (leave_under-IsSaid rules c (skipped_by u l.skip c) l h)

  leave_missing_of-IsSaid :
      (c : Class) (ms : List Text) (l : Left) → IsSaid l → IsSaid (leave_missing_of u c ms l)
  unfolding leave_missing_of
  leave_missing_of-IsSaid c [] l h = h
  leave_missing_of-IsSaid c (m ∷ ms) l h = leave-IsSaid c (m ∷ ms) [] [] l h

  leave_missing-IsSaid :
      (s : Schema) (ps : List Problem) (cs : List Class) (l : Left)
      → IsSaid l
      → IsSaid (leave_missing u s ps cs l)
  unfolding leave_missing
  leave_missing-IsSaid s ps [] l h = h
  leave_missing-IsSaid s ps (c ∷ cs) l h =
      leave_missing-IsSaid s ps cs (leave_missing_of u c (missing_of u s ps c) l)
        (leave_missing_of-IsSaid c (missing_of u s ps c) l h)

  -- Each class that is skipped is said, and no other.
  pub left_by-IsSaid :
      (s : Schema) (shape : List Text) (cs : List Class) (ps : List Problem)
      → IsSaid (left_by u s shape cs ps)
  unfolding left_by IsSaid
  left_by-IsSaid s shape cs ps =
      let none_yet : Left = record { off = []; skip = [] } in
      let refused = leave_refused u s (rule_of s shape) ps none_yet in
      let rules = rules_of u refused.off [] in
      leave_missing-IsSaid s ps cs (leave_below u rules cs refused) (
        leave_below-IsSaid rules cs refused
          (leave_refused-IsSaid s (rule_of s shape) ps none_yet (λ k. refl)))
