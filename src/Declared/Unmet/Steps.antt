-- ===== src/Declared/Unmet/Steps.antt =====
-- declared.go, `unmet`, step by step.
use authnd.Base.{
  is_some, any, All, Text, text_eq_refl, Casing, Map, ◌≡◌, refl, ◌≢◌, true, Option, none, some,
  List, [], ◌∷◌, arith,
}
use authnd.Schema.{Class, facts, Problem, Schema}
use authnd.Declared.Added.{has_key, key_of, skipped_by}
use authnd.Declared.Unmet.{
  Left, leave, leave_under, leave_below, is_missing, missing_of, leave_missing_of, leave_missing,
  rule_for,
}
use authnd.Declared.Unmet.Above.{lacks, leave-keys}

module _ (u : Casing) (s : Schema) (ps : List Problem) where
  pub missing-lacks :
      (c : Class) (qs : List Problem) (m : Text) (ms : List Text)
      → missing_of u s qs c ≡ m ∷ ms
      → any (is_missing u s c) qs ≡ true
  unfolding missing_of
  missing-lacks c [] m ms h = cc
  missing-lacks c (q ∷ qs) m ms h = ground (arith, h, missing-lacks c qs m ms)

  lacks-missing :
      (c : Class) (qs : List Problem) → any (is_missing u s c) qs ≡ true → missing_of u s qs c ≢ []
  unfolding missing_of
  lacks-missing c [] h e = cc
  lacks-missing c (q ∷ qs) h e = ground (arith, h, e, lacks-missing c qs)

  leave-keeps :
      (c : Class) (missing : List Text) (rule super : Text) (l : Left) (k : Text)
      → has_key k l.skip ≡ true
      → has_key k (leave u c missing rule super l).skip ≡ true
  leave-keeps c missing rule super l k h = ground (arith, leave-keys u c missing rule super l k, h)

  leave-has :
      (c : Class) (missing : List Text) (rule super : Text) (l : Left)
      → has_key (key_of u c) (leave u c missing rule super l).skip ≡ true
  leave-has c missing rule super l =
      ground (arith, leave-keys u c missing rule super l (key_of u c), text_eq_refl (key_of u c))

  pub leave_under-keeps :
      (rules : Map Text) (c : Class) (o : Option Class) (l : Left) (k : Text)
      → has_key k l.skip ≡ true
      → has_key k (leave_under u rules c o l).skip ≡ true
  unfolding leave_under
  leave_under-keeps rules c none l k h = h
  leave_under-keeps rules c (some d) l k h =
      leave-keeps c [] (rule_for u rules d) (facts d).name l k h

  pub leave_under-has :
      (rules : Map Text) (c : Class) (o : Option Class) (l : Left)
      → is_some o ≡ true
      → has_key (key_of u c) (leave_under u rules c o l).skip ≡ true
  unfolding leave_under
  leave_under-has rules c none l h = cc
  leave_under-has rules c (some d) l h = leave-has c [] (rule_for u rules d) (facts d).name l

  pub leave_below-keeps :
      (rules : Map Text) (cs : List Class) (l : Left) (k : Text)
      → has_key k l.skip ≡ true
      → has_key k (leave_below u rules cs l).skip ≡ true
  unfolding leave_below
  leave_below-keeps rules [] l k h = h
  leave_below-keeps rules (c ∷ cs) l k h =
      let o = skipped_by u l.skip c in
      leave_below-keeps rules cs (leave_under u rules c o l) k (leave_under-keeps rules c o l k h)

  leave_missing_of-keeps :
      (c : Class) (ms : List Text) (l : Left) (k : Text)
      → has_key k l.skip ≡ true
      → has_key k (leave_missing_of u c ms l).skip ≡ true
  unfolding leave_missing_of
  leave_missing_of-keeps c [] l k h = h
  leave_missing_of-keeps c (m ∷ ms) l k h = leave-keeps c (m ∷ ms) [] [] l k h

  leave_missing_of-has :
      (c : Class) (ms : List Text) (l : Left)
      → ms ≢ []
      → has_key (key_of u c) (leave_missing_of u c ms l).skip ≡ true
  unfolding leave_missing_of
  leave_missing_of-has c [] l h = absurd (h refl)
  leave_missing_of-has c (m ∷ ms) l h = leave-has c (m ∷ ms) [] [] l

  pub leave_missing-keeps :
      (cs : List Class) (l : Left) (k : Text)
      → has_key k l.skip ≡ true
      → has_key k (leave_missing u s ps cs l).skip ≡ true
  unfolding leave_missing
  leave_missing-keeps [] l k h = h
  leave_missing-keeps (c ∷ cs) l k h =
      leave_missing-keeps cs (leave_missing_of u c (missing_of u s ps c) l) k
        (leave_missing_of-keeps c (missing_of u s ps c) l k h)

  -- What lacks a MUST goes.
  pub leave_missing-has :
      (cs : List Class) (l : Left)
      → All
          (λ (c : Class).
            lacks u s ps c ≡ true → has_key (key_of u c) (leave_missing u s ps cs l).skip ≡ true)
          cs
  unfolding leave_missing lacks
  leave_missing-has [] l = tt
  leave_missing-has (c ∷ cs) l =
      let l' = leave_missing_of u c (missing_of u s ps c) l in
      (
        (λ h.
            leave_missing-keeps cs l' (key_of u c)
              (leave_missing_of-has c (missing_of u s ps c) l (lacks-missing c ps h))),
        leave_missing-has cs l',
      )
