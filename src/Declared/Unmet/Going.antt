-- ===== src/Declared/Unmet/Going.antt =====
-- declared.go, `unmet`: which declared classes are to go, and which are left off.
use mathlib.Core.Path.{subst}
use authnd.Base.{
  Bool-cases, is_some, any, All, Text, text_eq_iff, Casing, to_lower, text_eq, ◌≡◌, sym, ◌∙◌, inl,
  inr, Bool, true, ◌&&◌, ◌||◌, List, [], ◌∷◌, arith,
}
use authnd.Schema.{Class, class, Problem, Schema, Resolves, Inherits, any_above}
use authnd.Declared.Added.{has_key, key_of, skipped_by}
use authnd.Declared.Unmet.Above.{lacks, skipped_by-above, any_above_mono, is_left, any_above_left}

-- The class is one of these.
abbrev pub Belongs : Class → List Class → Type 0
Belongs c cs = (f : Class → Bool) → f c ≡ true → any f cs ≡ true

belong_more :
    (d : Class) (cs rest : List Class)
    → All (λ c. Belongs c cs) rest
    → All (λ c. Belongs c (d ∷ cs)) rest
belong_more d cs [] b = tt
belong_more d cs (c ∷ rest) (b, bs) = ((λ f h. ground (arith, b f h)), belong_more d cs rest bs)

pub belongs : (cs : List Class) → All (λ c. Belongs c cs) cs
belongs [] = tt
belongs (c ∷ cs) = ((λ f h. ground (arith, h)), belong_more c cs cs (belongs cs))

module _ (u : Casing) (s : Schema) (ps : List Problem) (declared : List Class)
    (first : List Text) where
  -- The keys that are in `first`, and the superclasses that are.
  abbrev pub in_first : Class → Bool
  in_first c = has_key (key_of u c) first

  -- A declared class that is to go: below one that the content rule refuses, or with a MUST missing.
  abbrev pub goes : Class → Bool
  goes c = any_above in_first c || lacks u s ps c

  -- The keys of what may be left off.
  abbrev pub may_go : Text → Bool
  may_go k = has_key k first || any (λ c. text_eq (key_of u c) k && goes c) declared

  module _
      (ignores_case : (n m : Text)
        → to_lower u n ≡ to_lower u m
        → s.object_class n ≡ s.object_class m)
      (resolve : All (Resolves s) declared) (inherit : All Inherits declared) where
    same_key : (c d : Class) → Resolves s c → Resolves s d → key_of u c ≡ key_of u d → c ≡ d
    unfolding Resolves
    same_key (class f fs) (class g gs) (r, _) (q, _) e = cc (r, q, ignores_case f.name g.name e)

    may_go_among :
        (d : Class) (cs : List Class)
        → Resolves s d
        → All (Resolves s) cs
        → any (λ c. text_eq (key_of u c) (key_of u d) && goes c) cs ≡ true
        → goes d ≡ true
    may_go_among d [] r rs h = cc
    may_go_among d (c ∷ cs) r (q, rs) h =
        elim (Bool-cases (text_eq (key_of u c) (key_of u d) && goes c)) [
          | inl e ↦
              let same : c ≡ d =
                same_key c d q r ((text_eq_iff (key_of u c) (key_of u d)).0 (ground arith)) in
              subst (λ x. goes x ≡ true) same (ground arith)
          | inr e ↦ may_go_among d cs r rs (ground (arith, h, e))
        ]

    -- A superclass that may go is refused, or below a refused one, or has a MUST missing.
    may_go_left :
        (d : Class) → Resolves s d → may_go (key_of u d) ≡ true → is_left u s ps in_first d ≡ true
    may_go_left d r h = ground (arith, may_go_among d declared r resolve, h)

    pub goes_with :
        (keys : List Text) (c : Class)
        → ((k : Text) → has_key k keys ≡ true → may_go k ≡ true)
        → Resolves s c
        → Inherits c
        → is_some (skipped_by u keys c) ≡ true
        → goes c ≡ true
    goes_with keys c h r i e =
        let above : any_above (λ d. has_key (key_of u d) keys) c ≡ true =
          sym (skipped_by-above u keys c) ∙ e in
        any_above_left u s ps in_first c i (
          any_above_mono s (λ d. has_key (key_of u d) keys) (is_left u s ps in_first) c
            (λ d q k. may_go_left d q (h (key_of u d) k)) r above)
