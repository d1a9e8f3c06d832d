-- ===== src/Entries/Published.antt =====
-- entries.go, `placedAndValidated`: what holds of an entry that is published.
use mathlib.Core.Path.{subst}
use authnd.Base.{
  drop, Map, pos, int_ltb, ◌≡◌, refl, sym, ◌∙◌, ◌⊎◌, inl, inr, true, false, Option, none, some,
  List, [], ◌∷◌, ◌++◌, arith,
}
use authnd.Schema.{Problem, Judgement, passes, broken, problems, Schema}
use authnd.Entries.{
  Reason, Tree, is_placed, Entry, validate, remembered, drops, kept, left_out, invalid_of,
  judged_as, after_drop, after_judgement, validated, placed, sized, entry_size, max_entry_bytes,
  placed_and_validated,
}

-- What is remembered of an entry is the schema's judgement of it.
unfoldable pub IsJudged : Schema → Entry → Type 0
IsJudged s e = (e.judged ≡ none) ⊎ (e.judged ≡ some (s.judge e.dn e.attributes))

-- What `validate` answers is the judgement of the entry as it is, which it changes in nothing else.
pub record IsAnswer (s : Schema) (e : Entry) (r : Entry × Judgement) : Type 0 where
  pub judged_now : r.1 ≡ s.judge r.0.dn r.0.attributes
  pub same_dn : r.0.dn ≡ e.dn
  pub same_attributes : r.0.attributes ≡ e.attributes
  pub same_given : r.0.given ≡ e.given

remembered-IsAnswer :
    (s : Schema) (e : Entry) (o : Option Judgement)
    → (o ≡ none) ⊎ (o ≡ some (s.judge e.dn e.attributes))
    → IsAnswer s e (remembered s e o)
unfolding remembered
remembered-IsAnswer s e none h = record {
  judged_now = refl;
  same_dn = refl;
  same_attributes = refl;
  same_given = refl;
}
remembered-IsAnswer s e (some j) (inl h) = absurd (ground (arith, h))
remembered-IsAnswer s e (some j) (inr h) = record {
  judged_now = ground (arith, h);
  same_dn = refl;
  same_attributes = refl;
  same_given = refl;
}

pub validate-IsAnswer : (s : Schema) (e : Entry) → IsJudged s e → IsAnswer s e (validate s e)
unfolding validate IsJudged
validate-IsAnswer s e h = remembered-IsAnswer s e e.judged h

judged_as-passes :
    (s : Schema) (e : Entry) (j : Judgement)
    → j ≡ s.judge e.dn e.attributes
    → (judged_as (e, j)).invalid ≡ none
    → s.judge (judged_as (e, j)).dn (judged_as (e, j)).attributes ≡ passes
unfolding judged_as invalid_of
judged_as-passes s e passes k h = sym k
judged_as-passes s e broken k h = absurd (ground (arith, h))
judged_as-passes s e (problems ps) k h = absurd (ground (arith, h))

after_drop-passes :
    (s : Schema) (e : Entry) (ps : List Problem) (drop : Map Reason)
    → (after_drop s (problems ps) e drop).invalid ≡ none
    → s.judge (after_drop s (problems ps) e drop).dn (after_drop s (problems ps) e drop).attributes
      ≡ passes
unfolding after_drop validate judged_as invalid_of
after_drop-passes s e ps [] h = absurd (ground (arith, h))
after_drop-passes s e ps (d ∷ drop) h =
    let e' : Entry = record e {
      attributes = kept (d ∷ drop) e.attributes;
      dropped = e.dropped ++ left_out (d ∷ drop) e.attributes;
      judged = some (s.judge e.dn (kept (d ∷ drop) e.attributes));
    } in
    judged_as-passes s e' (s.judge e'.dn e'.attributes) refl h

after_judgement-passes :
    (s : Schema) (e : Entry) (j : Judgement)
    → j ≡ s.judge e.dn e.attributes
    → (after_judgement s (e, j)).invalid ≡ none
    → s.judge (after_judgement s (e, j)).dn (after_judgement s (e, j)).attributes ≡ passes
unfolding after_judgement
after_judgement-passes s e passes k h = judged_as-passes s e passes k h
after_judgement-passes s e broken k h = judged_as-passes s e broken k h
after_judgement-passes s e (problems ps) k h = after_drop-passes s e ps (drops s e.given ps []) h

validated-passes :
    (s : Schema) (e : Entry)
    → IsJudged s e
    → (validated s e).invalid ≡ none
    → s.judge (validated s e).dn (validated s e).attributes ≡ passes
unfolding validated
validated-passes s e k h =
    after_judgement-passes s (validate s e).0 (validate s e).1 (validate-IsAnswer s e k).judged_now
      h

-- An entry that may be sent: the schema passes it as it is, a structure rule places it where there
-- are any, and it fits a message.
pub record IsPublishable (s : Schema) (tree : Option Tree) (e : Entry) : Type 0 where
  pub passed : s.judge e.dn e.attributes ≡ passes
  pub governed : is_placed s tree e ≡ true
  pub fits : int_ltb (max_entry_bytes s) (pos (entry_size e)) ≡ false

placed-governed :
    (s : Schema) (tree : Option Tree) (e : Entry)
    → (placed s tree e).invalid ≡ none
    → (placed s tree e ≡ e) × (e.invalid ≡ none) × (is_placed s tree e ≡ true)
unfolding placed
placed-governed s tree e h = ground (arith, h)

sized-fits :
    (s : Schema) (e : Entry)
    → (sized s e).invalid ≡ none
    → (sized s e ≡ e)
      × (e.invalid ≡ none)
      × (int_ltb (max_entry_bytes s) (pos (entry_size e)) ≡ false)
unfolding sized
sized-fits s e h = ground (arith, h)

-- An entry that is published passes the schema as it is sent, stands where a structure rule puts it,
-- and fits a message, also where attributes were dropped from it on the way.
pub placed_and_validated-IsPublishable :
    (s : Schema) (tree : Option Tree) (e : Entry)
    → IsJudged s e
    → (placed_and_validated s tree e).invalid ≡ none
    → IsPublishable s tree (placed_and_validated s tree e)
unfolding placed_and_validated
placed_and_validated-IsPublishable s tree e k h =
    let v = validated s e in
    let (same_sized, p, fits) = sized-fits s (placed s tree v) h in
    let (same_placed, q, governed) = placed-governed s tree v p in
    subst (IsPublishable s tree) (sym (same_sized ∙ same_placed)) (record {
      passed = validated-passes s e k q;
      governed = governed;
      fits = subst (λ x. int_ltb (max_entry_bytes s) (pos (entry_size x)) ≡ false) same_placed fits;
    })
