-- ===== src/Entries/Dropped.antt =====
-- entries.go, `validated`: what is dropped from an entry.
use authnd.Base.{
  Bool-cases, Option-cases, is_some, drop, any, keep, Text, text_eq_iff, text_eq, Map, get-put, get,
  put, ◌≡◌, refl, ap, ◌∙◌, inl, inr, Bool, true, false, ◌&&◌, Option, none, List, [], ◌∷◌, arith,
}
use authnd.Declared.Added.{has_key}
use authnd.Schema.{
  not_allowed, unknown_attribute, precluded, auxiliary_not_allowed, missing_required, other_problem,
  Attribute, Problem, Judgement, passes, broken, problems, Schema,
}
use authnd.Entries.{
  Reason, Tree, Entry, validate, remembered, drop_of, drops, add_drop, kept, judged_as, after_drop,
  after_judgement, validated, placed, sized, placed_and_validated,
}
use authnd.Entries.Published.{IsJudged, validate-IsAnswer}

-- What a problem lets be dropped: an attribute that a source gave, where no class allows it or the
-- schema does not know it, and one that a content rule precludes.
unfoldable pub lets_drop : List Text → Problem → Bool
lets_drop given p = elim p.kind [
  | not_allowed ↦ has_key p.attribute given
  | unknown_attribute ↦ has_key p.attribute given
  | precluded ↦ true
  | auxiliary_not_allowed ↦ false
  | missing_required ↦ false
  | other_problem ↦ false
]

-- Whether Validate's answer lets an attribute of this name be dropped.
unfoldable pub may_drop : List Text → Text → Judgement → Bool
may_drop given n (problems ps) =
    any (λ (p : Problem). text_eq p.attribute n && lets_drop given p) ps
may_drop given n _ = false

drop_of-lets :
    (s : Schema) (given : List Text) (p : Problem) → is_some (drop_of s given p) ≡ lets_drop given p
unfolding drop_of lets_drop
drop_of-lets s given p = ground arith

abbrev pub values_of : Text → List Attribute → List Attribute
values_of n as_ = keep (λ (a : Attribute). text_eq a.name n) as_

kept-values :
    (drop : Map Reason) (n : Text) (as_ : List Attribute)
    → get n drop ≡ none
    → values_of n (kept drop as_) ≡ values_of n as_
unfolding kept
kept-values drop n [] h = refl
kept-values drop n (a ∷ as_) h = elim (Bool-cases (text_eq a.name n)) [
  | inl e ↦
      ground
        (arith, kept-values drop n as_ h, ap (λ x. get x drop) ((text_eq_iff a.name n).0 e), h, e)
  | inr e ↦ ground (arith, kept-values drop n as_ h, e)
]

drops-get :
    (s : Schema) (given : List Text) (n : Text) (ps : List Problem) (m : Map Reason)
    → any (λ (p : Problem). text_eq p.attribute n && lets_drop given p) ps ≡ false
    → get n m ≡ none
    → get n (drops s given ps m) ≡ none
unfolding drops add_drop
drops-get s given n [] m h k = k
drops-get s given n (p ∷ ps) m h k = elim (Option-cases (drop_of s given p)) [
  | inl e ↦ rw e (drops-get s given n ps m (ground (arith, h, e, drop_of-lets s given p)) k)
  | inr (r, e) ↦ rw e (
      drops-get s given n ps (put p.attribute r m) (ground (arith, h, e, drop_of-lets s given p))
        (ground (arith, get-put p.attribute n r m, h, e, k, drop_of-lets s given p)))
]

judged_as-attributes : (e : Entry) (j : Judgement) → (judged_as (e, j)).attributes ≡ e.attributes
unfolding judged_as
judged_as-attributes e j = refl

after_drop-values :
    (s : Schema) (j : Judgement) (e : Entry) (drop : Map Reason) (n : Text)
    → get n drop ≡ none
    → values_of n (after_drop s j e drop).attributes ≡ values_of n e.attributes
unfolding after_drop judged_as validate remembered
after_drop-values s j e [] n h = refl
after_drop-values s j e (d ∷ drop) n h = kept-values (d ∷ drop) n e.attributes h

abbrev no_drops : Map Reason
no_drops = []

nothing_dropped : (n : Text) → get n no_drops ≡ none
unfolding get
nothing_dropped n = refl

after_judgement-values :
    (s : Schema) (e : Entry) (j : Judgement) (n : Text)
    → may_drop e.given n j ≡ false
    → values_of n (after_judgement s (e, j)).attributes ≡ values_of n e.attributes
unfolding after_judgement may_drop judged_as
after_judgement-values s e passes n h = refl
after_judgement-values s e broken n h = refl
after_judgement-values s e (problems ps) n h =
    after_drop-values s (problems ps) e (drops s e.given ps []) n
      (drops-get s e.given n ps [] h (nothing_dropped n))

validated-values :
    (s : Schema) (e : Entry) (n : Text)
    → IsJudged s e
    → may_drop e.given n (s.judge e.dn e.attributes) ≡ false
    → values_of n (validated s e).attributes ≡ values_of n e.attributes
unfolding validated
validated-values s e n k h =
    let a = validate-IsAnswer s e k in
    let r = validate s e in
    let j : r.1 ≡ s.judge e.dn e.attributes =
      a.judged_now
      ∙ (ap (λ d. s.judge d r.0.attributes) a.same_dn ∙ ap (s.judge e.dn) a.same_attributes) in
    let given : may_drop r.0.given n r.1 ≡ false =
      ap (λ g. may_drop g n r.1) a.same_given ∙ (ap (may_drop e.given n) j ∙ h) in
    after_judgement-values s r.0 r.1 n given ∙ ap (values_of n) a.same_attributes

placed-attributes :
    (s : Schema) (tree : Option Tree) (e : Entry) → (placed s tree e).attributes ≡ e.attributes
unfolding placed
placed-attributes s tree e = ground arith

sized-attributes : (s : Schema) (e : Entry) → (sized s e).attributes ≡ e.attributes
unfolding sized
sized-attributes s e = ground arith

-- An attribute of a name that no problem lets drop keeps all its values: only one that a source
-- gave, and that no class allows or the schema does not know, or one that a content rule precludes,
-- is ever left out of an entry. What is remembered of the entry has to be Validate's answer to it.
pub placed_and_validated-values :
    (s : Schema) (tree : Option Tree) (e : Entry) (n : Text)
    → IsJudged s e
    → may_drop e.given n (s.judge e.dn e.attributes) ≡ false
    → values_of n (placed_and_validated s tree e).attributes ≡ values_of n e.attributes
unfolding placed_and_validated
placed_and_validated-values s tree e n k h =
    ap (values_of n) (
      sized-attributes s (placed s tree (validated s e)) ∙ placed-attributes s tree (validated s e))
    ∙ validated-values s e n k h
