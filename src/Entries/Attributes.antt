-- ===== src/Entries/Attributes.antt =====
-- entries.go: the attributes of an entry, while it is held to the schema.
use authnd.Base.{
  Bool-cases, is_some, drop, All, Map, get, inl, inr, Option, none, some, List, [], ◌∷◌, ◌++◌,
  arith,
}
use authnd.Schema.{Attribute, Judgement, passes, broken, problems, Schema}
use authnd.Entries.{
  Reason, Entry, Tree, remembered, validate, kept, judged_as, after_drop, after_judgement,
  validated, placed, sized, drops, placed_and_validated,
}

module _ (R : Attribute → Type 0) where
  kept-All : (drop : Map Reason) (as_ : List Attribute) → All R as_ → All R (kept drop as_)
  unfolding kept
  kept-All drop [] h = tt
  kept-All drop (a ∷ as_) (h, hs) = elim (Bool-cases (is_some (get a.name drop))) [
    | inl e ↦ rw e (kept-All drop as_ hs)
    | inr e ↦ rw e (h, kept-All drop as_ hs)
  ]

  after_drop-All :
      (s : Schema) (j : Judgement) (e : Entry) (drop : Map Reason)
      → All R e.attributes
      → All R (after_drop s j e drop).attributes
  unfolding after_drop judged_as validate remembered
  after_drop-All s j e [] h = h
  after_drop-All s j e (d ∷ drop) h = kept-All (d ∷ drop) e.attributes h

  after_judgement-All :
      (s : Schema) (e : Entry) (j : Judgement)
      → All R e.attributes
      → All R (after_judgement s (e, j)).attributes
  unfolding after_judgement judged_as
  after_judgement-All s e passes h = h
  after_judgement-All s e broken h = h
  after_judgement-All s e (problems ps) h =
      after_drop-All s (problems ps) e (drops s e.given ps []) h

  remembered-All :
      (s : Schema) (e : Entry) (o : Option Judgement)
      → All R e.attributes
      → All R (remembered s e o).0.attributes
  unfolding remembered
  remembered-All s e none h = h
  remembered-All s e (some j) h = h

  pub validate-All :
      (s : Schema) (e : Entry) → All R e.attributes → All R (validate s e).0.attributes
  unfolding validate
  validate-All s e h = remembered-All s e e.judged h

  -- Holding an entry to the schema adds no attribute.
  pub placed_and_validated-All :
      (s : Schema) (tree : Option Tree) (e : Entry)
      → All R e.attributes
      → All R (placed_and_validated s tree e).attributes
  unfolding placed_and_validated validated placed sized
  placed_and_validated-All s tree e h =
      let v = validate s e in
      let w : All R (after_judgement s v).attributes =
        after_judgement-All s v.0 v.1 (validate-All s e h) in
      ground (arith, w)

  pub All-append : (xs ys : List Attribute) → All R xs → All R ys → All R (xs ++ ys)
  All-append [] ys p q = q
  All-append (x ∷ xs) ys (p, ps) q = (p, All-append xs ys ps q)
