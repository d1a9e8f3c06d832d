-- ===== src/Entries/Says.antt =====
-- entries.go: what an entry says of its classes, while it is held to the schema.
use authnd.Base.{drop, Map, ◌≡◌, refl, ◌∙◌, Option, none, some, [], ◌∷◌, arith}
use authnd.Schema.{Judgement, passes, broken, problems, Schema}
use authnd.Entries.{
  Reason, Tree, Entry, remembered, validate, judged_as, after_drop, after_judgement, validated,
  placed, sized, drops, placed_and_validated,
}

-- Two entries carry the same declared classes, and leave the same off.
pub record SaysAs (e e' : Entry) : Type 0 where
  pub declared : e'.declared ≡ e.declared
  pub left_off : e'.left_off ≡ e.left_off
  pub shape : e'.shape ≡ e.shape
  pub dn : e'.dn ≡ e.dn

SaysAs-trans : (a b c : Entry) → SaysAs a b → SaysAs b c → SaysAs a c
SaysAs-trans a b c p q = record {
  declared = q.declared ∙ p.declared;
  left_off = q.left_off ∙ p.left_off;
  shape = q.shape ∙ p.shape;
  dn = q.dn ∙ p.dn;
}

SaysAs-refl : (e : Entry) → SaysAs e e
SaysAs-refl e = record { declared = refl; left_off = refl; shape = refl; dn = refl }

remembered-SaysAs : (s : Schema) (e : Entry) (o : Option Judgement) → SaysAs e (remembered s e o).0
unfolding remembered
remembered-SaysAs s e none = record { declared = refl; left_off = refl; shape = refl; dn = refl }
remembered-SaysAs s e (some j) = SaysAs-refl e

pub validate-SaysAs : (s : Schema) (e : Entry) → SaysAs e (validate s e).0
unfolding validate
validate-SaysAs s e = remembered-SaysAs s e e.judged

judged_as-SaysAs : (e : Entry) (j : Judgement) → SaysAs e (judged_as (e, j))
unfolding judged_as
judged_as-SaysAs e j = record { declared = refl; left_off = refl; shape = refl; dn = refl }

after_drop-SaysAs :
    (s : Schema) (j : Judgement) (e : Entry) (drop : Map Reason) → SaysAs e (after_drop s j e drop)
unfolding after_drop judged_as validate remembered
after_drop-SaysAs s j e [] = record { declared = refl; left_off = refl; shape = refl; dn = refl }
after_drop-SaysAs s j e (d ∷ drop) = record {
  declared = refl;
  left_off = refl;
  shape = refl;
  dn = refl;
}

after_judgement-SaysAs :
    (s : Schema) (e : Entry) (j : Judgement) → SaysAs e (after_judgement s (e, j))
unfolding after_judgement
after_judgement-SaysAs s e passes = judged_as-SaysAs e passes
after_judgement-SaysAs s e broken = judged_as-SaysAs e broken
after_judgement-SaysAs s e (problems ps) =
    after_drop-SaysAs s (problems ps) e (drops s e.given ps [])

placed-SaysAs : (s : Schema) (tree : Option Tree) (e : Entry) → SaysAs e (placed s tree e)
unfolding placed
placed-SaysAs s tree e = ground arith

sized-SaysAs : (s : Schema) (e : Entry) → SaysAs e (sized s e)
unfolding sized
sized-SaysAs s e = ground arith

pub placed_and_validated-SaysAs :
    (s : Schema) (tree : Option Tree) (e : Entry) → SaysAs e (placed_and_validated s tree e)
unfolding placed_and_validated validated
placed_and_validated-SaysAs s tree e =
    let v = validated s e in
    let p = placed s tree v in
    SaysAs-trans e v (sized s p)
      (SaysAs-trans e (validate s e).0 v (validate-SaysAs s e)
        (after_judgement-SaysAs s (validate s e).0 (validate s e).1))
      (SaysAs-trans v p (sized s p) (placed-SaysAs s tree v) (sized-SaysAs s p))
