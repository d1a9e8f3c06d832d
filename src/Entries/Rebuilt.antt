-- ===== src/Entries/Rebuilt.antt =====
-- entries.go: an entry that is built again without what is left off.
use mathlib.Core.Path.{subst}
use authnd.Base.{
  any, All, Text, Casing, to_lower, text_eq, Map, get, ◌≡◌, refl, sym, ap, ◌∙◌, true, Option, none,
  some, List, [], ◌∷◌, arith,
}
use authnd.Schema.{Class, facts, Judgement, passes, broken, problems, Problem, Schema}
use authnd.Roster.{Fold}
use authnd.Server.{Site}
use authnd.Entries.{LeftOff, Entry, Tree, validate, placed_and_validated}
use authnd.Entries.Publication.{rebuilt, rebuilt_without, with_left, held}
use authnd.Entries.Says.{SaysAs, validate-SaysAs, placed_and_validated-SaysAs}
use authnd.Entries.Known.{
  IsLawful, IsKnown, add_declared-IsKnown, classes_of-known, known-All, get-IsLawful, lawful-found,
}
use authnd.Entries.Told.{
  All-map, is_told, is_told-SaysAs, not_skipped, IsBuilt, built-is_told, again-is_told,
}
use authnd.Declared.Added.{has_key, key_of, skipped, with_declared}
use authnd.Declared.Added.Complete.{with_declared-IsWhole}
use authnd.Declared.Unmet.{left_by, unmet, unmet_of}
use authnd.Declared.Unmet.Said.{IsSaid, left_by-IsSaid}
use authnd.Declared.Unmet.Closed.{left_by-closed}

module _ (u : Casing) (fold : Fold) (s : Schema) (table : Map Class) (site : Site)
    (lawful : All (λ (e : Text × Class). IsLawful s e.1) table) (names : List Text) where
  -- An entry that tells of every declared class.
  pub record Tells (o : Option Entry) : Type 0 where
    pub entry : Entry
    pub found : o ≡ some entry
    pub told :
        (n : Text) → has_key n names ≡ true → is_told u n (get (to_lower u n) table) entry ≡ true

  -- What `again` builds without the classes to skip.
  pub record Again (again : List Text → Option Entry) (skip : List Text) : Type 0 where
    pub entry : Entry
    pub found : again skip ≡ some entry
    pub built : IsBuilt u fold s table site skip names entry

  rebuilt_without-Tells :
      (again : List Text → Option Entry) (e : Entry) (off : List LeftOff) (skip : List Text)
      → Again again skip
      → IsBuilt u fold s table site [] names e
      → ((n : Text) (c : Class)
          → has_key n names ≡ true
          → get (to_lower u n) table ≡ some c
          → skipped u skip c ≡ true
          → any (λ (x : LeftOff). text_eq (key_of u c) (to_lower u x.class)) off ≡ true)
      → Tells (rebuilt_without again e off skip)
  unfolding rebuilt_without
  rebuilt_without-Tells again e [] skip a b k = record {
    entry = e;
    found = refl;
    told = λ n h.
        built-is_told u fold s table site lawful names n h [] (get (to_lower u n) table) e refl
          (λ c f. not_skipped u fold s table site c) b;
  }
  rebuilt_without-Tells again e (o ∷ os) skip a b k = record {
    entry = with_left (o ∷ os) a.entry;
    found = ground (arith, a.found);
    told = λ n h.
        again-is_told u fold s table site lawful names n h skip (get (to_lower u n) table) (o ∷ os)
          a.entry refl (λ c f. k n c h f) a.built;
  }

  -- The names that an entry carries are of lawful classes.
  built-IsKnown :
      (skip : List Text) (e : Entry)
      → IsBuilt u fold s table site skip names e
      → All (IsKnown s) e.declared
  unfolding with_declared
  built-IsKnown skip e b =
      subst (All (IsKnown s)) (sym b.declared)
        (add_declared-IsKnown u fold s skip table names (b.classes, []) lawful tt)

  IsBuilt-SaysAs :
      (skip : List Text) (e e' : Entry)
      → SaysAs e e'
      → IsBuilt u fold s table site skip names e
      → IsBuilt u fold s table site skip names e'
  IsBuilt-SaysAs skip e e' w b = record {
    classes = b.classes;
    declared = w.declared ∙ b.declared;
    left_off = w.left_off ∙ b.left_off;
  }

  -- A declared class that is not added again is said.
  left_by-said :
      (e : Entry) (shape : List Text) (ps : List Problem)
      → ((n m : Text) → to_lower u n ≡ to_lower u m → s.object_class n ≡ s.object_class m)
      → (b : IsBuilt u fold s table site [] names e) → (n : Text) (c : Class)
      → has_key n names ≡ true
      → get (to_lower u n) table ≡ some c
      → let cs = (classes_of-known s e.declared (built-IsKnown [] e b)).classes in
        skipped u (left_by u s shape cs ps).skip c ≡ true
        → any
            (λ (x : LeftOff). text_eq (key_of u c) (to_lower u x.class))
            (left_by u s shape cs ps).off
          ≡ true
  unfolding IsSaid
  left_by-said e shape ps ignores_case b n c h f k =
      let hc = classes_of-known s e.declared (built-IsKnown [] e b) in
      let w =
        with_declared-IsWhole u fold s table [] (All-map table (λ x p. p.0) lawful) b.classes names
          n c h f (not_skipped u fold s table site c) in
      let named : has_key (facts c).name e.declared ≡ true =
        ap (has_key (facts c).name) b.declared ∙ w.0 in
      let closed =
        known-All s e.declared (built-IsKnown [] e b)
          (λ d.
            skipped u (left_by u s shape hc.classes ps).skip d ≡ true
            → has_key (key_of u d) (left_by u s shape hc.classes ps).skip ≡ true)
          (facts c).name c named
          (lawful-found s c (get-IsLawful u fold s [] table (to_lower u n) c lawful f))
          (left_by-closed u s shape hc.classes ps ignores_case hc.resolve hc.inherit) in
      sym (left_by-IsSaid u s shape hc.classes ps (key_of u c)) ∙ closed k

  module _ (again : List Text → Option Entry) (again_builds : (skip : List Text) → Again again skip)
      (ignores_case : (n m : Text)
        → to_lower u n ≡ to_lower u m
        → s.object_class n ≡ s.object_class m) where
    judged-Tells :
        (e : Entry) (j : Judgement)
        → IsBuilt u fold s table site [] names e
        → Tells (rebuilt again (unmet_of u s (e, j)))
    unfolding rebuilt unmet_of
    judged-Tells e passes b =
        rebuilt_without-Tells again e [] [] (again_builds []) b
          (λ n c h f k. cc (k, not_skipped u fold s table site c))
    judged-Tells e broken b =
        rebuilt_without-Tells again e [] [] (again_builds []) b
          (λ n c h f k. cc (k, not_skipped u fold s table site c))
    judged-Tells e (problems ps) b =
        let hc = classes_of-known s e.declared (built-IsKnown [] e b) in
        let left = left_by u s e.shape hc.classes ps in
        let found : unmet_of u s (e, problems ps) ≡ some (e, left) = ground (arith, hc.found) in
        subst (λ x. Tells (rebuilt again x)) (sym found)
          (rebuilt_without-Tells again e left.off left.skip (again_builds left.skip) b
            (left_by-said e e.shape ps ignores_case b))

    pub rebuilt-Tells :
        (e : Entry) → IsBuilt u fold s table site [] names e → Tells (rebuilt again (unmet u s e))
    unfolding unmet
    rebuilt-Tells e b =
        let v = validate s e in
        judged-Tells v.0 v.1 (IsBuilt-SaysAs [] e v.0 (validate-SaysAs s e) b)

    pub held-Tells :
        (tree : Option Tree) (o : Option Entry) → Tells o → Tells (held u fold s tree table site o)
    unfolding held
    held-Tells tree none t = absurd (ground (arith, t.found))
    held-Tells tree (some e) t = record {
      entry = placed_and_validated s tree e;
      found = refl;
      told = λ n h.
          is_told-SaysAs u n (get (to_lower u n) table) e (placed_and_validated s tree e)
            (placed_and_validated-SaysAs s tree e)
            (subst (λ x. is_told u n (get (to_lower u n) table) x ≡ true) (cc (t.found))
              (t.told n h));
    }
