-- ===== src/Declared/Added/Complete.antt =====
-- withDeclared over all the declared names.
use mathlib.Core.Path.{subst}
use authnd.Base.{
  Bool-cases, All, Text, text_eq_refl, text_eq_iff, Casing, to_lower, text_eq, Map, get, ◌≡◌, refl,
  sym, ap, ◌∙◌, inl, inr, true, false, ◌||◌, Option, none, some, List, [], ◌∷◌, ◌++◌, append_assoc,
  append-nil, arith,
}
use authnd.Schema.{Resolves, Class, class, facts, Schema}
use authnd.Roster.{Fold}
use authnd.Declared.Added.{has_key, present, skipped, walk, add_class, add_declared, with_declared}
use authnd.Declared.Added.Whole.{
  any-append, IsWhole, IsWhole-present, Extends, Extends-refl, Extends-trans, IsWhole-Extends,
  walk-Extends,
}

module _ (u : Casing) (fold : Fold) (s : Schema) (table : Map Class) (skip : List Text) where
  -- The schema finds every class that was declared at startup, and its superclasses, by their names.
  abbrev pub TableResolves : Type 0
  TableResolves = All (λ (e : Text × Class). Resolves s e.1) table

  Resolves-get :
      (m : Map Class) (k : Text) (c : Class)
      → All (λ (e : Text × Class). Resolves s e.1) m
      → get k m ≡ some c
      → Resolves s c
  unfolding get
  Resolves-get [] k c r h = absurd (ground (arith, h))
  Resolves-get ((j, d) ∷ m) k c (r, rs) h = elim (Bool-cases (text_eq j k)) [
    | inl e ↦ subst (Resolves s) (ground (arith, h, e)) r
    | inr e ↦ Resolves-get m k c rs (ground (arith, h, e))
  ]

  Resolves-found : (c : Class) → Resolves s c → s.object_class (facts c).name ≡ some c
  unfolding Resolves
  Resolves-found (class f sups) r = r.0

  Resolves-named :
      (c d : Class) → Resolves s c → Resolves s d → (facts c).name ≡ (facts d).name → c ≡ d
  Resolves-named c d r q e = cc (Resolves-found c r, Resolves-found d q, e)

  -- The classes whose names are in `added` are there with their superclasses.
  abbrev Done : List Text → List Text → Type 0
  Done out added =
      (c : Class) → Resolves s c → has_key (facts c).name added ≡ true → IsWhole u fold s skip c out

  pub has_key-append :
      (k : Text) (xs ys : List Text) → has_key k xs ≡ true → has_key k (xs ++ ys) ≡ true
  has_key-append k xs ys h = ground (arith, any-append (text_eq k) xs ys, h)

  -- What a name of the loop leaves: what was there and is done is done, with more perhaps.
  record Goes (out added : List Text) (p : List Text × List Text) : Type 0 where
    done : Done p.0 p.1
    extends : Extends u fold s skip out p.0
    more : List Text
    is_kept : p.1 ≡ added ++ more

  Goes-refl : (out added : List Text) → Done out added → Goes out added (out, added)
  Goes-refl out added d = record {
    done = d;
    extends = Extends-refl u fold s skip out;
    more = [];
    is_kept = sym (append-nil added);
  }

  Done-walk :
      (c : Class) (out added : List Text)
      → Resolves s c
      → skipped u skip c ≡ false
      → Done out added
      → Done (walk fold s c out) (added ++ (facts c).name ∷ [])
  Done-walk c out added r k d c' r' h =
      let (e, w) = walk-Extends u fold s skip c out r k in
      elim (Bool-cases (has_key (facts c').name added)) [
        | inl old ↦ IsWhole-Extends u fold s skip c' out (walk fold s c out) e (d c' r' old)
        | inr new ↦
            let same : (facts c).name ≡ (facts c').name = ground (
              arith,
              any-append (text_eq (facts c').name) added ((facts c).name ∷ []),
              text_eq_iff (facts c').name (facts c).name,
              h,
              new,
            ) in
            subst (λ x. IsWhole u fold s skip x (walk fold s c out)) (Resolves-named c c' r r' same)
              w
      ]

  add_class-Goes :
      (c : Class) (out added : List Text)
      → Resolves s c
      → Done out added
      → Goes out added (add_class fold s u table skip (some c) (out, added))
  unfolding add_class
  add_class-Goes c out added r d =
      elim (Bool-cases (skipped u skip c || has_key (facts c).name added)) [
        | inl e ↦ rw e (Goes-refl out added d)
        | inr e ↦
            let k : skipped u skip c ≡ false = ground (arith, e) in
            rw e (record {
              done = Done-walk c out added r k d;
              extends = (walk-Extends u fold s skip c out r k).0;
              more = (facts c).name ∷ [];
              is_kept = refl;
            })
      ]

  add_class-has :
      (c : Class) (p : List Text × List Text)
      → skipped u skip c ≡ false
      → has_key (facts c).name (add_class fold s u table skip (some c) p).1 ≡ true
  unfolding add_class
  add_class-has c (out, added) k = ground (
    arith,
    any-append (text_eq (facts c).name) added ((facts c).name ∷ []),
    text_eq_refl (facts c).name,
    k,
  )

  found-Goes :
      (o : Option Class) (out added : List Text)
      → ((c : Class) → o ≡ some c → Resolves s c)
      → Done out added
      → Goes out added (add_class fold s u table skip o (out, added))
  unfolding add_class
  found-Goes none out added r d = Goes-refl out added d
  found-Goes (some c) out added r d = add_class-Goes c out added (r c refl) d

  Goes-trans :
      (out added : List Text) (p q : List Text × List Text)
      → Goes out added p
      → Goes p.0 p.1 q
      → Goes out added q
  Goes-trans out added p q g h = record {
    done = h.done;
    extends = Extends-trans u fold s skip out p.0 q.0 g.extends h.extends;
    more = g.more ++ h.more;
    is_kept = h.is_kept ∙ (ap (λ l. l ++ h.more) g.is_kept ∙ append_assoc added g.more h.more);
  }

  module _ (table_resolves : TableResolves) where
    name-Goes :
        (n : Text) (out added : List Text)
        → Done out added
        → Goes out added (add_class fold s u table skip (get (to_lower u n) table) (out, added))
    name-Goes n out added d =
        found-Goes (get (to_lower u n) table) out added
          (λ c. Resolves-get table (to_lower u n) c table_resolves) d

    loop-Goes :
        (ns : List Text) (p : List Text × List Text)
        → Done p.0 p.1
        → Goes p.0 p.1 (add_declared fold s u table skip ns p)
    unfolding add_declared
    loop-Goes [] p d = Goes-refl p.0 p.1 d
    loop-Goes (n ∷ ns) p d =
        let q = add_class fold s u table skip (get (to_lower u n) table) p in
        let g = name-Goes n p.0 p.1 d in
        Goes-trans p.0 p.1 q (add_declared fold s u table skip ns q) g (loop-Goes ns q g.done)

    loop-has :
        (ns : List Text) (p : List Text × List Text) (n : Text) (c : Class)
        → Done p.0 p.1
        → has_key n ns ≡ true
        → get (to_lower u n) table ≡ some c
        → skipped u skip c ≡ false
        → has_key (facts c).name (add_declared fold s u table skip ns p).1 ≡ true
    unfolding add_declared
    loop-has [] p n c d h e k = cc
    loop-has (m ∷ ns) p n c d h e k = elim (Bool-cases (text_eq n m)) [
      | inl same ↦
          let q = add_class fold s u table skip (get (to_lower u m) table) p in
          let g = loop-Goes ns q (name-Goes m p.0 p.1 d).done in
          let here : get (to_lower u m) table ≡ some c =
            ap (λ x. get (to_lower u x) table) (sym ((text_eq_iff n m).0 same)) ∙ e in
          let added : has_key (facts c).name q.1 ≡ true =
            ap (λ o. has_key (facts c).name (add_class fold s u table skip o p).1) here
            ∙ add_class-has c p k in
          ap (has_key (facts c).name) g.is_kept ∙ has_key-append (facts c).name q.1 g.more added
      | inr other ↦
          loop-has ns (add_class fold s u table skip (get (to_lower u m) table) p) n c
            (name-Goes m p.0 p.1 d).done (ground (arith, h, other)) e k
    ]

    -- What an entry has anyway stays as it is, and what is added is new: each class once, and none
    -- that is to be left off.
    pub with_declared-Extends :
        (classes declared : List Text)
        → Extends u fold s skip classes (with_declared fold s u table skip classes declared).0
    unfolding with_declared
    with_declared-Extends classes declared =
        (loop-Goes declared (classes, []) (λ c' r' bad. cc)).extends

    -- A declared class that was checked at startup is added, unless it or a superclass of it is to
    -- be left off, and then all its superclasses are there too; the classes that the entry has
    -- anyway stay as they are, followed by new ones only, each once and none that is to be left
    -- off. The schema finds the declared classes and their superclasses by their names.
    pub with_declared-IsWhole :
        (classes declared : List Text) (n : Text) (c : Class)
        → has_key n declared ≡ true
        → get (to_lower u n) table ≡ some c
        → skipped u skip c ≡ false
        → (has_key (facts c).name (with_declared fold s u table skip classes declared).1 ≡ true)
          × IsWhole u fold s skip c (with_declared fold s u table skip classes declared).0
          × Extends u fold s skip classes (with_declared fold s u table skip classes declared).0
    unfolding with_declared
    with_declared-IsWhole classes declared n c h e k =
        let start : Done classes [] = λ c' r' bad. cc in
        let g = loop-Goes declared (classes, []) start in
        let has = loop-has declared (classes, []) n c start h e k in
        (has, g.done c (Resolves-get table (to_lower u n) c table_resolves e) has, g.extends)

    -- A class that is said to be added is there.
    pub with_declared-present :
        (classes declared : List Text) (k : Text) (c : Class)
        → get k table ≡ some c
        → has_key (facts c).name (with_declared fold s u table skip classes declared).1 ≡ true
        → present fold s c (with_declared fold s u table skip classes declared).0 ≡ true
    unfolding with_declared
    with_declared-present classes declared k c e h =
        let start : Done classes [] = λ c' r' bad. cc in
        let g = loop-Goes declared (classes, []) start in
        IsWhole-present u fold s skip c (with_declared fold s u table skip classes declared).0
          (g.done c (Resolves-get table k c table_resolves e) h)
