-- ===== src/SiteSchema/Loading/Added.antt =====
-- siteschema.go, the two loops of `directorySchema`: what each file or block adds.
use mathlib.Core.Path.{subst}
use authnd.Base.{
  length, drop, drop-append, Casing, Map, ◌≡◌, refl, sym, ap, ◌∙◌, ◌⊎◌, inl, inr, Option, none,
  some, List, [], ◌∷◌, ◌++◌, append_assoc, append-nil, arith,
}
use authnd.SiteSchema.{
  Element, Definition, Definitions, no_definitions, add_owners, Owned, Built, built, build_error,
  other_error, since,
}
use authnd.SiteSchema.Loading.{
  File, Addition, Progress, Loaded, ok, unreadable, garbled, refused, Input, with_built,
  with_parsed, with_file, add_inputs,
}

-- The definitions of the additions, one after the other.
unfoldable pub joined : List Addition → Element → List Definition
joined [] k = []
joined (a ∷ as_) k = a.defs k ++ joined as_ k

joined-append :
    (as_ bs : List Addition) (k : Element) → joined (as_ ++ bs) k ≡ joined as_ k ++ joined bs k
unfolding joined
joined-append [] bs k = refl
joined-append (a ∷ as_) bs k =
    ap (λ l. a.defs k ++ l) (joined-append as_ bs k)
    ∙ sym (append_assoc (a.defs k) (joined as_ k) (joined bs k))

-- schema.Read and hclschema.Decode append in file order, kind by kind.
abbrev pub Appends : (List File → Option Definitions) → Type 0
Appends parse =
    (fs : List File) (f : File) (before after : Definitions)
    → parse fs ≡ some before
    → parse (fs ++ f ∷ []) ≡ some after
    → (k : Element) → (extra : List Definition) × (after k ≡ before k ++ extra)

-- These definitions are those of these files; no file has none.
abbrev pub Reads : (List File → Option Definitions) → List File → Definitions → Type 0
Reads parse fs ds = (parse fs ≡ some ds) ⊎ ((fs ≡ []) × (ds ≡ no_definitions))

module _ (u : Casing) (parse : List File → Option Definitions) (build : List Definitions → Built)
    (before : List Definitions) (appends : Appends parse) where
  -- The additions since `start` are the definitions of the files so far.
  pub record IsInStep (start : List Addition) (p : Progress) : Type 0 where
    pub parsed : Reads parse p.files p.site
    pub whole : (k : Element) → joined p.added k ≡ joined start k ++ p.site k

  since-rest :
      (p : Progress) (start : List Addition) (f : File) (all_of : Definitions)
      → IsInStep start p
      → parse (p.files ++ f ∷ []) ≡ some all_of
      → (k : Element) → p.site k ++ since all_of p.site k ≡ all_of k
  unfolding since
  since-rest p start f all_of h e k = elim h.parsed [
    | inl read ↦
        let (extra, grown) = appends p.files f p.site all_of read e k in
        ap (λ l. p.site k ++ l) (ap (drop (length (p.site k))) grown ∙ drop-append (p.site k) extra)
        ∙ sym grown
    | inr (no_file, none_yet) ↦
        ap (λ (d : Definitions). d k ++ drop (length (d k)) (all_of k)) none_yet
  ]

  next_IsInStep :
      (i : Input) (f : File) (all_of : Definitions) (p : Progress) (start : List Addition)
      (o : Map Owned)
      → IsInStep start p
      → parse (p.files ++ f ∷ []) ≡ some all_of
      → IsInStep start (record {
        files = p.files ++ f ∷ [];
        site = all_of;
        owners = o;
        added = p.added ++ record { place = i.place; defs = since all_of p.site } ∷ [];
      })
  unfolding joined
  next_IsInStep i f all_of p start o h e = record {
    parsed = inl e;
    whole = λ k.
        joined-append p.added (record { place = i.place; defs = since all_of p.site } ∷ []) k
        ∙ ap (λ l. joined p.added k ++ l) (append-nil (since all_of p.site k))
        ∙ ap (λ l. l ++ since all_of p.site k) (h.whole k)
        ∙ append_assoc (joined start k) (p.site k) (since all_of p.site k)
        ∙ ap (λ l. joined start k ++ l) (since-rest p start f all_of h e k);
  }

  with_built-IsInStep :
      (i : Input) (f : File) (all_of : Definitions) (p q : Progress) (b : Built)
      (start : List Addition)
      → IsInStep start p
      → parse (p.files ++ f ∷ []) ≡ some all_of
      → with_built u parse build before i f all_of p b ≡ ok q
      → IsInStep start q
  unfolding with_built
  with_built-IsInStep i f all_of p q (built s) start h e k =
      subst (IsInStep start) (ground (arith, k))
        (next_IsInStep i f all_of p start (add_owners u (since all_of p.site) i.place p.owners) h e)
  with_built-IsInStep i f all_of p q (build_error be) start h e k = absurd (ground (arith, k))
  with_built-IsInStep i f all_of p q (other_error t) start h e k = absurd (ground (arith, k))

  with_parsed-IsInStep :
      (i : Input) (f : File) (p q : Progress) (o : Option Definitions) (start : List Addition)
      → IsInStep start p
      → parse (p.files ++ f ∷ []) ≡ o
      → with_parsed u parse build before i f p o ≡ ok q
      → IsInStep start q
  unfolding with_parsed
  with_parsed-IsInStep i f p q none start h e k = absurd (ground (arith, k))
  with_parsed-IsInStep i f p q (some all_of) start h e k =
      with_built-IsInStep i f all_of p q (build (before ++ all_of ∷ [])) start h e k

  with_file-IsInStep :
      (i : Input) (p q : Progress) (o : Option File) (start : List Addition)
      → IsInStep start p
      → with_file u parse build before i p o ≡ ok q
      → IsInStep start q
  unfolding with_file
  with_file-IsInStep i p q none start h k = absurd (ground (arith, k))
  with_file-IsInStep i p q (some f) start h k =
      with_parsed-IsInStep i f p q (parse (p.files ++ f ∷ [])) start h refl k

  pub add_inputs-IsInStep :
      (is : List Input) (p q : Progress) (start : List Addition)
      → IsInStep start p
      → add_inputs u parse build before is p ≡ ok q
      → IsInStep start q
  unfolding add_inputs
  add_inputs-IsInStep [] p q start h k = subst (IsInStep start) (ground (arith, k)) h
  add_inputs-IsInStep (i ∷ is) p q start h k =
      after (λ r g e. add_inputs-IsInStep is r q start g e)
        (with_file u parse build before i p i.file) refl k
    where
      after :
          ((r : Progress)
            → IsInStep start r
            → add_inputs u parse build before is r ≡ ok q
            → IsInStep start q)
          → (l : Loaded) → with_file u parse build before i p i.file ≡ l
          → elim l [
            | ok r ↦ add_inputs u parse build before is r
            | unreadable t ↦ unreadable t
            | garbled t ↦ garbled t
            | refused t r ↦ refused t r
          ]
            ≡ ok q
          → IsInStep start q
      after more (ok r) e k = more r (with_file-IsInStep i p r i.file start h e) k
      after more (unreadable t) e k = absurd (ground (arith, k))
      after more (garbled t) e k = absurd (ground (arith, k))
      after more (refused t r) e k = absurd (ground (arith, k))
