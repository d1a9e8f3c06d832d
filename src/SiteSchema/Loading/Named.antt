-- ===== src/SiteSchema/Loading/Named.antt =====
-- siteschema.go, the two loops of `directorySchema`: the files and blocks, under their names.
use mathlib.Core.Path.{subst}
use authnd.Base.{
  Text, Casing, ◌≡◌, refl, sym, ap, ◌∙◌, Option, none, some, List, [], ◌∷◌, ◌++◌, map, append_assoc,
  append-nil, map-append, arith,
}
use authnd.SiteSchema.{Definitions, Built, built, build_error, other_error, since}
use authnd.SiteSchema.Loading.{
  File, Addition, Progress, Loaded, ok, unreadable, garbled, refused, Input, with_built,
  with_parsed, with_file, add_inputs,
}
use authnd.SiteSchema.Loading.Added.{Reads}

abbrev pub files_of : List Input → List (Option File)
files_of is = map (λ (i : Input). i.file) is

abbrev pub places_of : List Input → List Text
places_of is = map (λ (i : Input). i.place) is

abbrev pub added_places : List Addition → List Text
added_places as_ = map (λ (a : Addition). a.place) as_

-- All of these files or blocks are there, and were added to what there was, under their names.
pub record Loads (is : List Input) (p q : Progress) : Type 0 where
  pub files : List File
  pub given : files_of is ≡ map some files
  pub grown : q.files ≡ p.files ++ files
  pub named : added_places q.added ≡ added_places p.added ++ places_of is

module _ (u : Casing) (parse : List File → Option Definitions) (build : List Definitions → Built)
    (before : List Definitions) where
  with_built-Loads :
      (i : Input) (f : File) (all_of : Definitions) (p q : Progress) (b : Built)
      → i.file ≡ some f
      → with_built u parse build before i f all_of p b ≡ ok q
      → Loads (i ∷ []) p q
  unfolding with_built
  with_built-Loads i f all_of p q (built s) e k =
      let addition : Addition = record { place = i.place; defs = since all_of p.site } in
      let same : p.added ++ addition ∷ [] ≡ q.added = ground (arith, k) in
      record {
        files = f ∷ [];
        given = ap (λ o. o ∷ []) e;
        grown = ground (arith, k);
        named =
            sym (ap added_places same)
            ∙ map-append (λ (a : Addition). a.place) p.added (addition ∷ []);
      }
  with_built-Loads i f all_of p q (build_error be) e k = absurd (ground (arith, k))
  with_built-Loads i f all_of p q (other_error t) e k = absurd (ground (arith, k))

  with_parsed-Loads :
      (i : Input) (f : File) (p q : Progress) (o : Option Definitions)
      → i.file ≡ some f
      → with_parsed u parse build before i f p o ≡ ok q
      → Loads (i ∷ []) p q
  unfolding with_parsed
  with_parsed-Loads i f p q none e k = absurd (ground (arith, k))
  with_parsed-Loads i f p q (some all_of) e k =
      with_built-Loads i f all_of p q (build (before ++ all_of ∷ [])) e k

  with_file-Loads :
      (i : Input) (p q : Progress) (o : Option File)
      → i.file ≡ o
      → with_file u parse build before i p o ≡ ok q
      → Loads (i ∷ []) p q
  unfolding with_file
  with_file-Loads i p q none e k = absurd (ground (arith, k))
  with_file-Loads i p q (some f) e k = with_parsed-Loads i f p q (parse (p.files ++ f ∷ [])) e k

  Loads-trans :
      (i : Input) (is : List Input) (p r q : Progress)
      → Loads (i ∷ []) p r
      → Loads is r q
      → Loads (i ∷ is) p q
  Loads-trans i is p r q a b = record {
    files = a.files ++ b.files;
    given =
        ap (λ l. l ++ files_of is) a.given
        ∙ (ap (λ l. map some a.files ++ l) b.given ∙ sym (map-append some a.files b.files));
    grown = b.grown ∙ (ap (λ l. l ++ b.files) a.grown ∙ append_assoc p.files a.files b.files);
    named =
        b.named
        ∙ (ap (λ l. l ++ places_of is) a.named
            ∙ append_assoc (added_places p.added) (i.place ∷ []) (places_of is));
  }

  pub add_inputs-Loads :
      (is : List Input) (p q : Progress)
      → add_inputs u parse build before is p ≡ ok q
      → Loads is p q
  unfolding add_inputs
  add_inputs-Loads [] p q k =
      let same : p ≡ q = ground (arith, k) in
      record {
        files = [];
        given = refl;
        grown = ap (λ r. r.files) (sym same) ∙ sym (append-nil p.files);
        named = ap (λ r. added_places r.added) (sym same) ∙ sym (append-nil (added_places p.added));
      }
  add_inputs-Loads (i ∷ is) p q k =
      after (λ r e. add_inputs-Loads is r q e) (with_file u parse build before i p i.file) refl k
    where
      after :
          ((r : Progress) → add_inputs u parse build before is r ≡ ok q → Loads is r q)
          → (l : Loaded) → with_file u parse build before i p i.file ≡ l
          → elim l [
            | ok r ↦ add_inputs u parse build before is r
            | unreadable t ↦ unreadable t
            | garbled t ↦ garbled t
            | refused t r ↦ refused t r
          ]
            ≡ ok q
          → Loads (i ∷ is) p q
      after more (ok r) e k =
          Loads-trans i is p r q (with_file-Loads i p r i.file refl e) (more r k)
      after more (unreadable t) e k = absurd (ground (arith, k))
      after more (garbled t) e k = absurd (ground (arith, k))
      after more (refused t r) e k = absurd (ground (arith, k))

-- The definitions of files or blocks that are all there.
pub record IsRead (parse : List File → Option Definitions) (is : List Input) (ds : Definitions)
    : Type 0 where
  pub files : List File
  pub given : files_of is ≡ map some files
  pub read : Reads parse files ds

pub Loads-IsRead :
    (parse : List File → Option Definitions) (is : List Input) (p q : Progress)
    → p.files ≡ []
    → Loads is p q
    → Reads parse q.files q.site
    → IsRead parse is q.site
Loads-IsRead parse is p q none_yet l r = record {
  files = l.files;
  given = l.given;
  read = subst (λ fs. Reads parse fs q.site) (l.grown ∙ ap (λ fs. fs ++ l.files) none_yet) r;
}
