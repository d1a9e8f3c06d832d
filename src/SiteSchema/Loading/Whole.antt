-- ===== src/SiteSchema/Loading/Whole.antt =====
-- siteschema.go, `directorySchema`: what is served, and what the additions report.
use mathlib.Core.Path.{subst}
use authnd.Base.{Casing, ◌≡◌, refl, ◌⊎◌, inl, inr, Bool, Option, none, some, List, [], ◌∷◌, arith}
use authnd.Schema.{Schema}
use authnd.SiteSchema.{
  Definitions, no_definitions, add_owners, Built, built, build_error, other_error,
}
use authnd.SiteSchema.Loading.{
  base_place, Addition, Progress, Loaded, ok, unreadable, garbled, refused, Input, add_inputs,
  Library, served, base_files, finished, with_blocks, with_inputs, with_base, with_standard,
  directory_schema,
}
use authnd.SiteSchema.Loading.Added.{Appends}
use authnd.SiteSchema.Loading.Reported.{
  IsReported, blocks-IsReported, files-IsReported, alone-IsReported,
}

-- The schema is built of the standard definitions, followed by those of the files and of the blocks;
-- with no files or blocks it is the standard one.
pub record IsWhole (lib : Library) (samba : Bool) (files : List Input)
    (blocks : Option (List Input)) (s : Schema) (added : List Addition) : Type 0 where
  pub base : Definitions
  pub standard : lib.read (base_files lib samba) ≡ some base
  pub written : List Input
  pub are_written : blocks ≡ some written
  pub site : Definitions
  pub local : Definitions
  pub whole : IsReported lib files written added site local
  pub is_built :
      (lib.build (base ∷ site ∷ local ∷ []) ≡ built s)
      ⊎ ((lib.build (base ∷ []) ≡ built s) × (files ≡ []) × (written ≡ []))

module _ (u : Casing) (lib : Library) (samba : Bool) (files : List Input) (base : Definitions)
    (standard : lib.read (base_files lib samba) ≡ some base) where
  finished-IsWhole :
      (blocks : List Input) (site local : Definitions) (added added' : List Addition) (s : Schema)
      (b : Built)
      → IsReported lib files blocks added site local
      → lib.build (base ∷ site ∷ local ∷ []) ≡ b
      → finished added b ≡ served s added'
      → IsWhole lib samba files (some blocks) s added'
  unfolding finished
  finished-IsWhole blocks site local added added' s (built r) whole e h =
      let same : added ≡ added' = ground (arith, h) in
      record {
        base = base;
        standard = standard;
        written = blocks;
        are_written = refl;
        site = site;
        local = local;
        whole = subst (λ as_. IsReported lib files blocks as_ site local) same whole;
        is_built = inl (ground (arith, e, h));
      }
  finished-IsWhole blocks site local added added' s (build_error be) whole e h =
      absurd (ground (arith, h))
  finished-IsWhole blocks site local added added' s (other_error t) whole e h =
      absurd (ground (arith, h))

  with_blocks-IsWhole :
      (blocks : List Input) (site : Definitions) (l : Loaded) (s : Schema) (added : List Addition)
      → ((q : Progress) → l ≡ ok q → IsReported lib files blocks q.added site q.site)
      → with_blocks u lib base site l ≡ served s added
      → IsWhole lib samba files (some blocks) s added
  unfolding with_blocks
  with_blocks-IsWhole blocks site (ok q) s added after h =
      finished-IsWhole blocks site q.site q.added added s (lib.build (base ∷ site ∷ q.site ∷ []))
        (after q refl) refl h
  with_blocks-IsWhole blocks site (unreadable t) s added after h = absurd (ground (arith, h))
  with_blocks-IsWhole blocks site (garbled t) s added after h = absurd (ground (arith, h))
  with_blocks-IsWhole blocks site (refused t r) s added after h = absurd (ground (arith, h))

  module _ (reads : Appends lib.read) (decodes : Appends lib.decode) where
    with_inputs-IsWhole :
        (blocks : Option (List Input)) (l : Loaded) (s : Schema) (added : List Addition)
        → ((p : Progress) → l ≡ ok p → IsReported lib files [] p.added p.site no_definitions)
        → with_inputs u lib base blocks l ≡ served s added
        → IsWhole lib samba files blocks s added
    unfolding with_inputs
    with_inputs-IsWhole none (ok p) s added before h = absurd (ground (arith, h))
    with_inputs-IsWhole (some blocks) (ok p) s added before h =
        with_blocks-IsWhole blocks p.site
          (add_inputs u lib.decode lib.build (base ∷ p.site ∷ []) blocks
            (record p { files = []; site = no_definitions }))
          s added
          (λ q e. blocks-IsReported u lib files base reads decodes blocks p q (before p refl) e) h
    with_inputs-IsWhole none (unreadable t) s added before h = absurd (ground (arith, h))
    with_inputs-IsWhole none (garbled t) s added before h = absurd (ground (arith, h))
    with_inputs-IsWhole none (refused t r) s added before h = absurd (ground (arith, h))
    with_inputs-IsWhole (some blocks) (unreadable t) s added before h = absurd (ground (arith, h))
    with_inputs-IsWhole (some blocks) (garbled t) s added before h = absurd (ground (arith, h))
    with_inputs-IsWhole (some blocks) (refused t r) s added before h = absurd (ground (arith, h))

    loaded-IsWhole :
        (blocks : Option (List Input)) (s : Schema) (added : List Addition)
        → with_inputs u lib base blocks (
            add_inputs u lib.read lib.build (base ∷ []) files (record {
              files = [];
              site = no_definitions;
              owners = add_owners u base (base_place samba) [];
              added = [];
            }))
          ≡ served s added
        → IsWhole lib samba files blocks s added
    loaded-IsWhole blocks s added h =
        with_inputs-IsWhole blocks
          (add_inputs u lib.read lib.build (base ∷ []) files (record {
            files = [];
            site = no_definitions;
            owners = add_owners u base (base_place samba) [];
            added = [];
          }))
          s added (files-IsReported u lib files base reads decodes samba) h

module _ (u : Casing) (lib : Library) (samba : Bool) (base : Definitions)
    (standard : lib.read (base_files lib samba) ≡ some base) (reads : Appends lib.read)
    (decodes : Appends lib.decode) where
  with_base-IsWhole :
      (files : List Input) (blocks : Option (List Input)) (b : Built) (s : Schema)
      (added : List Addition)
      → lib.build (base ∷ []) ≡ b
      → with_base u lib base samba files blocks b ≡ served s added
      → IsWhole lib samba files blocks s added
  unfolding with_base
  with_base-IsWhole [] (some []) (built r) s added e h =
      let alone : [] ≡ added = ground (arith, h) in
      record {
        base = base;
        standard = standard;
        written = [];
        are_written = refl;
        site = no_definitions;
        local = no_definitions;
        whole =
            subst (λ as_. IsReported lib [] [] as_ no_definitions no_definitions) alone
              (alone-IsReported lib);
        is_built = inr (ground (arith, e, h), refl, refl);
      }
  with_base-IsWhole [] none (built r) s added e h =
      loaded-IsWhole u lib samba [] base standard reads decodes none s added h
  with_base-IsWhole [] (some (i ∷ is)) (built r) s added e h =
      loaded-IsWhole u lib samba [] base standard reads decodes (some (i ∷ is)) s added h
  with_base-IsWhole (f ∷ fs) blocks (built r) s added e h =
      loaded-IsWhole u lib samba (f ∷ fs) base standard reads decodes blocks s added h
  with_base-IsWhole files blocks (build_error be) s added e h = absurd (ground (arith, h))
  with_base-IsWhole files blocks (other_error t) s added e h = absurd (ground (arith, h))

with_standard-IsWhole :
    (u : Casing) (lib : Library) (samba : Bool) (files : List Input) (blocks : Option (List Input))
    (o : Option Definitions) (s : Schema) (added : List Addition)
    → Appends lib.read
    → Appends lib.decode
    → lib.read (base_files lib samba) ≡ o
    → with_standard u lib samba files blocks o ≡ served s added
    → IsWhole lib samba files blocks s added
unfolding with_standard
with_standard-IsWhole u lib samba files blocks none s added reads decodes e h =
    absurd (ground (arith, h))
with_standard-IsWhole u lib samba files blocks (some base) s added reads decodes e h =
    with_base-IsWhole u lib samba base e reads decodes files blocks (lib.build (base ∷ [])) s added
      refl h

-- The schema that directorySchema answers is built of the standard definitions (with Samba's, where
-- the samba block is there), of what schema.Read reads in all of the files, and of what
-- hclschema.Decode reads in all of the blocks; the additions name each file and each block, in order,
-- and report exactly these definitions, of each kind in the same order. Both readers append in file
-- order, kind by kind.
pub directory_schema-IsWhole :
    (u : Casing) (lib : Library) (samba : Bool) (files : List Input) (blocks : Option (List Input))
    (s : Schema) (added : List Addition)
    → Appends lib.read
    → Appends lib.decode
    → directory_schema u lib samba files blocks ≡ served s added
    → IsWhole lib samba files blocks s added
unfolding directory_schema
directory_schema-IsWhole u lib samba files blocks s added reads decodes h =
    with_standard-IsWhole u lib samba files blocks (lib.read (base_files lib samba)) s added reads
      decodes refl h
