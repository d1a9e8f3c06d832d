-- ===== src/SiteSchema/Loading/Reported.antt =====
-- siteschema.go, `directorySchema`: what the additions report of the files and the blocks.
use authnd.Base.{Casing, ◌≡◌, refl, sym, ap, ◌∙◌, inr, Bool, List, [], ◌∷◌, ◌++◌, append-nil}
use authnd.SiteSchema.{Element, Definitions, no_definitions, add_owners}
use authnd.SiteSchema.Loading.{base_place, Addition, Progress, ok, Input, add_inputs, Library}
use authnd.SiteSchema.Loading.Added.{joined, Appends, add_inputs-IsInStep}
use authnd.SiteSchema.Loading.Named.{
  IsRead, Loads-IsRead, add_inputs-Loads, added_places, places_of,
}

-- The definitions of the files and of the blocks, all read, with what the additions report of them:
-- each under its name, and of each kind the same definitions in the same order.
pub record IsReported (lib : Library) (files blocks : List Input) (added : List Addition)
    (site local : Definitions) : Type 0 where
  pub site_read : IsRead lib.read files site
  pub local_read : IsRead lib.decode blocks local
  pub reported : (k : Element) → joined added k ≡ site k ++ local k
  pub named : added_places added ≡ places_of files ++ places_of blocks

module _ (u : Casing) (lib : Library) (files : List Input) (base : Definitions)
    (reads : Appends lib.read) (decodes : Appends lib.decode) where
  pub blocks-IsReported :
      (blocks : List Input) (p q : Progress)
      → IsReported lib files [] p.added p.site no_definitions
      → add_inputs u lib.decode lib.build
          (base ∷ p.site ∷ [])
          blocks
          (record p { files = []; site = no_definitions })
        ≡ ok q
      → IsReported lib files blocks q.added p.site q.site
  blocks-IsReported blocks p q before e =
      let fresh : Progress = record p { files = []; site = no_definitions } in
      let step =
        add_inputs-IsInStep u lib.decode lib.build (base ∷ p.site ∷ []) decodes blocks fresh q
          p.added
          (record { parsed = inr (refl, refl); whole = λ k. sym (append-nil (joined p.added k)) })
          e in
      let loads = add_inputs-Loads u lib.decode lib.build (base ∷ p.site ∷ []) blocks fresh q e in
      record {
        site_read = before.site_read;
        local_read = Loads-IsRead lib.decode blocks fresh q refl loads step.parsed;
        reported =
            λ k. step.whole k ∙ ap (λ l. l ++ q.site k) (before.reported k ∙ append-nil (p.site k));
        named =
            loads.named
            ∙ ap (λ l. l ++ places_of blocks) (before.named ∙ append-nil (places_of files));
      }

  pub files-IsReported :
      (samba : Bool) (p : Progress)
      → add_inputs u lib.read lib.build (base ∷ []) files (record {
        files = [];
        site = no_definitions;
        owners = add_owners u base (base_place samba) [];
        added = [];
      })
        ≡ ok p
      → IsReported lib files [] p.added p.site no_definitions
  unfolding joined
  files-IsReported samba p e =
      let start : Progress = record {
        files = [];
        site = no_definitions;
        owners = add_owners u base (base_place samba) [];
        added = [];
      } in
      let step =
        add_inputs-IsInStep u lib.read lib.build (base ∷ []) reads files start p []
          (record { parsed = inr (refl, refl); whole = λ k. refl }) e in
      let loads = add_inputs-Loads u lib.read lib.build (base ∷ []) files start p e in
      record {
        site_read = Loads-IsRead lib.read files start p refl loads step.parsed;
        local_read = record { files = []; given = refl; read = inr (refl, refl) };
        reported = λ k. step.whole k ∙ sym (append-nil (p.site k));
        named = loads.named ∙ sym (append-nil (places_of files));
      }

pub alone-IsReported : (lib : Library) → IsReported lib [] [] [] no_definitions no_definitions
unfolding joined
alone-IsReported lib = record {
  site_read = record { files = []; given = refl; read = inr (refl, refl) };
  local_read = record { files = []; given = refl; read = inr (refl, refl) };
  reported = λ k. refl;
  named = refl;
}
