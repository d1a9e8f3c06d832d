-- ===== src/Structure/Exact.antt =====
-- structure.go, `checkStructure`: which trees it accepts.
use authnd.Base.{
  if◌then◌else◌, Bool-cases, any, Text, codes, ℕ, ◌≤◌, ◌<◌, ◌≡◌, refl, ap, ◌∙◌, ◌↔◌, inl, inr, Bool,
  true, false, Option, none, some, List, [], ◌∷◌, arith,
}
use authnd.Schema.{Governed, governed_by, name_form_violation, unplaced, Schema}
use authnd.Server.{Site}
use authnd.Entries.{Tree, is_governed}
use authnd.Structure.{
  active, person_shapes, group_shapes, Container, people, groups, container_class, probe, Probed,
  probed, probe_all, none_placed, check_governed, check_container, Checked, accepted, verdict,
  check_under, check_suffix, check_structure,
}
use authnd.Structure.Placed.{is_badly_named, IsGoverned, IsStanding, check_structure-IsStanding}

module _ (c : Container) (shape : List Text) where
  probed-faults :
      (g : Governed) (p : Probed)
      → is_badly_named g ≡ false
      → (probed c shape g p).faults ≡ p.faults
  unfolding probed is_badly_named
  probed-faults (governed_by q) p h = refl
  probed-faults unplaced p h = refl
  probed-faults name_form_violation p h = absurd (ground (arith, h))

  probed-placed : (g : Governed) (p : Probed) → p.placed ≤ (probed c shape g p).placed
  unfolding probed
  probed-placed (governed_by q) p = omega arith
  probed-placed unplaced p = omega arith
  probed-placed name_form_violation p = omega arith

  probed-counts :
      (g : Governed) (p : Probed) → is_governed g ≡ true → 0 < (probed c shape g p).placed
  unfolding probed authnd.Entries.is_governed
  probed-counts (governed_by q) p h = omega arith
  probed-counts unplaced p h = absurd (ground (arith, h))
  probed-counts name_form_violation p h = absurd (ground (arith, h))

module _ (s : Schema) (c : Container) (rdn dn : Text) (r : Option ℕ) where
  no_faults :
      (shapes : List (List Text)) (p : Probed)
      → any (λ shape. is_badly_named (probe s rdn dn r shape)) shapes ≡ false
      → (probe_all s c rdn dn r shapes p).faults ≡ p.faults
  unfolding probe_all
  no_faults [] p h = refl
  no_faults (shape ∷ shapes) p h =
      no_faults shapes (probed c shape (probe s rdn dn r shape) p) (ground (arith, h))
      ∙ probed-faults c shape (probe s rdn dn r shape) p (ground (arith, h))

  probe_all-placed :
      (shapes : List (List Text)) (p : Probed) → p.placed ≤ (probe_all s c rdn dn r shapes p).placed
  unfolding probe_all
  probe_all-placed [] p = omega arith
  probe_all-placed (shape ∷ shapes) p =
      let next = probed c shape (probe s rdn dn r shape) p in
      omega (arith, probe_all-placed shapes next, probed-placed c shape (probe s rdn dn r shape) p)

  probe_all-counts :
      (shapes : List (List Text)) (p : Probed)
      → any (λ shape. is_governed (probe s rdn dn r shape)) shapes ≡ true
      → 0 < (probe_all s c rdn dn r shapes p).placed
  unfolding probe_all
  probe_all-counts [] p h = absurd (ground (arith, h))
  probe_all-counts (shape ∷ shapes) p h =
      let next = probed c shape (probe s rdn dn r shape) p in
      elim (Bool-cases (is_governed (probe s rdn dn r shape))) [
        | inl here ↦ omega (
          arith,
          probe_all-placed shapes next,
          probed-counts c shape (probe s rdn dn r shape) p here,
        )
        | inr other ↦ probe_all-counts shapes next (ground (arith, h, other))
      ]

none_placed-none :
    (c : Container) (p : Probed) → p.faults ≡ [] → 0 < p.placed → none_placed c p ≡ []
unfolding none_placed
none_placed-none c p h k = ground (arith, h, k)

module _ (s : Schema) (root : Option ℕ) (c : Container) (rdn dn : Text)
    (shapes : List (List Text)) where
  check_container-governed :
      (r : Option ℕ)
      → IsGoverned s root rdn dn shapes r
      → check_container s root c rdn dn shapes ≡ (r, [])
  unfolding check_container check_governed
  check_container-governed r k =
      let none_yet : Probed = record { placed = 0; faults = [] } in
      ap (check_governed s c rdn dn shapes) k.rule
      ∙ ap (λ fs. (r, fs))
          (none_placed-none c (probe_all s c rdn dn r shapes none_yet)
            (no_faults s c rdn dn r shapes none_yet k.well_named)
            (probe_all-counts s c rdn dn r shapes none_yet k.some_placed))

standing-accepted :
    (s : Schema) (site : Site) (t : Tree)
    → IsStanding s site t
    → check_suffix s site (container_class s site.cfg.base_dn) ≡ accepted (some t)
unfolding check_suffix check_under verdict
standing-accepted s site t k =
    ap (check_suffix s site) k.named
    ∙ ap (check_under s site) k.governed
    ∙ ap (λ p. verdict p (check_container s k.root groups (codes "cn") site.groups_dn group_shapes))
        (check_container-governed s k.root people (codes "uid") site.people_dn person_shapes
          t.people k.people)
    ∙ ap (verdict (t.people, [])) (
        check_container-governed s k.root groups (codes "cn") site.groups_dn group_shapes t.groups
          k.groups)

chosen :
    (b : Bool) (x : Checked) (t : Tree)
    → (if b then x else accepted none) ≡ accepted (some t)
    → b ≡ true
chosen true x t e = refl
chosen false x t e = absurd (ground (arith, e))

-- checkStructure keeps a tree exactly where a structure rule is active and the tree stands: the
-- suffix is named by an attribute that has a class and is governed by a rule, each container is
-- governed as an organizational unit under it by the rule that the tree keeps for it, at least one
-- shape of an entry of that container can be placed there, and no shape is refused for being named
-- by uid, or cn.
pub check_structure_iff :
    (s : Schema) (site : Site) (t : Tree)
    → (check_structure s site ≡ accepted (some t))
      ↔ ((active s.structure_rules ≡ true) × IsStanding s site t)
unfolding check_structure
check_structure_iff s site t = (
  λ h. (
    chosen (active s.structure_rules) (check_suffix s site (container_class s site.cfg.base_dn)) t
        h,
    check_structure-IsStanding s site t h,
  ),
  λ (is_active, k).
      ap
        (λ b. if b then check_suffix s site (container_class s site.cfg.base_dn) else accepted none)
        is_active
      ∙ standing-accepted s site t k,
)
