-- ===== src/Structure/Placed.antt =====
-- structure.go, `checkStructure`: what a tree that it accepts is.
use authnd.Base.{
  if◌then◌else◌, any, Text, codes, ℕ, zero, suc, ◌<◌, ◌≡◌, refl, ap, ◌≢◌, ◌⊎◌, inl, inr, Bool, true,
  false, Option, none, some, List, [], ◌∷◌, ◌++◌, arith,
}
use mathlib.Core.Path.{subst}
use authnd.Schema.{Governed, governed_by, name_form_violation, unplaced, Schema}
use authnd.Server.{Site}
use authnd.Entries.{Tree, is_governed}
use authnd.Structure.{
  leaf, Container, people, groups, Fault, badly_named, nothing_placed, person_shapes, group_shapes,
  object_classes, active, Class, class, fault, container_class, probe, Probed, probed, probe_all,
  none_placed, check_governed, check_container, Checked, accepted, verdict, check_under,
  check_suffix, check_structure,
}

unfoldable pub is_badly_named : Governed → Bool
is_badly_named name_form_violation = true
is_badly_named _ = false

-- A container that its rule governs: a shape of an entry can be placed under it, and no shape is
-- refused for the way that authnd names it.
pub record IsGoverned (s : Schema) (root : Option ℕ) (rdn dn : Text) (shapes : List (List Text))
    (r : Option ℕ) : Type 0 where
  pub rule : s.govern dn (object_classes (codes "organizationalUnit" ∷ [])) root ≡ governed_by r
  pub some_placed : any (λ shape. is_governed (probe s rdn dn r shape)) shapes ≡ true
  pub well_named : any (λ shape. is_badly_named (probe s rdn dn r shape)) shapes ≡ false

-- A tree in which entries can stand, from the suffix down.
pub record IsStanding (s : Schema) (site : Site) (t : Tree) : Type 0 where
  pub suffix : Text
  pub named : container_class s site.cfg.base_dn ≡ class suffix
  pub root : Option ℕ
  pub governed : s.govern site.cfg.base_dn (object_classes (suffix ∷ [])) none ≡ governed_by root
  pub people : IsGoverned s root (codes "uid") site.people_dn person_shapes t.people
  pub groups : IsGoverned s root (codes "cn") site.groups_dn group_shapes t.groups

-- A fault that was added is there.
added_fault : (fs : List Fault) (f : Fault) → fs ++ f ∷ [] ≢ []
added_fault [] f e = ground (arith, e)
added_fault (g ∷ fs) f e = ground (arith, e)

none_said :
    (c : Container) (shape : List Text) (g : Governed) (p : Probed)
    → (probed c shape g p).faults ≡ []
    → (p.faults ≡ []) × (is_badly_named g ≡ false)
unfolding probed is_badly_named
none_said c shape (governed_by q) p e = (e, refl)
none_said c shape unplaced p e = (e, refl)
none_said c shape name_form_violation p e =
    absurd (added_fault p.faults (badly_named c (leaf shape)) e)

one_placed :
    (c : Container) (shape : List Text) (g : Governed) (p : Probed)
    → (probed c shape g p).faults ≡ []
    → 0 < (probed c shape g p).placed
    → (0 < p.placed) ⊎ (is_governed g ≡ true)
unfolding probed authnd.Entries.is_governed
one_placed c shape (governed_by q) p e h = inr refl
one_placed c shape unplaced p e h = inl h
one_placed c shape name_form_violation p e h =
    absurd (added_fault p.faults (badly_named c (leaf shape)) e)

-- No fault at the end: some shape counts.
placed_said :
    (c : Container) (n : ℕ) (fs : List Fault)
    → none_placed c (record { placed = n; faults = fs }) ≡ []
    → (fs ≡ []) × (0 < n)
unfolding none_placed
placed_said c zero fs h = absurd (added_fault fs (nothing_placed c) h)
placed_said c (suc n) fs h = (ground (arith, h), omega arith)

module _ (s : Schema) (c : Container) (rdn dn : Text) (r : Option ℕ) where
  probe_all-faults :
      (shapes : List (List Text)) (p : Probed)
      → (probe_all s c rdn dn r shapes p).faults ≡ []
      → (p.faults ≡ []) × (any (λ shape. is_badly_named (probe s rdn dn r shape)) shapes ≡ false)
  unfolding probe_all
  probe_all-faults [] p h = (h, refl)
  probe_all-faults (shape ∷ shapes) p h =
      let (none_yet, none_after) =
        probe_all-faults shapes (probed c shape (probe s rdn dn r shape) p) h in
      let (before, here) = none_said c shape (probe s rdn dn r shape) p none_yet in (before, cc)

  probe_all-placed :
      (shapes : List (List Text)) (p : Probed)
      → (probe_all s c rdn dn r shapes p).faults ≡ []
      → 0 < (probe_all s c rdn dn r shapes p).placed
      → (0 < p.placed) ⊎ (any (λ shape. is_governed (probe s rdn dn r shape)) shapes ≡ true)
  unfolding probe_all
  probe_all-placed [] p f h = inl h
  probe_all-placed (shape ∷ shapes) p f h =
      let next = probed c shape (probe s rdn dn r shape) p in
      elim (probe_all-placed shapes next f h) [
        | inr later ↦ inr (ground (arith, later))
        | inl now ↦
            elim (one_placed c shape (probe s rdn dn r shape) p ((probe_all-faults shapes next f).0)
              now) [ inl before ↦ inl before | inr here ↦ inr (ground (arith, here)) ]
      ]

  governed-IsGoverned :
      (root : Option ℕ) (shapes : List (List Text))
      → s.govern dn (object_classes (codes "organizationalUnit" ∷ [])) root ≡ governed_by r
      → none_placed c (probe_all s c rdn dn r shapes (record { placed = 0; faults = [] })) ≡ []
      → IsGoverned s root rdn dn shapes r
  governed-IsGoverned root shapes same h =
      let all = probe_all s c rdn dn r shapes (record { placed = 0; faults = [] }) in
      let (no_fault, counted) = placed_said c all.placed all.faults h in
      record {
        rule = same;
        some_placed =
            elim (probe_all-placed shapes (record { placed = 0; faults = [] }) no_fault counted) [
              | inl none_yet ↦ absurd (omega arith)
              | inr here ↦ here
            ];
        well_named = (probe_all-faults shapes (record { placed = 0; faults = [] }) no_fault).1;
      }

check_governed-IsGoverned :
    (s : Schema) (c : Container) (rdn dn : Text) (root q : Option ℕ) (shapes : List (List Text))
    (g : Governed)
    → s.govern dn (object_classes (codes "organizationalUnit" ∷ [])) root ≡ g
    → check_governed s c rdn dn shapes g ≡ (q, [])
    → IsGoverned s root rdn dn shapes q
unfolding check_governed
check_governed-IsGoverned s c rdn dn root q shapes (governed_by k) same h =
    subst (λ r. IsGoverned s root rdn dn shapes r) (ap (λ x. x.0) h)
      (governed-IsGoverned s c rdn dn k root shapes same (ap (λ x. x.1) h))
check_governed-IsGoverned s c rdn dn root q shapes name_form_violation same h =
    absurd (ground (arith, h))
check_governed-IsGoverned s c rdn dn root q shapes unplaced same h = absurd (ground (arith, h))

verdict-accepted :
    (p g : Option ℕ × List Fault) (t : Tree)
    → verdict p g ≡ accepted (some t)
    → (p ≡ (t.people, [])) × (g ≡ (t.groups, []))
unfolding verdict
verdict-accepted (r, []) (q, []) t h =
    let kept : record { people = r; groups = q } ≡ t = ground (arith, h) in
    (ap (λ x. (x.people, [])) kept, ap (λ x. (x.groups, [])) kept)
verdict-accepted (r, []) (q, f ∷ fs) t h = ground (arith, h)
verdict-accepted (r, e ∷ es) (q, fs) t h = ground (arith, h)

check_under-IsStanding :
    (s : Schema) (site : Site) (suffix : Text) (g : Governed) (t : Tree)
    → container_class s site.cfg.base_dn ≡ class suffix
    → s.govern site.cfg.base_dn (object_classes (suffix ∷ [])) none ≡ g
    → check_under s site g ≡ accepted (some t)
    → IsStanding s site t
unfolding check_under check_container
check_under-IsStanding s site suffix (governed_by root) t named same h =
    let (of_people, of_groups) =
      verdict-accepted (check_container s root people (codes "uid") site.people_dn person_shapes)
        (check_container s root groups (codes "cn") site.groups_dn group_shapes) t h in
    record {
      suffix = suffix;
      named = named;
      root = root;
      governed = same;
      people =
          check_governed-IsGoverned s people (codes "uid") site.people_dn root t.people
            person_shapes _ refl of_people;
      groups =
          check_governed-IsGoverned s groups (codes "cn") site.groups_dn root t.groups group_shapes
            _ refl of_groups;
    }
check_under-IsStanding s site suffix name_form_violation t named same h = absurd (ground (arith, h))
check_under-IsStanding s site suffix unplaced t named same h = absurd (ground (arith, h))

check_suffix-IsStanding :
    (s : Schema) (site : Site) (c : Class) (t : Tree)
    → container_class s site.cfg.base_dn ≡ c
    → check_suffix s site c ≡ accepted (some t)
    → IsStanding s site t
unfolding check_suffix
check_suffix-IsStanding s site (fault f) t same h = absurd (ground (arith, h))
check_suffix-IsStanding s site (class c) t same h = check_under-IsStanding s site c _ t same refl h

-- A tree that checkStructure keeps stands: the suffix is named by an attribute that has a class and
-- is governed by a rule, each container is governed as an organizational unit under it by the rule
-- that the tree keeps for it, at least one shape of an entry of that container can be placed there,
-- and no shape is refused for being named by uid, or cn.
pub check_structure-IsStanding :
    (s : Schema) (site : Site) (t : Tree)
    → check_structure s site ≡ accepted (some t)
    → IsStanding s site t
unfolding check_structure
check_structure-IsStanding s site t h =
    check_suffix-IsStanding s site (container_class s site.cfg.base_dn) t refl
      (chosen (active s.structure_rules) h)
  where
    chosen :
        {x : Checked} (b : Bool)
        → (if b then x else accepted none) ≡ accepted (some t)
        → x ≡ accepted (some t)
    chosen true e = e
    chosen false e = absurd (ground (arith, e))
