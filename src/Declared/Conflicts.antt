-- ===== src/Declared/Conflicts.antt =====
-- declared.go: the groups that two sources declare different classes for.
pub mod Same
use authnd.Base.{
  if◌then◌else◌, Text, Casing, to_lower, text_eq, ◌+◌, Bool, true, false, ◌&&◌, Option, none, some,
  List, [], ◌∷◌, ◌++◌, map,
}
use authnd.Groups.{sort}

-- What a source that is a directory.GroupObjectClasser says of a group; none is an error.
pub record Source : Type 0 where
  pub describe : Text
  pub is_classer : Bool
  pub group_object_classes : Text → Option (List Text)

-- slices.Equal, of lists of strings
unfoldable pub lists_eq : List Text → List Text → Bool
lists_eq [] [] = true
lists_eq (a ∷ as_) (b ∷ bs) = text_eq a b && lists_eq as_ bs
lists_eq _ _ = false

-- norm, of sameClasses
unfoldable pub norm : Casing → List Text → List Text
norm u l = sort (map (to_lower u) l)

-- sameClasses
unfoldable pub same_classes : Casing → List Text → List Text → Bool
unfolding norm lists_eq
same_classes u a b = lists_eq (norm u a) (norm u b)

-- said: who declares which classes.
pub record Said : Type 0 where
  pub who : Text
  pub classes : List Text

says : Text → Option (List Text) → List Said
says who none = []
says who (some []) = []
says who (some (c ∷ cs)) = record { who = who; classes = c ∷ cs } ∷ []

-- What the sources declare for a group, in their order.
pub said_of : Text → List Source → List Said
unfolding says
said_of g [] = []
said_of g (src ∷ srcs) =
    let rest = said_of g srcs in
    if src.is_classer then says src.describe (src.group_object_classes g) ++ rest else rest

-- A sentence: the group, the first that declares classes for it, and a later one that differs.
pub record Conflict : Type 0 where
  pub group : Text
  pub first : Said
  pub later : Said

unfoldable pub conflicts_with : Casing → Text → Said → List Said → List Conflict
conflicts_with u g first [] = []
conflicts_with u g first (later ∷ more) =
    let rest = conflicts_with u g first more in
    if same_classes u first.classes later.classes
    then rest
    else record { group = g; first = first; later = later } ∷ rest

conflicts_of : Casing → Text → List Said → List Conflict
unfolding conflicts_with
conflicts_of u g [] = []
conflicts_of u g (first ∷ later) = conflicts_with u g first later

-- groupClassConflicts
pub group_class_conflicts : Casing → List Text → List Source → List Conflict
unfolding conflicts_of
group_class_conflicts u [] srcs = []
group_class_conflicts u (g ∷ gs) srcs =
    conflicts_of u g (said_of g srcs) ++ group_class_conflicts u gs srcs
