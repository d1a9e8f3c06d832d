-- ===== src/Server/Changes.antt =====
-- server.go: which modify requests are a password change and nothing else.
use authnd.Base.{if◌then◌else◌, all, Text, codes, text_eq, Bool, Option, none, some, List, [], ◌∷◌}
use authnd.Roster.{Fold, fold_name}

-- ldap.Change
pub data Operation : Type 0 where
  add delete replace increment : Operation

pub record Change : Type 0 where
  pub operation : Operation
  pub attribute : Text
  pub values : List Text

-- passwordChange; `old` is there where the request carried it.
pub record PasswordChange : Type 0 where
  pub old : Option Text
  pub new : Text

-- strings.EqualFold(name, "userPassword")
is_user_password : Fold → Text → Bool
is_user_password fold name = text_eq (fold_name fold name) (fold_name fold (codes "userPassword"))

one_value : List Text → Option Text
one_value (v ∷ []) = some v
one_value _ = none

-- The two shapes of a password change.
shape_of : List Change → Option PasswordChange
shape_of (c ∷ []) = elim c.operation [
  | replace ↦ elim (one_value c.values) [
    | none ↦ none
    | some v ↦ some (record { old = none; new = v })
  ]
  | _ ↦ none
]
shape_of (c ∷ d ∷ []) = elim c.operation [
  | delete ↦ elim d.operation [
    | add ↦ elim (one_value c.values) [
      | none ↦ none
      | some o ↦ elim (one_value d.values) [
        | none ↦ none
        | some v ↦ some (record { old = some o; new = v })
      ]
    ]
    | _ ↦ none
  ]
  | _ ↦ none
]
shape_of _ = none

-- onlyAPasswordChange; none is an error.
unfoldable pub only_a_password_change : Fold → List Change → Option PasswordChange
unfolding is_user_password shape_of one_value
only_a_password_change fold changes =
    if all (λ c. is_user_password fold c.attribute) changes then shape_of changes else none
