-- ===== src/Schema.antt =====
-- What the program uses of go-authn/ldap's package schema, which is not part of the repository: the
-- object classes that were built, and what a built schema answers.
use authnd.Base.{◌==◌, any, All, Text, ℕ, ◌≡◌, Bool, true, false, ◌||◌, Option, some, List}

-- ObjectClass.Kind
pub data ClassKind : Type 0 where
  auxiliary structural abstract_class : ClassKind

-- What the fields and methods of a schema.ObjectClass give: the pointer (two classes are the same
-- object when these are equal), Name(), Kind, MustTypes() and MayTypes(); an attribute type is
-- its pointer.
pub record ClassFacts : Type 0 where
  pub ref : ℕ
  pub name : Text
  pub kind : ClassKind
  pub must : List ℕ
  pub may : List ℕ

-- A class with its Superiors(). schema.Build refuses a cycle, so the superclasses are a tree.
mutual
  pub data Class : Type 0 where
    class : ClassFacts → Classes → Class

  pub data Classes : Type 0 where
    nil : Classes
    cons : Class → Classes → Classes

abbrev pub facts : Class → ClassFacts
facts (class f sups) = f

abbrev pub superiors : Class → Classes
superiors (class f sups) = sups

-- a == b, of pointers to classes
abbrev pub same_class : Class → Class → Bool
same_class a b = (facts a).ref == (facts b).ref

pub record Attribute : Type 0 where
  pub name : Text
  pub values : List Text

-- schema.Problem
pub data ProblemKind : Type 0 where
  not_allowed unknown_attribute precluded : ProblemKind
  auxiliary_not_allowed missing_required other_problem : ProblemKind

pub record Problem : Type 0 where
  pub kind : ProblemKind
  pub attribute : Text
  pub class : Text

-- What schema.Validate answers: nil, a ValidationError, or another error.
pub data Judgement : Type 0 where
  passes broken : Judgement
  problems : List Problem → Judgement

-- What GoverningStructureRule answers: a rule (its pointer, or nil), or an error, which is a
-- ValidationError with a NameFormViolation or not.
pub data Governed : Type 0 where
  governed_by : Option ℕ → Governed
  name_form_violation unplaced : Governed

-- schema.Schema
pub record Schema : Type 0 where
  -- Validate
  pub judge : Text → List Attribute → Judgement
  -- ObjectClass, ObjectClasses and the classes' IsA
  pub object_class : Text → Option Class
  pub object_classes : List Class
  pub is_class : Class → Class → Bool
  -- AttributeType, Describe where it is ok, and the types' IsA
  pub attribute_type : Text → Option ℕ
  pub describe : Text → Option ℕ
  pub is_type : ℕ → ℕ → Bool
  -- DITContentRuleOf: the rule's name
  pub content_rule : Class → Option Text
  -- DITStructureRules: whether each is obsolete
  pub structure_rules : List Bool
  pub govern : Text → List Attribute → Option ℕ → Governed
  -- DNValues(dn)[0].Type, where there is one
  pub first_type : Text → Option Text
  -- ldap.DefaultMaxMessageSize
  pub max_message : ℕ

module _ (s : Schema) where
  unfoldable mutual
    -- The schema finds a class and its superclasses by their names.
    pub Resolves : Class → Type 0
    Resolves (class f sups) = (s.object_class f.name ≡ some (class f sups)) × ResolvesAll sups

    pub ResolvesAll : Classes → Type 0
    ResolvesAll nil = Unit
    ResolvesAll (cons c cs) = Resolves c × ResolvesAll cs

-- slices.Contains, of attribute types.
abbrev pub has_type : List ℕ → ℕ → Bool
has_type types t = any (λ m. m == t) types

unfoldable mutual
  -- MustTypes() of a class has those of its superclasses.
  pub Inherits : Class → Type 0
  Inherits (class f sups) = InheritsAll f.must sups

  pub InheritsAll : List ℕ → Classes → Type 0
  InheritsAll must nil = Unit
  InheritsAll must (cons c cs) =
      All (λ m. has_type must m ≡ true) (facts c).must × Inherits c × InheritsAll must cs

unfoldable mutual
  -- Some superclass, at any depth, is one of `p`.
  pub any_above : (Class → Bool) → Class → Bool
  any_above p (class f sups) = any_among p sups

  pub any_among : (Class → Bool) → Classes → Bool
  any_among p nil = false
  any_among p (cons c cs) = p c || any_above p c || any_among p cs
