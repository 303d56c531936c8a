-- ===== src/Filters/Tests.antt =====
-- The first example of the docstring of `make_filter_query`, and the theorems at it.
use litestar_cqrs_example.Common.{
  String, ◌≡◌, refl, Bool, true, false, Option, none, some, List, [], ◌∷◌, nat_eq, string_eq,
}
use litestar_cqrs_example.Errors.{ok, raise}
use litestar_cqrs_example.Filters.{
  Python, Hint, annotated, Field, Owned, Override, type_err, parse_metadata, override_default_meta,
  is_required, field_of, fields_of, hashed, ordered, make_filter_query,
}

data Kind : Type 0 where
  bool_kind str_kind : Kind
  or_none_of : Kind → Kind

data Literal : Type 0 where
  str_literal : String → Literal
  bool_literal : Bool → Literal
  none_literal : Literal

abbrev text_of : Literal → Option String
text_of (str_literal s) = some s
text_of _ = none

abbrev kind_name : Literal → String
kind_name (str_literal s) = "str"
kind_name (bool_literal b) = "bool"
kind_name none_literal = "NoneType"

abbrev has_none : Kind → Bool
has_none (or_none_of k) = true
has_none _ = false

abbrev lang : Python Kind Literal
lang = record {
  as_str = text_of;
  type_name = kind_name;
  has_hash = λ _. true;
  text = str_literal;
  flag = bool_literal;
  none_value = none_literal;
  is_optional = has_none;
  or_none = or_none_of;
}

abbrev login_hint : String × Hint Kind Literal
login_hint = ("login", annotated str_kind (str_literal "User login" ∷ []))

abbrev is_active : String × Hint Kind Literal
is_active = ("is_active", annotated bool_kind (bool_literal true ∷ []))

abbrev user_filter : List (String × Hint Kind Literal) → Owned Kind Literal
user_filter hints = record {
  name = "UserFilter";
  hints = hints;
  dc_fields = λ _. none;
  required_keys = some [];
}

abbrev unchanged : String → Option (Override Literal)
unchanged _ = none

abbrev fields : List (Field Kind Literal)
fields =
    record {
      name = "login";
      tp = str_kind;
      param = ("description", str_literal "User login") ∷ ("required", bool_literal true) ∷ [];
      default = none;
    }
    ∷ record {
      name = "is_active";
      tp = or_none_of bool_kind;
      param =
          ("description", str_literal "Optional `filter`")
          ∷ ("required", bool_literal false)
          ∷ ("default", bool_literal true)
          ∷ [];
      default = some (bool_literal true);
    }
    ∷ []

runs : Unit {0}
unfolding make_filter_query fields_of field_of parse_metadata override_default_meta is_required
    hashed ordered
runs = tt

-- With the required key in front the class is made; as the docstring writes it, it is not.
made :
    make_filter_query lang (user_filter (login_hint ∷ is_active ∷ [])) ("login" ∷ []) unchanged
    ≡ ok fields
unfolding runs
made = refl

docstring :
    make_filter_query lang (user_filter (is_active ∷ login_hint ∷ [])) ("login" ∷ []) unchanged
    ≡ raise (type_err "non-default argument follows default argument")
unfolding runs
docstring = refl
