-- ===== src/Filters.antt =====
-- src/backend/http/common/tools/query.py: the query class that `make_filter_query` makes of the
-- fields of a typed dictionary or a dataclass.
pub mod Laws
pub mod Defaults
mod Tests
use litestar_cqrs_example.Common.{
  String, Bool, true, false, not, ◌&&◌, ◌||◌, Option, none, some, List, [], ◌∷◌, ◌++◌,
  if◌then◌else◌, ◌==◌, nat_eq, string_eq, length, is_empty, contains, ◌+s◌, str_truthy, str_nat,
}
use litestar_cqrs_example.Errors
use litestar_cqrs_example.Errors.{
  type_error, value_error, not_implemented_error, py, Exc, Try, ok, raise, require,
}

-- What Python tells of types and values: whether a value is a text, the name of its type, whether
-- it has a hash; and whether a type has `None` in it.
pub record Python (T V : Type 0) : Type 0 where
  pub as_str : V → Option String
  pub type_name : V → String
  pub has_hash : V → Bool
  pub text : String → V
  pub flag : Bool → V
  pub none_value : V
  pub is_optional : T → Bool
  pub or_none : T → T

-- A type hint, `Annotated` or not.
pub data Hint (T V : Type 0) : Type 0 where
  plain : T → Hint T V
  annotated : T → List V → Hint T V

-- `_unwrap_annotated`
abbrev pub unwrap_annotated : {T V : Type 0} → Hint T V → T × List V
unwrap_annotated (plain tp) = (tp, [])
unwrap_annotated (annotated base metadata) = (base, metadata)

-- What `dataclasses.fields` tells of a field.
pub record DcField (V : Type 0) : Type 0 where
  pub default : Option V
  pub has_factory : Bool

-- A value of `param_overrides`
pub data Override (V : Type 0) : Type 0 where
  settings : List (String × V) → Override V
  not_dict : Override V

pub record Field (T V : Type 0) : Type 0 where
  pub name : String
  pub tp : T
  -- The keywords of `Parameter`, the first of a name counts.
  pub param : List (String × V)
  pub default : Option V

-- The class: its hints, the fields of a dataclass, the keys of `__required_keys__`.
pub record Owned (T V : Type 0) : Type 0 where
  pub name : String
  pub hints : List (String × Hint T V)
  pub dc_fields : String → Option (DcField V)
  pub required_keys : Option (List String)

abbrev pub type_err : String → Exc
type_err text = py type_error (text ∷ [])

-- `d.get(key)` and `d.pop(key)`
abbrev value_at : {V : Type 0} → String → List (String × V) → Option V
value_at key [] = none
value_at key ((k, v) ∷ d) = if k == key then some v else value_at key d

abbrev without_key : {V : Type 0} → String → List (String × V) → List (String × V)
without_key key [] = []
without_key key ((k, v) ∷ d) =
    let rest = without_key key d in if k == key then rest else (k, v) ∷ rest

module _ {T V : Type 0} (lang : Python T V) (cls : Owned T V) where
  -- `_parse_metadata`; no default is `_DEFAULT`.
  unfoldable pub parse_metadata : List V → (field_name : String) → Try (Option String × Option V)
  parse_metadata [] field_name = ok (none, none)
  parse_metadata (m ∷ []) field_name = elim (lang.as_str m) [
    | some s ↦ ok (some s, none)
    | none ↦ ok (none, some m)
  ]
  parse_metadata (desc ∷ default ∷ []) field_name = elim (lang.as_str desc) [
    | some s ↦ ok (some s, some default)
    | none ↦ raise (
        type_err (
          cls.name
          +s "."
          +s field_name
          +s ": Annotated expects "
          +s "first meta to be str (description) "
          +s "when two metadata are provided, got "
          +s lang.type_name desc))
  ]
  parse_metadata (a ∷ b ∷ d ∷ more) field_name = raise (
      type_err (
        cls.name
        +s "."
        +s field_name
        +s ": Annotated supports at most two metadata items "
        +s "(description[, default]); got "
        +s str_nat (length (a ∷ b ∷ d ∷ more))))

  -- `_override_default_meta`: the default, which is also the keyword `default` where it is given.
  class_default : String → Option (DcField V) → Try (Option V)
  class_default key none = ok none
  class_default key (some f) = elim f.default [
    | some v ↦ ok (some v)
    | none ↦
        if f.has_factory
        then raise (
            py not_implemented_error (("default_factory for " +s key +s " not supported yet") ∷ []))
        else ok none
  ]

  unfoldable pub override_default_meta : Option V → String → Try (Option V)
  unfolding class_default
  override_default_meta (some v) key = ok (some v)
  override_default_meta none key = class_default key (cls.dc_fields key)

  abbrev described : Option String → Bool → String
  described none needed = if needed then "Required `filter`" else "Optional `filter`"
  described (some s) needed =
      if str_truthy s then s else if needed then "Required `filter`" else "Optional `filter`"

  abbrev or_value : Option V → V → V
  or_value none v = v
  or_value (some w) v = w

  abbrev default_keyword : Option V → List (String × V)
  default_keyword none = []
  default_keyword (some v) = ("default", v) ∷ []

  abbrev pub dict_of : Option (Override V) → Try (List (String × V))
  dict_of none = ok []
  dict_of (some (settings d)) = ok d
  dict_of (some not_dict) =
      raise (type_err "value in `params_overrides` dict should be dict as well")

  -- `{**param_kwargs, **additional}`
  abbrev keywords :
      List (String × V)
      → (desc : String) → (needed : Bool) → (default : Option V) → List (String × V)
  keywords additional desc needed default =
      without_key "required" (without_key "description" additional)
      ++ (("description", or_value (value_at "description" additional) (lang.text desc))
          ∷ ("required", or_value (value_at "required" additional) (lang.flag needed))
          ∷ default_keyword default)

  abbrev known_keys : Option (List String) → List String
  known_keys none = []
  known_keys (some keys) = keys

  abbrev has_keys : Option (List String) → Bool
  has_keys none = false
  has_keys (some _) = true

  -- `is_required`, for the further keys of the call
  unfoldable pub is_required : (required : List String) → String → (base : T) → Bool
  is_required required key base =
      if has_keys cls.required_keys || not (is_empty required)
      then contains (known_keys cls.required_keys ++ required) key
      else not (lang.is_optional base)

  abbrev pub field_default : (needed : Bool) → Option V → Option V
  field_default needed (some v) = some v
  field_default true none = none
  field_default false none = some lang.none_value

  abbrev pub effective : (needed : Bool) → T → T
  effective needed base =
      if not needed && not (lang.is_optional base) then lang.or_none base else base

  -- One round of the loop.
  unfoldable pub field_of :
      (required : List String)
      → (overrides : String → Option (Override V)) → String
      → Hint T V
      → Try (Field T V)
  unfolding parse_metadata override_default_meta is_required
  field_of required overrides key hint =
      let (base, metadata) = unwrap_annotated hint in
      let needed = is_required required key base in
      Errors.◌>>=◌ (parse_metadata metadata key) λ (desc, given).
        Errors.◌>>=◌ (dict_of (overrides key)) λ additional.
          Errors.◌>>=◌ (override_default_meta given key) λ default. ok (record {
            name = key;
            tp = effective needed base;
            param = keywords additional (described desc needed) needed default;
            default = field_default needed default;
          })

  unfoldable pub fields_of :
      (required : List String)
      → (overrides : String → Option (Override V)) → List (String × Hint T V)
      → Try (List (Field T V))
  unfolding field_of
  fields_of required overrides [] = ok []
  fields_of required overrides ((key, hint) ∷ hints) =
      Errors.◌>>=◌ (field_of required overrides key hint)
        λ f. Errors.◌>>=◌ (fields_of required overrides hints) λ fs. ok (f ∷ fs)

  -- `dataclasses` refuses a default without a hash, and then a field without a default behind one
  -- with a default.
  unfoldable hashed : List (Field T V) → Try (Unit {0})
  hashed [] = ok tt
  hashed (f ∷ fs) = elim f.default [
    | none ↦ hashed fs
    | some v ↦
        Errors.◌>>◌ (require (lang.has_hash v) (py value_error ("mutable default" ∷ [])))
          (hashed fs)
  ]

  unfoldable pub ordered : (seen_default : Bool) → List (Field T V) → Try (Unit {0})
  ordered seen_default [] = ok tt
  ordered seen_default (f ∷ fs) = elim f.default [
    | some v ↦ ordered true fs
    | none ↦
        Errors.◌>>◌
          (require (not seen_default) (type_err "non-default argument follows default argument"))
          (ordered seen_default fs)
  ]

  -- `make_filter_query`, the fields of the class that it makes
  unfoldable pub make_filter_query :
      (required : List String) → (overrides : String → Option (Override V)) → Try (List (Field T V))
  unfolding fields_of hashed ordered
  make_filter_query required overrides =
      Errors.◌>>=◌ (fields_of required overrides cls.hints)
        λ fs. Errors.◌>>◌ (hashed fs) (Errors.◌>>◌ (ordered false fs) (ok fs))
