-- ===== src/Filters/Defaults.antt =====
-- What a request may leave out of a query: the defaults of the class's fields.
use litestar_cqrs_example.Common.{
  String, ◌≡◌, ◌↔◌, ◌⊎◌, true, Option, none, some, List, [], ◌∷◌, nat_eq, string_eq,
}
use litestar_cqrs_example.Filters.{
  Python, Hint, unwrap_annotated, DcField, Field, Owned, is_required,
}

module _ {T V : Type 0} (lang : Python T V) (cls : Owned T V) where
  -- The default that the metadata gives: a single item that is no text, or the second of two.
  abbrev meta_default : List V → Option V
  meta_default [] = none
  meta_default (m ∷ []) = elim (lang.as_str m) [ some s ↦ none | none ↦ some m ]
  meta_default (desc ∷ default ∷ []) = some default
  meta_default (a ∷ b ∷ d ∷ more) = none

  abbrev own_default : Option (DcField V) → Option V
  own_default none = none
  own_default (some f) = f.default

  -- A field for a hint: of its name, without a default exactly where it is required and neither its
  -- metadata nor the dataclass gives one, and with `None` in its type where it is not required.
  abbrev pub Describes : (required : List String) → String → Hint T V → Field T V → Type 0
  Describes required key hint f =
      (f.name ≡ key)
      × ((f.default ≡ none) ↔ (
          (is_required lang cls required key (unwrap_annotated hint).0 ≡ true)
          × (meta_default (unwrap_annotated hint).1 ≡ none)
          × (own_default (cls.dc_fields key) ≡ none)))
      × ((is_required lang cls required key (unwrap_annotated hint).0 ≡ true)
          ⊎ (lang.is_optional f.tp ≡ true))

  abbrev pub Made : (required : List String) → List (String × Hint T V) → List (Field T V) → Type 0
  Made required [] [] = Unit
  Made required [] (f ∷ fs) = ⊥
  Made required (h ∷ hints) [] = ⊥
  Made required ((key, hint) ∷ hints) (f ∷ fs) =
      Describes required key hint f × Made required hints fs

  abbrev first_of : Option V → Option V → Option V
  first_of (some v) w = some v
  first_of none w = w
