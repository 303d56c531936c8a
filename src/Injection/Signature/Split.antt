-- ===== src/Injection/Signature/Split.antt =====
-- src/backend/shared/di/depends.py: the parameters of a function are split into those of the new signature and those with a marker.
use litestar_cqrs_example.Common.{
  ℕ, String, ◌≡◌, refl, ap, ◌∙◌, ◌⊎◌, inl, inr, Option, none, some, List, [], ◌∷◌,
}
use litestar_cqrs_example.Injection.{Key}
use litestar_cqrs_example.Injection.Signature.{
  What, depends_class, something, depends_marker, Object, Origin, depends_origin, annotated_origin,
  other_origin, Parameter, Store, Found, shared, made, fill_dependency, from_first, from_annotation,
  from_default, extract_depends, kept_unless, without_depends, markers_of,
}

-- A parameter asks for a marker, to which it gives a dependency: by its default, by `Depends[...]`, or by the
-- first metadata of `Annotated`.
pub data Asks (p : Parameter) : Found → Key → Type 0 where
  default_marker :
      (i : ℕ) → p.default.what ≡ depends_marker i → Asks p (shared i) p.annotation.itself
  default_class :
      p.default.what ≡ depends_class → Asks p (made p.annotation.itself) p.annotation.itself
  subscripted :
      (x : Object) (rest : List Object)
      → p.default.what ≡ something
      → p.annotation.origin ≡ depends_origin
      → p.annotation.args ≡ x ∷ rest
      → Asks p (made x.itself) x.itself
  annotated_class :
      (x first : Object) (rest : List Object)
      → p.default.what ≡ something
      → p.annotation.origin ≡ annotated_origin
      → p.annotation.args ≡ x ∷ (first ∷ rest)
      → first.what ≡ depends_class
      → Asks p (made x.itself) x.itself
  annotated_marker :
      (x first : Object) (rest : List Object) (i : ℕ)
      → p.default.what ≡ something
      → p.annotation.origin ≡ annotated_origin
      → p.annotation.args ≡ x ∷ (first ∷ rest)
      → first.what ≡ depends_marker i
      → Asks p (shared i) x.itself

abbrev pub filled : Found → Key → Store → Store
filled (shared i) k st = fill_dependency i k st
filled (made _) k st = st

-- What an extraction does: it finds nothing, or what the parameter asks for.
abbrev pub Extracted : Parameter → Store → Option Found × Store → Type 0
Extracted p st r =
    (r ≡ (none, st)) ⊎ ((f : Found) × (k : Key) × Asks p f k × (r ≡ (some f, filled f k st)))

from_first-Extracted :
    (p : Parameter) (st : Store) (x first : Object) (rest : List Object) (w : What)
    → p.default.what ≡ something
    → p.annotation.origin ≡ annotated_origin
    → p.annotation.args ≡ x ∷ (first ∷ rest)
    → first.what ≡ w
    → Extracted p st (from_first x.itself w st)
from_first-Extracted p st x first rest depends_class d o a e =
    inr (made x.itself, x.itself, annotated_class x first rest d o a e, refl)
from_first-Extracted p st x first rest (depends_marker i) d o a e =
    inr (shared i, x.itself, annotated_marker x first rest i d o a e, refl)
from_first-Extracted p st x first rest something d o a e = inl refl

from_annotation-Extracted :
    (p : Parameter) (st : Store) (origin : Origin) (args : List Object)
    → p.default.what ≡ something
    → p.annotation.origin ≡ origin
    → p.annotation.args ≡ args
    → Extracted p st (from_annotation origin args st)
from_annotation-Extracted p st other_origin args d o a = inl refl
from_annotation-Extracted p st depends_origin [] d o a = inl refl
from_annotation-Extracted p st depends_origin (x ∷ rest) d o a =
    inr (made x.itself, x.itself, subscripted x rest d o a, refl)
from_annotation-Extracted p st annotated_origin [] d o a = inl refl
from_annotation-Extracted p st annotated_origin (x ∷ []) d o a = inl refl
from_annotation-Extracted p st annotated_origin (x ∷ (first ∷ rest)) d o a =
    from_first-Extracted p st x first rest first.what d o a refl

from_default-Extracted :
    (p : Parameter) (st : Store) (w : What)
    → p.default.what ≡ w
    → Extracted p st (from_default w p.annotation st)
from_default-Extracted p st (depends_marker i) d =
    inr (shared i, p.annotation.itself, default_marker i d, refl)
from_default-Extracted p st depends_class d =
    inr (made p.annotation.itself, p.annotation.itself, default_class d, refl)
from_default-Extracted p st something d =
    from_annotation-Extracted p st p.annotation.origin p.annotation.args d refl refl

pub extract_depends-Extracted : (p : Parameter) (st : Store) → Extracted p st (extract_depends p st)
unfolding extract_depends
extract_depends-Extracted p st = from_default-Extracted p st p.default.what refl

-- What a parameter asks for is found.
pub Asks-found :
    (p : Parameter) (f : Found) (k : Key) (st : Store)
    → Asks p f k
    → (extract_depends p st).0 ≡ some f
unfolding extract_depends
Asks-found p _ _ st (default_marker i d) = ap (λ w. (from_default w p.annotation st).0) d
Asks-found p _ _ st (default_class d) = ap (λ w. (from_default w p.annotation st).0) d
Asks-found p _ _ st (subscripted x rest d o a) =
    ap (λ w. (from_default w p.annotation st).0) d
    ∙ ap (λ o. (from_annotation o p.annotation.args st).0) o
    ∙ ap (λ a. (from_annotation depends_origin a st).0) a
Asks-found p _ _ st (annotated_class x first rest d o a e) =
    ap (λ w. (from_default w p.annotation st).0) d
    ∙ ap (λ o. (from_annotation o p.annotation.args st).0) o
    ∙ ap (λ a. (from_annotation annotated_origin a st).0) a
    ∙ ap (λ w. (from_first x.itself w st).0) e
Asks-found p _ _ st (annotated_marker x first rest i d o a e) =
    ap (λ w. (from_default w p.annotation st).0) d
    ∙ ap (λ o. (from_annotation o p.annotation.args st).0) o
    ∙ ap (λ a. (from_annotation annotated_origin a st).0) a
    ∙ ap (λ w. (from_first x.itself w st).0) e

-- Parameters are divided, in their order, into those that ask for no marker and the names of those
-- that ask for one, with it.
pub data Divides : List Parameter → List Parameter → List (String × Found) → Type 0 where
  no_parameter : Divides [] [] []
  kept_parameter :
      {p : Parameter} {ps kept : List Parameter} {cache : List (String × Found)}
      → ((f : Found) (k : Key) → ¬ (Asks p f k))
      → Divides ps kept cache
      → Divides (p ∷ ps) (p ∷ kept) cache
  marked_parameter :
      {p : Parameter} {ps kept : List Parameter} {cache : List (String × Found)} (f : Found)
      (k : Key)
      → Asks p f k
      → Divides ps kept cache
      → Divides (p ∷ ps) kept ((p.name, f) ∷ cache)

-- Whether a parameter asks for a marker does not depend on the markers.
Asks-decided :
    (p : Parameter)
    → (((f : Found) (k : Key) → ¬ (Asks p f k)) × ((st : Store) → (extract_depends p st).0 ≡ none))
      ⊎ ((f : Found) × (k : Key) × Asks p f k × ((st : Store) → (extract_depends p st).0 ≡ some f))
Asks-decided p = elim (extract_depends-Extracted p (λ _. none)) [
  | inr (f, k, asks, e) ↦ inr (f, k, asks, λ st. Asks-found p f k st asks)
  | inl e ↦
      let none_asked = λ (f : Found) (k : Key) (asks : Asks p f k).
        absurd (cc (Asks-found p f k (λ _. none) asks, ap (λ r. r.0) e)) in
      inl (
        none_asked,
        λ st. elim (extract_depends-Extracted p st) [
          | inl e' ↦ ap (λ r. r.0) e'
          | inr (f, k, asks, e') ↦ absurd (none_asked f k asks)
        ],
      )
]

pub read-Divides :
    (ps : List Parameter) (st st' : Store)
    → Divides ps (without_depends ps st).0 (markers_of ps st').0
unfolding without_depends markers_of
read-Divides [] st st' = no_parameter
read-Divides (p ∷ ps) st st' =
    let rest = read-Divides ps (extract_depends p st).1 (extract_depends p st').1 in
    elim (Asks-decided p) [
      | inl (not_asked, e) ↦ rw (e st, e st') (kept_parameter not_asked rest)
      | inr (f, k, asks, e) ↦ rw (e st, e st') (marked_parameter f k asks rest)
    ]

pub without_depends-same :
    (ps : List Parameter) (st st' : Store) → (without_depends ps st).0 ≡ (without_depends ps st').0
unfolding without_depends
without_depends-same [] st st' = refl
without_depends-same (p ∷ ps) st st' =
    let rest = without_depends-same ps (extract_depends p st).1 (extract_depends p st').1 in
    elim (Asks-decided p) [
      | inl (_, e) ↦ rw (e st, e st') (ap (kept_unless none p) rest)
      | inr (f, k, asks, e) ↦ rw (e st, e st') rest
    ]
