-- ===== src/Injection/Signature.antt =====
-- src/backend/shared/di/depends.py and __init__.py: the markers of a function's parameters, and the
-- signature that `inject` leaves.
use litestar_cqrs_example.Common.{
  ℕ, String, Option, none, some, List, [], ◌∷◌, map, nat_beq, if◌then◌else◌,
}
use litestar_cqrs_example.Injection.{Key}
pub mod Split
pub mod Filled

-- What an object is to `extract_depends`: the class `Depends`, a marker that exists, or another
-- object, also `inspect.Parameter.empty`.
pub data What : Type 0 where
  depends_class something : What
  depends_marker : ℕ → What

pub record Object : Type 0 where
  pub itself : Key
  pub what : What

-- `get_origin` of an annotation
pub data Origin : Type 0 where
  depends_origin annotated_origin other_origin : Origin

-- An annotation with its origin and its `get_args`
pub record Annotation : Type 0 where
  pub itself : Key
  pub origin : Origin
  pub args : List Object

-- `inspect.Parameter`
pub record Parameter : Type 0 where
  pub name : String
  pub default : Object
  pub annotation : Annotation

-- The `dependency` of each marker that exists
abbrev pub Store : Type 0
Store = ℕ → Option Key

-- A marker that existed, or a new one for a dependency.
pub data Found : Type 0 where
  shared : ℕ → Found
  made : Key → Found

-- `if default.dependency is None: default.dependency = annotation`
abbrev pub fill_with : Option Key → ℕ → Key → Store → Store
fill_with (some _) i k st = st
fill_with none i k st = λ j. if nat_beq j i then some k else st j

abbrev pub fill_dependency : ℕ → Key → Store → Store
fill_dependency i k st = fill_with (st i) i k st

abbrev pub from_first : Key → What → Store → Option Found × Store
from_first k depends_class st = (some (made k), st)
from_first k (depends_marker i) st = (some (shared i), fill_dependency i k st)
from_first k something st = (none, st)

-- `_from_annotation`
abbrev pub from_annotation : Origin → List Object → Store → Option Found × Store
from_annotation other_origin args st = (none, st)
from_annotation depends_origin [] st = (none, st)
from_annotation depends_origin (x ∷ rest) st = (some (made x.itself), st)
from_annotation annotated_origin [] st = (none, st)
from_annotation annotated_origin (x ∷ []) st = (none, st)
from_annotation annotated_origin (x ∷ (first ∷ rest)) st = from_first x.itself first.what st

abbrev pub from_default : What → Annotation → Store → Option Found × Store
from_default (depends_marker i) annotation st =
    (some (shared i), fill_dependency i annotation.itself st)
from_default depends_class annotation st = (some (made annotation.itself), st)
from_default something annotation st = from_annotation annotation.origin annotation.args st

unfoldable pub extract_depends : Parameter → Store → Option Found × Store
extract_depends p st = from_default p.default.what p.annotation st

abbrev pub kept_unless : Option Found → Parameter → List Parameter → List Parameter
kept_unless none p rest = p ∷ rest
kept_unless (some _) p rest = rest

-- The parameters from which nothing is extracted
unfoldable pub without_depends : List Parameter → Store → List Parameter × Store
without_depends [] st = ([], st)
without_depends (p ∷ ps) st =
    let (found, st') = extract_depends p st in
    let (rest, st'') = without_depends ps st' in (kept_unless found p rest, st'')

abbrev pub annotations_of : List Parameter → List (String × Key)
annotations_of = map (λ p. (p.name, p.annotation.itself))

-- The annotations and the parameters of the new signature
unfoldable pub remove_depends :
    List Parameter → Store → (List (String × Key) × List Parameter) × Store
unfolding without_depends
remove_depends parameters st =
    let (new_sig, st') = without_depends parameters st in
    let (rest, st'') = without_depends parameters st' in ((annotations_of new_sig, rest), st'')

abbrev pub marked_if : Option Found → String → List (String × Found) → List (String × Found)
marked_if none name rest = rest
marked_if (some found) name rest = (name, found) ∷ rest

-- `cache` of `inject`
unfoldable pub markers_of : List Parameter → Store → List (String × Found) × Store
unfolding extract_depends
markers_of [] st = ([], st)
markers_of (p ∷ ps) st =
    let (found, st') = extract_depends p st in
    let (rest, st'') = markers_of ps st' in (marked_if found p.name rest, st'')

-- What `inject` reads from a signature: the annotations and the parameters of the wrapper, and the
-- markers of the dependencies
pub record Injected : Type 0 where
  pub annotations : List (String × Key)
  pub parameters : List Parameter
  pub cache : List (String × Found)
  pub store : Store

unfoldable pub read_signature : List Parameter → Store → Injected
unfolding remove_depends markers_of
read_signature parameters st =
    let ((annotations, rest), st') = remove_depends parameters st in
    let (cache, st'') = markers_of parameters st' in
    record { annotations = annotations; parameters = rest; cache = cache; store = st'' }
