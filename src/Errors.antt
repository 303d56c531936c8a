-- ===== src/Errors.antt =====
-- src/backend/app/contracts/exceptions.py: the application's errors, and Python exceptions beside
-- them. A computation that may raise returns a `Try`.
use litestar_cqrs_example.Common.{
  String, Bool, true, false, ◌≡◌, refl, ◌↔◌, ◌⊎◌, inl, inr, Option, none, some, List, [], ◌∷◌, ◌++◌,
  if◌then◌else◌, str_truthy,
}

-- One constructor for each class of exceptions.py, in its order.
pub data ErrorClass : Type 0 where
  app_error detailed_error un_authorized_error not_found_error bad_request_error : ErrorClass
  too_many_requests_error service_unavailable_error forbidden_error : ErrorClass
  service_not_implemented_error conflict_error request_timeout_error : ErrorClass
  unprocessable_entity_error : ErrorClass

-- `cls.message`; `DetailedError` inherits the one of `AppError`.
unfoldable pub class_message : ErrorClass → String
class_message app_error = "App exception"
class_message detailed_error = "App exception"
class_message un_authorized_error = "Unauthorized"
class_message not_found_error = "Not Found"
class_message bad_request_error = "Bad Request"
class_message too_many_requests_error = "Too Many Requests"
class_message service_unavailable_error = "Service Unavailable"
class_message forbidden_error = "Forbidden"
class_message service_not_implemented_error = "Not Implemented"
class_message conflict_error = "Conflict"
class_message request_timeout_error = "Request Timeout"
class_message unprocessable_entity_error = "Unprocessable Entity"

-- An instance: its class and the entries of `content`; `context` holds the keyword arguments of a
-- `DetailedError`.
pub record AppError : Type 0 where
  pub cls : ErrorClass
  pub message : String
  pub code : Option String
  pub context : List (String × String)

-- `a or b` on texts
abbrev pub or_text : Option String → String → String
or_text none d = d
or_text (some s) d = if str_truthy s then s else d

-- `if code: self.content["code"] = code`
abbrev kept_code : Option String → Option String
kept_code none = none
kept_code (some c) = if str_truthy c then some c else none

-- `AppError.__init__` and `DetailedError.__init__`
unfoldable pub new_error :
    ErrorClass → Option String → Option String → List (String × String) → AppError
new_error cls message code context = record {
  cls = cls;
  message = or_text message (class_message cls);
  code = kept_code code;
  context = context;
}

-- `raw_message` and `raw_code`
unfoldable pub raw_message : AppError → String
raw_message e = or_text (some e.message) (class_message e.cls)

abbrev pub raw_code : AppError → Option String
raw_code e = e.code

-- `DetailedError.from_other`, a class method of every class below it
unfoldable pub from_other : ErrorClass → AppError → AppError
unfolding new_error raw_message class_message
from_other cls other =
    new_error cls (some (class_message cls)) (raw_code other) (("detail", raw_message other) ∷ [])

abbrev code_entry : Option String → List (String × String)
code_entry none = []
code_entry (some c) = ("code", c) ∷ []

-- `as_dict()["content"]`, the body of the error's response
unfoldable pub as_dict : AppError → List (String × String)
as_dict e = ("message", e.message) ∷ (code_entry e.code ++ e.context)

-- The exceptions of Python and of the packages that the model meets, beside `AppError`.
pub data PyClass : Type 0 where
  value_error type_error key_error attribute_error assertion_error runtime_error : PyClass
  zero_division_error lock_error index_error not_implemented_error : PyClass
  unbound_local_error library_error : PyClass

pub data Exc : Type 0 where
  app : AppError → Exc
  -- `SQLAlchemyError`, with the text of `_message()`
  sqlalchemy : String → Exc
  py : PyClass → (args : List String) → Exc

pub data Try {ℓ} (A : Type ℓ) : Type ℓ where
  ok : A → Try A
  raise : Exc → Try A

-- A statement after another, neither a coroutine.
infixl 5 ◌>>=◌ ◌>>◌
abbrev pub ◌>>=◌ {ℓ κ} : {A : Type ℓ} {B : Type κ} → Try A → (A → Try B) → Try B
ok a >>= f = f a
raise e >>= f = raise e

abbrev pub ◌>>◌ {ℓ κ} : {A : Type ℓ} {B : Type κ} → Try A → Try B → Try B
t >> u = t >>= λ _. u

pub ok_inj {ℓ} : {A : Type ℓ} {x y : A} → ok x ≡ ok y → x ≡ y
ok_inj h = cc h

pub Try-cases {ℓ} : {A : Type ℓ} (t : Try A) → ((a : A) × (t ≡ ok a)) ⊎ ((e : Exc) × (t ≡ raise e))
Try-cases (ok a) = inl (a, refl)
Try-cases (raise e) = inr (e, refl)

-- A sequence of two computations succeeds exactly where both do.
pub bind-ok {ℓ κ} :
    {A : Type ℓ} {B : Type κ} (t : Try A) (f : A → Try B) (b : B)
    → ((t >>= f) ≡ ok b) ↔ ((a : A) × (t ≡ ok a) × (f a ≡ ok b))
bind-ok (ok a) f b = (λ h. (a, refl, h), λ (a', e, h). cc)
bind-ok (raise x) f b = (λ h. absurd (cc h), λ (a', e, h). absurd (cc e))

-- `if not test: raise e`
abbrev pub require : Bool → Exc → Try (Unit {0})
require true e = ok tt
require false e = raise e
