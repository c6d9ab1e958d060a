-- ===== src/Common/Exceptions.antt =====
-- services/core_api/apps/common/exceptions.py, and the exceptions that the services can raise.
use orbit_commerce_platform.Prelude.{ℕ, String, Bool, true, false, Option, none, some}
use orbit_commerce_platform.Orders.Models.{Status}

-- `insufficient_stock n name` is `InsufficientStockError("Only n unit(s) left for 'name'.")`, and
-- `not_cancellable s` the `DomainError` of `cancel_order`; each constructor holds what its message
-- is made of. The others come from the framework: a failed `get`, a `save` that the database
-- refuses, a task that the Celery broker refuses, and a request that fails validation.
pub data Error : Type 0 where
  insufficient_stock : ℕ → String → Error
  not_cancellable : Status → Error
  does_not_exist : Error
  database_error : Error
  task_refused : Error
  not_found : Error
  not_authenticated : Error
  invalid : Error

pub data Result (A : Type 0) : Type 0 where
  ok : A → Result A
  err : Error → Result A

-- `isinstance(exc, DomainError)`
unfoldable pub is_domain_error : Error → Bool
is_domain_error (insufficient_stock n name) = true
is_domain_error (not_cancellable s) = true
is_domain_error _ = false

-- `exc.__class__.__name__`; the names of the framework's classes are given by the caller.
unfoldable pub class_name : (Error → String) → Error → String
class_name framework (insufficient_stock n name) = "InsufficientStockError"
class_name framework (not_cancellable s) = "DomainError"
class_name framework e = framework e

-- `{"error": {"detail": ..., "code": ...}}` with the status code of the response. The detail is
-- the exception, from which its message is rendered.
pub record ErrorResponse : Type 0 where
  pub status_code : ℕ
  pub detail : Error
  pub code : String

-- `framework` names the framework's exceptions, and `handler` is the status code that the
-- framework's own `exception_handler` answers with, if it answers at all.
unfoldable pub api_exception_handler :
    (Error → String) → (Error → Option ℕ) → Error → Option ErrorResponse
unfolding is_domain_error class_name
api_exception_handler framework handler exc = elim (is_domain_error exc) [
  | true ↦ some (record { status_code = 400; detail = exc; code = class_name framework exc })
  | false ↦ elim (handler exc) [
    | none ↦ none
    | some status ↦
        some (record { status_code = status; detail = exc; code = class_name framework exc })
  ]
]
