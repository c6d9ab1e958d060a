-- ===== src/Common/Health.antt =====
-- services/core_api/apps/common/views.py and permissions.py. How each call of the two dependencies
-- ends is a parameter.
use orbit_commerce_platform.Catalog.Models.{Time, Uuid}
use orbit_commerce_platform.Prelude.{
  ◌⊎◌, ◌↔◌, ◌≡◌, none, false, ℕ, String, Bool, ◌&&◌, Option, if◌then◌else◌, true, some, ◌≡◌, false,
  ◌↔◌, ◌==◌, arith, inr, inl, refl,
}

pub record Health : Type 0 where
  pub status : String
  pub timestamp : Time
  pub database : Bool
  pub cache : Bool
  pub status_code : ℕ

-- `HealthCheckView.get`
unfoldable pub health_check : Bool → Bool → Time → Health
health_check database_answers cache_answers now =
    let healthy = database_answers && cache_answers in
    record {
      status = if healthy then "ok" else "degraded";
      timestamp = now;
      database = database_answers;
      cache = cache_answers;
      status_code = if healthy then 200 else 503;
    }

-- The answer is 200 exactly if both dependencies answer, and 503 otherwise.
pub health_check_ready :
    (database cache : Bool) (now : Time)
    → (((health_check database cache now).status_code ≡ 200) ↔ ((database ≡ true) × (cache ≡ true)))
      × (((health_check database cache now).status_code ≡ 503)
          ↔ ((database ≡ false) ⊎ (cache ≡ false)))
unfolding health_check
health_check_ready true true now =
    ((λ h. (refl, refl), λ h. refl), (λ h. absurd (omega (arith, h)), λ h. ground arith))
health_check_ready true false now =
    ((λ h. absurd (omega (arith, h)), λ h. ground arith), (λ h. inr refl, λ h. refl))
health_check_ready false cache now =
    ((λ h. absurd (omega (arith, h)), λ h. ground arith), (λ h. inl refl, λ h. refl))

-- How a call of a dependency ends; what it returns is not looked at.
pub data Probe : Type 0 where
  returned raised : Probe

-- `_check_database`: a cursor is opened, and a query executed with it.
pub check_database : Probe → Probe → Bool
check_database raised executed = false
check_database returned raised = false
check_database returned returned = true

-- `_check_cache`: a ping.
pub check_cache : Probe → Bool
check_cache raised = false
check_cache returned = true

unfoldable pub health_get : Probe → Probe → Probe → Time → Health
unfolding health_check check_database check_cache
health_get opened executed pinged now =
    health_check (check_database opened executed) (check_cache pinged) now

raised-ne-returned : raised ≡ returned → ⊥
raised-ne-returned h = cc

-- However the calls end there is an answer, and it is 200 exactly if all three returned.
pub health_get_ready :
    (opened executed pinged : Probe) (now : Time)
    → ((health_get opened executed pinged now).status_code ≡ 200)
      ↔ ((opened ≡ returned) × (executed ≡ returned) × (pinged ≡ returned))
unfolding health_get check_database check_cache health_check
health_get_ready returned returned returned now = (λ h. (refl, refl, refl), λ h. refl)
health_get_ready returned returned raised now =
    (λ h. absurd (omega (arith, h)), λ h. absurd (raised-ne-returned h.2))
health_get_ready returned raised pinged now =
    (λ h. absurd (omega (arith, h)), λ h. absurd (raised-ne-returned h.1))
health_get_ready raised executed pinged now =
    (λ h. absurd (omega (arith, h)), λ h. absurd (raised-ne-returned h.0))

-- The methods of a request; the first three are `SAFE_METHODS`.
pub data Method : Type 0 where
  method_get method_head method_options method_post method_put method_patch method_delete : Method

unfoldable pub is_safe : Method → Bool
is_safe method_get = true
is_safe method_head = true
is_safe method_options = true
is_safe _ = false

-- `IsStaffOrReadOnly`, on whether the request has an authenticated user, and whether it is staff.
unfoldable pub is_staff_or_read_only : Method → Bool → Bool → Bool
unfolding is_safe
is_staff_or_read_only method authenticated staff = if is_safe method then authenticated else staff

unfoldable pub first_of : {A : Type 0} → Option A → Option A → Option A
first_of (some a) b = some a
first_of none b = b

-- `IsOwnerOrReadOnly`: the object's `customer`, or else its `user`, is the user of the request.
unfoldable pub is_owner_or_read_only : Method → Option Uuid → Option Uuid → Uuid → Bool
unfolding is_safe first_of
is_owner_or_read_only method customer user requester =
    if is_safe method
    then true
    else (elim (first_of customer user) [ none ↦ false | some owner ↦ owner == requester ])
