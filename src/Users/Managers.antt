-- ===== src/Users/Managers.antt =====
-- services/core_api/apps/users/managers.py, and the columns of users/models.py. `normalize_email`
-- and the hash of a password are the framework's, and are parameters.
use orbit_commerce_platform.Catalog.Models.{Uuid, Time}
use orbit_commerce_platform.Prelude.{
  Text, Bool, List, Option, ◌||◌, ◌∷◌, [], true, false, some, if◌then◌else◌, none, text_eq,
}

pub data Role : Type 0 where
  customer_role staff_role admin_role : Role

pub record User : Type 0 where
  pub id : Uuid
  pub created_at : Time
  pub email : Text
  pub password : Text
  pub first_name : Text
  pub last_name : Text
  pub role : Role
  pub is_active : Bool
  pub is_staff : Bool
  pub is_superuser : Bool

-- `extra_fields`: what the caller gave of the other columns.
pub record ExtraFields : Type 0 where
  pub first_name : Option Text
  pub last_name : Option Text
  pub role : Option Role
  pub is_active : Option Bool
  pub is_staff : Option Bool
  pub is_superuser : Option Bool

pub data Failure : Type 0 where
  no_email not_staff not_superuser email_taken : Failure

pub data Created : Type 0 where
  created : User → Created
  failed : Failure → Created

unfoldable pub given_or {ℓ} : {A : Type ℓ} → Option A → A → A
given_or none d = d
given_or (some a) d = a

unfoldable pub email_used : Text → List User → Bool
email_used email [] = false
email_used email (u ∷ users) = text_eq email u.email || email_used email users

-- `id` and `now` are what `uuid4` and the clock give to a new row.
module _ (normalize hash : Text → Text) (id : Uuid) (now : Time) where
  -- `self.model(email=email, **extra_fields)` with the defaults of the columns, and `set_password`.
  unfoldable pub build_user : Text → Text → ExtraFields → User
  unfolding given_or
  build_user email password extra = record {
    id = id;
    created_at = now;
    email = email;
    password = hash password;
    first_name = given_or extra.first_name [];
    last_name = given_or extra.last_name [];
    role = given_or extra.role customer_role;
    is_active = given_or extra.is_active true;
    is_staff = given_or extra.is_staff false;
    is_superuser = given_or extra.is_superuser false;
  }

  -- `user.save()`; the column `email` is unique.
  unfoldable pub save_user : User → List User → Created × List User
  unfolding email_used
  save_user u users =
      if email_used u.email users then (failed email_taken, users) else (created u, u ∷ users)

  unfoldable pub make_user : Text → Text → ExtraFields → List User → Created × List User
  unfolding build_user save_user
  make_user [] password extra users = (failed no_email, users)
  make_user (c ∷ cs) password extra users =
      save_user (build_user (normalize (c ∷ cs)) password extra) users

  unfoldable pub create_user : Text → Text → ExtraFields → List User → Created × List User
  unfolding make_user given_or
  create_user email password extra users =
      let filled = record extra {
        is_staff = some (given_or extra.is_staff false);
        is_superuser = some (given_or extra.is_superuser false);
      } in
      make_user email password filled users

  unfoldable pub create_superuser : Text → Text → ExtraFields → List User → Created × List User
  unfolding make_user given_or
  create_superuser email password extra users =
      let filled = record extra {
        is_staff = some (given_or extra.is_staff true);
        is_superuser = some (given_or extra.is_superuser true);
      } in
      let made = make_user email password filled users in
      if given_or extra.is_staff true
      then (if given_or extra.is_superuser true then made else (failed not_superuser, users))
      else (failed not_staff, users)
