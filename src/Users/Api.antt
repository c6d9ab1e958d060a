-- ===== src/Users/Api.antt =====
-- services/core_api/apps/users/serializers.py and views.py, and `full_name` of users/models.py.
-- Whether a text is an email, whether a password is acceptable, and the tokens are the
-- framework's, and are parameters; so is reading the fields from a request.
pub mod Laws
use orbit_commerce_platform.Users.Managers.{
  email_used, Failure, User, given_or, Role, Created, ExtraFields, created, failed, create_user,
}
use orbit_commerce_platform.Catalog.Models.{Uuid, Time}
use orbit_commerce_platform.Prelude.{
  Text, Bool, List, Option, [], ◌∷◌, ◌++◌, ◌&&◌, ◌==◌, codes, ℕ, strip, leb, true, false,
  if◌then◌else◌, length, some, none, not, text_eq, ◌||◌,
}

unfoldable pub first_nonempty : Text → Text → Text
first_nonempty [] t = t
first_nonempty (c ∷ s) t = c ∷ s

-- f"{self.first_name} {self.last_name}".strip() or self.email
unfoldable pub full_name : User → Text
unfolding first_nonempty strip
full_name u = first_nonempty (strip (u.first_name ++ codes " " ++ u.last_name)) u.email

-- The fields of `UserSerializer`.
pub record UserBody : Type 0 where
  pub id : Uuid
  pub email : Text
  pub first_name : Text
  pub last_name : Text
  pub full_name : Text
  pub role : Role
  pub created_at : Time

unfoldable pub user_body : User → UserBody
user_body u = record {
  id = u.id;
  email = u.email;
  first_name = u.first_name;
  last_name = u.last_name;
  full_name = full_name u;
  role = u.role;
  created_at = u.created_at;
}

-- What the serializers read of a request: for a signup, and for a change of one's profile.
pub record Signup : Type 0 where
  pub email : Text
  pub password : Text
  pub first_name : Option Text
  pub last_name : Option Text

pub record Profile : Type 0 where
  pub email : Option Text
  pub first_name : Option Text
  pub last_name : Option Text

pub within : ℕ → Option Text → Bool
within n none = true
within n (some t) = leb (length t) n

unfoldable pub names_fit : Option Text → Option Text → Bool
unfolding within
names_fit first last = within 150 first && within 150 last

-- The answer to a signup: 201 with the user and two tokens, 400, or an exception that is no
-- answer of the API, which the database raised.
pub data SignupAnswer : Type 0 where
  registered : UserBody → (access refresh : Text) → SignupAnswer
  rejected : SignupAnswer
  server_error : Failure → SignupAnswer

-- The unique validator of an update leaves the user's own row out.
unfoldable pub email_of_other : Uuid → Text → List User → Bool
email_of_other id email [] = false
email_of_other id email (u ∷ users) =
    not (u.id == id) && text_eq email u.email || email_of_other id email users

-- The writable fields of `UserSerializer`, of which a partial update sets those that are given.
unfoldable pub set_profile : Profile → User → User
set_profile d u = record u {
  email = given_or d.email u.email;
  first_name = given_or d.first_name u.first_name;
  last_name = given_or d.last_name u.last_name;
}

-- `instance.save()` writes every column of the instance to the row of its key.
unfoldable pub save_profile : User → List User → List User
save_profile new [] = []
save_profile new (u ∷ users) = (if u.id == new.id then new else u) ∷ save_profile new users

module _ (is_email acceptable : Text → Bool) where
  -- `RegisterSerializer`: the checks of its fields, of which the last on the email is the unique
  -- validator, on the email as it was sent; and `validate_password`.
  unfoldable pub valid_signup : Signup → List User → Bool
  unfolding names_fit email_used
  valid_signup d users =
      is_email d.email
      && leb (length d.email) 254
      && not (email_used d.email users)
      && (leb 8 (length d.password) && acceptable d.password)
      && names_fit d.first_name d.last_name

  module _ (normalize hash : Text → Text) (access_token refresh_token : User → Text) where
    signup_answer : Created × List User → SignupAnswer × List User
    signup_answer (created u, users) =
        (registered (user_body u) (access_token u) (refresh_token u), users)
    signup_answer (failed f, users) = (server_error f, users)

    -- `RegisterView.create`, with `RegisterSerializer.create`. A raise leaves the rows to the
    -- transaction of the request.
    unfoldable pub register : Uuid → Time → Signup → List User → SignupAnswer × List User
    unfolding valid_signup signup_answer
    register id now d users =
        let extra : ExtraFields = record {
          first_name = d.first_name;
          last_name = d.last_name;
          role = none;
          is_active = none;
          is_staff = none;
          is_superuser = none;
        } in
        if valid_signup d users
        then signup_answer (create_user normalize hash id now d.email d.password extra users)
        else (rejected, users)

  pub valid_email : Uuid → Option Text → List User → Bool
  unfolding email_of_other
  valid_email id none users = true
  valid_email id (some email) users =
      is_email email && leb (length email) 254 && not (email_of_other id email users)

  unfoldable pub valid_profile : Uuid → Profile → List User → Bool
  unfolding valid_email names_fit
  valid_profile id d users = valid_email id d.email users && names_fit d.first_name d.last_name

  -- `MeView.patch`: `me` is the user of the request, as it was loaded. `none` is 400.
  unfoldable pub patch_me : User → Profile → List User → Option UserBody × List User
  unfolding valid_profile set_profile save_profile
  patch_me me d users =
      if valid_profile me.id d users
      then (some (user_body (set_profile d me)), save_profile (set_profile d me) users)
      else (none, users)
