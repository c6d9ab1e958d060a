-- ===== src/Tests/Signup.antt =====
-- services/core_api/apps/users: signing up and one's profile
use orbit_commerce_platform.Users.Api.Laws.{
  privileges, patch_me-privileges, full_name_exact, register_exact,
}
use orbit_commerce_platform.Users.Api.{
  Signup, Profile, patch_me, valid_signup, save_profile, set_profile, valid_profile, full_name,
  register, registered, user_body, server_error, rejected,
}
use orbit_commerce_platform.Users.Managers.{
  User, build_user, admin_role, email_used, customer_role, email_taken,
}
use orbit_commerce_platform.Prelude.{
  ◌≡◌, ◌≢◌, ◌⊎◌, ◌∷◌, ◌++◌, [], codes, refl, Text, map, Bool, none, is_space, some, true, false,
  arith,
}

abbrev same_text : Text → Text
same_text t = t

abbrev all_good : Text → Bool
all_good t = true

abbrev token : User → Text
token u = u.email

abbrev ann : User
ann = build_user same_text same_text 1 7 (codes "a@x") (codes "h") (record {
  first_name = some (codes "Ann");
  last_name = none;
  role = none;
  is_active = none;
  is_staff = none;
  is_superuser = none;
})

abbrev bob_form : Signup
bob_form = record {
  email = codes "b@x";
  password = codes "long enough";
  first_name = some (codes "Bob");
  last_name = none;
}

register_exact_example :
    ((u : User) × (valid_signup all_good all_good bob_form (ann ∷ []) ≡ true)
      × (email_used (codes "b@x") (ann ∷ []) ≡ false)
      × (register all_good all_good same_text same_text token token 2 9 bob_form (ann ∷ [])
          ≡ (registered (user_body u) (token u) (token u), u ∷ ann ∷ []))
      × (u.email ≡ codes "b@x")
      × (privileges u ≡ record {
        id = 2;
        password = codes "long enough";
        role = customer_role;
        is_active = true;
        is_staff = false;
        is_superuser = false;
      }))
    ⊎ (((valid_signup all_good all_good bob_form (ann ∷ []) ≡ true)
          × (email_used (codes "b@x") (ann ∷ []) ≡ true)
          × (register all_good all_good same_text same_text token token 2 9 bob_form (ann ∷ [])
              ≡ (server_error email_taken, ann ∷ [])))
        ⊎ ((valid_signup all_good all_good bob_form (ann ∷ []) ≡ false)
            × (register all_good all_good same_text same_text token token 2 9 bob_form (ann ∷ [])
                ≡ (rejected, ann ∷ []))))
register_exact_example =
    register_exact all_good all_good same_text same_text token token 2 9 bob_form (ann ∷ [])
      (λ h. cc)

abbrev root : User
root = record ann { id = 5; email = codes "r@x"; role = admin_role; is_staff = true }

abbrev renamed : Profile
renamed = record { email = none; first_name = some (codes "Anna"); last_name = some (codes "Lee") }

patch_me-privileges_example :
    map privileges (patch_me all_good all_good ann renamed (ann ∷ root ∷ [])).1
    ≡ map privileges (ann ∷ root ∷ [])
unfolding build_user
patch_me-privileges_example =
    patch_me-privileges all_good all_good ann renamed (ann ∷ root ∷ [])
      (λ h. refl, (λ h. absurd (omega (arith, h)), tt))

abbrev anna : User
anna = set_profile renamed ann

saved : (patch_me all_good all_good ann renamed (ann ∷ root ∷ [])).1 ≡ anna ∷ root ∷ []
unfolding patch_me save_profile valid_profile build_user
saved = refl

full_name_exact_example :
    ((ann.first_name ≡ []) × (ann.last_name ≡ []) × (full_name ann ≡ ann.email))
    ⊎ (((ann.first_name ≢ []) × (ann.last_name ≡ []) × (full_name ann ≡ ann.first_name))
        ⊎ (((ann.first_name ≡ []) × (ann.last_name ≢ []) × (full_name ann ≡ ann.last_name))
            ⊎ ((ann.first_name ≢ [])
                × (ann.last_name ≢ [])
                × (full_name ann ≡ ann.first_name ++ codes " " ++ ann.last_name))))
unfolding build_user is_space
full_name_exact_example = full_name_exact ann (refl, refl) (tt, tt)
