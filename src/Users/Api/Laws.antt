-- ===== src/Users/Api/Laws.antt =====
-- What users/views.py, users/serializers.py and `full_name` of users/models.py promise.
use orbit_commerce_platform.Users.Managers.{
  User, Role, create_user, make_user, save_user, build_user, given_or, email_used, customer_role,
  email_taken, ExtraFields, failed, created,
}
use orbit_commerce_platform.Users.Api.{
  save_profile, patch_me, set_profile, Profile, full_name, register, signup_answer, valid_profile,
  Signup, valid_signup, registered, user_body, server_error, rejected, first_nonempty,
}
use orbit_commerce_platform.Catalog.Models.{Uuid, Time}
use orbit_commerce_platform.Prelude.{
  ◌∙◌, Text, Bool, List, [], ◌∷◌, ◌++◌, ◌==◌, ◌≡◌, ◌≢◌, ◌⊎◌, codes, IsTrimmed, map, Bool-cases, inl,
  ap, inr, refl, true, false, strip, ℕ, some, none, skip_spaces, is_space, append-nil, strip-behind,
  strip-before, strip-IsTrimmed, IsTrimmed-join, ◌∙◌, All, sym, ==_iff,
}

-- What a user may do, and the row that it is.
pub record Privileges : Type 0 where
  pub id : Uuid
  pub password : Text
  pub role : Role
  pub is_active : Bool
  pub is_staff : Bool
  pub is_superuser : Bool

abbrev pub privileges : User → Privileges
privileges u = record {
  id = u.id;
  password = u.password;
  role = u.role;
  is_active = u.is_active;
  is_staff = u.is_staff;
  is_superuser = u.is_superuser;
}

abbrev signup_fields : Signup → ExtraFields
signup_fields d = record {
  first_name = d.first_name;
  last_name = d.last_name;
  role = none;
  is_active = none;
  is_staff = some false;
  is_superuser = some false;
}

module _ (normalize hash : Text → Text) (id : Uuid) (now : Time) where
  create-used :
      (email password : Text) (extra : ExtraFields) (users : List User)
      → email ≢ []
      → email_used (normalize email) users ≡ true
      → create_user normalize hash id now email password extra users ≡ (failed email_taken, users)
  unfolding create_user make_user save_user
  create-used [] password extra users full used = absurd (full refl)
  create-used (c ∷ cs) password extra users full used = rw used refl

  create-free :
      (email password : Text) (extra : ExtraFields) (users : List User)
      → email ≢ []
      → email_used (normalize email) users ≡ false
      → let u = build_user normalize hash id now (normalize email) password (record extra {
        is_staff = some (given_or extra.is_staff false);
        is_superuser = some (given_or extra.is_superuser false);
      }) in
        create_user normalize hash id now email password extra users ≡ (created u, u ∷ users)
  unfolding create_user make_user save_user
  create-free [] password extra users full free = absurd (full refl)
  create-free (c ∷ cs) password extra users full free = rw free refl

-- The row of the user, if it has one, is as the user was loaded.
abbrev pub IsCurrent : User → List User → Type 0
IsCurrent me users = All (λ u. u.id ≡ me.id → u ≡ me) users

module _ (is_email acceptable : Text → Bool) where
  save_profile-privileges :
      (me : User) (d : Profile) (users : List User)
      → IsCurrent me users
      → map privileges (save_profile (set_profile d me) users) ≡ map privileges users
  unfolding save_profile set_profile
  save_profile-privileges me d [] h = refl
  save_profile-privileges me d (u ∷ users) (same, h) = elim (Bool-cases (u.id == me.id)) [
    | inl mine ↦ rw mine (
        ap (λ l. privileges me ∷ l) (save_profile-privileges me d users h)
        ∙ ap (λ v. privileges v ∷ map privileges users) (sym (same ((==_iff u.id me.id).0 mine))))
    | inr other ↦ rw other (ap (λ l. privileges u ∷ l) (save_profile-privileges me d users h))
  ]

  -- If the user of the request is as its row has it, no change of its profile gives anyone a role,
  -- a flag or another password, whatever it contains.
  pub patch_me-privileges :
      (me : User) (d : Profile) (users : List User)
      → IsCurrent me users
      → map privileges (patch_me is_email acceptable me d users).1 ≡ map privileges users
  unfolding patch_me
  patch_me-privileges me d users h =
      elim (Bool-cases (valid_profile is_email acceptable me.id d users)) [
        | inl good ↦ rw good (save_profile-privileges me d users h)
        | inr bad ↦ rw bad refl
      ]

  module _ (normalize hash : Text → Text) (access_token refresh_token : User → Text) where
    -- A signup that is valid and whose normalized email no user has makes an active customer with
    -- no privileges, whose password is stored as its hash. Any other leaves the users as they were
    -- and is answered with 400, or, if only the normalized email is taken, with a server error.
    pub register_exact :
        (id : Uuid) (now : Time) (d : Signup) (users : List User)
        → d.email ≢ []
        → let out =
            register is_email acceptable normalize hash access_token refresh_token id now d users in
          ((u : User) × (valid_signup is_email acceptable d users ≡ true)
            × (email_used (normalize d.email) users ≡ false)
            × (out ≡ (registered (user_body u) (access_token u) (refresh_token u), u ∷ users))
            × (u.email ≡ normalize d.email)
            × (privileges u ≡ record {
              id = id;
              password = hash d.password;
              role = customer_role;
              is_active = true;
              is_staff = false;
              is_superuser = false;
            }))
          ⊎ (((valid_signup is_email acceptable d users ≡ true)
                × (email_used (normalize d.email) users ≡ true)
                × (out ≡ (server_error email_taken, users)))
              ⊎ ((valid_signup is_email acceptable d users ≡ false) × (out ≡ (rejected, users))))
    unfolding register signup_answer create_user make_user save_user build_user given_or
    register_exact id now d users full =
        elim (Bool-cases (valid_signup is_email acceptable d users)) [
          | inl good ↦ elim (Bool-cases (email_used (normalize d.email) users)) [
            | inl used ↦ inr (
                inl (
                  good,
                  used,
                  rw (good, create-used normalize hash id now d.email d.password _ users full used)
                      refl,
                ))
            | inr free ↦ inl (
              build_user normalize hash id now (normalize d.email) d.password (signup_fields d),
              good,
              free,
              rw (good, create-free normalize hash id now d.email d.password _ users full free)
                  refl,
              refl,
              refl,
            )
          ]
          | inr bad ↦ inr (inr (bad, rw bad refl))
        ]

strip_space : strip (codes " ") ≡ []
unfolding strip skip_spaces is_space
strip_space = refl

cons-ne-nil : {c : ℕ} {s : Text} → c ∷ s ≢ []
cons-ne-nil h = cc

given : (t s email : Text) → s ≢ [] → strip t ≡ s → first_nonempty (strip t) email ≡ s
unfolding first_nonempty
given t [] email full h = absurd (full refl)
given t (c ∷ s) email full h = ap (λ n. first_nonempty n email) h

names :
    (f l email : Text)
    → IsTrimmed f
    → IsTrimmed l
    → let name = first_nonempty (strip (f ++ codes " " ++ l)) email in
      ((f ≡ []) × (l ≡ []) × (name ≡ email))
      ⊎ (((f ≢ []) × (l ≡ []) × (name ≡ f))
          ⊎ (((f ≡ []) × (l ≢ []) × (name ≡ l))
              ⊎ ((f ≢ []) × (l ≢ []) × (name ≡ f ++ codes " " ++ l))))
unfolding first_nonempty
names [] [] email first last = inl (refl, refl, ap (λ t. first_nonempty t email) strip_space)
names (c ∷ f) [] email first last = inr (
    inl (
      cons-ne-nil,
      refl,
      ap (λ t. first_nonempty (strip t) email) (append-nil ((c ∷ f) ++ codes " "))
          ∙ given _ (c ∷ f) email cons-ne-nil (strip-behind (c ∷ f) first cons-ne-nil),
    ))
names [] (d ∷ l) email first last =
    inr
      (inr (inl (refl, cons-ne-nil, given _ (d ∷ l) email cons-ne-nil (strip-before (d ∷ l) last))))
names (c ∷ f) (d ∷ l) email first last =
    let both = IsTrimmed-join (c ∷ f) (codes " ") (d ∷ l) cons-ne-nil cons-ne-nil first last in
    inr (
      inr (
        inr (
          cons-ne-nil,
          cons-ne-nil,
          given _ (c ∷ f ++ codes " " ++ d ∷ l) email cons-ne-nil (strip-IsTrimmed _ both),
        )))

-- A full name of trimmed names is the names that are there with a space between them, and the
-- email if there is none.
pub full_name_exact :
    (u : User)
    → IsTrimmed u.first_name
    → IsTrimmed u.last_name
    → ((u.first_name ≡ []) × (u.last_name ≡ []) × (full_name u ≡ u.email))
      ⊎ (((u.first_name ≢ []) × (u.last_name ≡ []) × (full_name u ≡ u.first_name))
          ⊎ (((u.first_name ≡ []) × (u.last_name ≢ []) × (full_name u ≡ u.last_name))
              ⊎ ((u.first_name ≢ [])
                  × (u.last_name ≢ [])
                  × (full_name u ≡ u.first_name ++ codes " " ++ u.last_name))))
unfolding full_name
full_name_exact u first last = names u.first_name u.last_name u.email first last
