-- ===== src/Users/Accounts.antt =====
-- What users/managers.py keeps true of the table of users.
use orbit_commerce_platform.Catalog.Models.{Uuid, Time}
use orbit_commerce_platform.Users.Managers.{
  User, make_user, create_user, save_user, email_used, create_superuser, ExtraFields, given_or,
  build_user, created, Failure, failed,
}
use orbit_commerce_platform.Prelude.{
  ℕ, sym, ap, Text, List, ◌≡◌, ◌∷◌, [], false, true, Bool-cases, inl, inr,
}

-- No two users have the same email.
abbrev pub UniqueEmails : List User → Type 0
UniqueEmails [] = Unit
UniqueEmails (u ∷ users) = (email_used u.email users ≡ false) × UniqueEmails users

created_injective : {u v : User} → created u ≡ created v → u ≡ v
created_injective h = cc

failed-ne-created : {f : Failure} {u : User} → failed f ≡ created u → ⊥
failed-ne-created h = cc

module _ (normalize hash : Text → Text) (id : Uuid) (now : Time) where
  save_user-UniqueEmails :
      (u : User) (users : List User)
      → UniqueEmails users
      → UniqueEmails (save_user normalize hash id now u users).1
  unfolding save_user
  save_user-UniqueEmails u users h = elim (Bool-cases (email_used u.email users)) [
    | inl taken ↦ rw taken h
    | inr free ↦ rw free (free, h)
  ]

  make_user-UniqueEmails :
      (email password : Text) (extra : ExtraFields) (users : List User)
      → UniqueEmails users
      → UniqueEmails (make_user normalize hash id now email password extra users).1
  unfolding make_user
  make_user-UniqueEmails [] password extra users h = h
  make_user-UniqueEmails (c ∷ cs) password extra users h =
      save_user-UniqueEmails (build_user normalize hash id now (normalize (c ∷ cs)) password extra)
        users h

  -- Neither `create_user` nor `create_superuser` gives two users the same email, whether it
  -- returns or raises.
  pub create-UniqueEmails :
      (email password : Text) (extra : ExtraFields) (users : List User)
      → UniqueEmails users
      → UniqueEmails (create_user normalize hash id now email password extra users).1
        × UniqueEmails (create_superuser normalize hash id now email password extra users).1
  unfolding create_user create_superuser
  create-UniqueEmails email password extra users h = (
    make_user-UniqueEmails email password _ users h,
    elim (Bool-cases (given_or extra.is_staff true)) [
      | inl staff ↦ elim (Bool-cases (given_or extra.is_superuser true)) [
        | inl super ↦ rw (staff, super) (make_user-UniqueEmails email password _ users h)
        | inr plain ↦ rw (staff, plain) h
      ]
      | inr plain ↦ rw plain h
    ],
  )

  -- A `create_superuser` that returns a user has made it staff and superuser, with the normalized
  -- email, which no user had.
  pub create_superuser_flags :
      (c : ℕ) (cs password : Text) (extra : ExtraFields) (users : List User) (u : User)
      → (create_superuser normalize hash id now (c ∷ cs) password extra users).0 ≡ created u
      → (u.is_staff ≡ true)
        × (u.is_superuser ≡ true)
        × (u.email ≡ normalize (c ∷ cs))
        × (email_used (normalize (c ∷ cs)) users ≡ false)
  unfolding create_superuser make_user save_user build_user given_or
  create_superuser_flags c cs password extra users u h =
      elim (Bool-cases (given_or extra.is_staff true)) [
        | inl staff ↦ elim (Bool-cases (given_or extra.is_superuser true)) [
          | inl super ↦ elim (Bool-cases (email_used (normalize (c ∷ cs)) users)) [
            | inl taken ↦
                absurd (failed-ne-created (rw (create_superuser, staff, super, taken) at h))
            | inr free ↦
                let made = created_injective (rw (create_superuser, staff, super, free) at h) in
                (
                  sym (ap (λ v. v.is_staff) made),
                  sym (ap (λ v. v.is_superuser) made),
                  sym (ap (λ v. v.email) made),
                  free,
                )
          ]
          | inr plain ↦ absurd (failed-ne-created (rw (create_superuser, staff, plain) at h))
        ]
        | inr plain ↦ absurd (failed-ne-created (rw (create_superuser, plain) at h))
      ]
