-- ===== src/Auth/Inversion.antt =====
-- What authentication writes.
use transport_lookout.Prelude.{
  ◌+◌, ◌++◌, [], ◌∷◌, String, true, ◌≡◌, sym, refl, ap, ◌⊎◌, inl, inr, Option, none, some, arith,
  string_eq, eq_iff, find, Bool-cases,
}
use transport_lookout.Config.{Env}
use transport_lookout.Http.{ok, ok-injective}
use transport_lookout.Model.{Db, User, Role}
use transport_lookout.Text.{is_empty, remove_prefix}
use transport_lookout.Auth.{
  AuthSettings, has_subject, added_bootstrap, found_bootstrap, found_subject, with_claims,
  is_comparable, is_bootstrap, is_oidc, current_user,
}

-- The administrator's row is added for the bootstrap token, where this is enabled.
pub record AddsBootstrap (env : Env) (auth : AuthSettings) (authorization : String) (db db' : Db)
    : Type 0 where
  pub enabled : auth.bootstrap_enabled ≡ true
  pub of_token : remove_prefix "Bearer " authorization ≡ auth.bootstrap_token
  pub is_new : find (has_subject "bootstrap-admin") db.users ≡ none
  pub is_added : db' ≡ record db {
    users =
        db.users
        ++ record {
          id = env.uuid4 db.drawn;
          subject = "bootstrap-admin";
          role = Role.platform_admin;
        }
          ∷ [];
    drawn = db.drawn + 1;
  }

module _ (env : Env) (auth : AuthSettings) (authorization : String) (user : User)
    (db db' : Db) where
  found_bootstrap_inversion :
      (row : Option User)
      → found_bootstrap env db row ≡ ok (user, db')
      → (db' ≡ db) ⊎ ((row ≡ none) × (db' ≡ added_bootstrap env db))
  found_bootstrap_inversion (some admin) h =
      inl (ap (λ (x : User × Db). x.1) (sym (ok-injective (admin, db) (user, db') h)))
  found_bootstrap_inversion none h =
      inr (refl, ap (λ (x : User × Db). x.1) (sym (ok-injective _ (user, db') h)))

  found_subject_inversion : (row : Option User) → found_subject db row ≡ ok (user, db') → db' ≡ db
  found_subject_inversion none h = absurd (cc)
  found_subject_inversion (some target) h =
      ap (λ (x : User × Db). x.1) (sym (ok-injective (target, db) (user, db') h))

  with_claims_inversion :
      (claims : Option (Option String)) → with_claims db claims ≡ ok (user, db') → db' ≡ db
  with_claims_inversion none h = absurd (cc)
  with_claims_inversion (some none) h = absurd (cc)
  with_claims_inversion (some (some subject)) h = elim (Bool-cases (is_empty subject)) [
    | inl t ↦ absurd (let z = rw t at h in cc)
    | inr t ↦ found_subject_inversion (find (has_subject subject) db.users) (rw t at h)
  ]

  -- Who is authenticated finds the database as it was, but for the administrator's row that is added
  -- at the first use of the bootstrap token.
  pub current_user_inversion :
      (validate_oidc_token : String → Option (Option String))
      → current_user env auth validate_oidc_token authorization db ≡ ok (user, db')
      → (db' ≡ db) ⊎ AddsBootstrap env auth authorization db db'
  unfolding current_user
  current_user_inversion validate_oidc_token h =
      elim (Bool-cases (is_bootstrap auth authorization)) [
        | inl t ↦ elim (Bool-cases (is_comparable auth authorization)) [
          | inl c ↦
              elim (found_bootstrap_inversion (find (has_subject "bootstrap-admin") db.users)
                (rw (t, c) at h)) [
                  | inl same ↦ inl same
                  | inr (new, added) ↦ inr (record {
                    enabled = ground (arith, t);
                    of_token =
                        (eq_iff (remove_prefix "Bearer " authorization) auth.bootstrap_token).0
                          (ground (arith, t, c));
                    is_new = new;
                    is_added = added;
                  })
                ]
          | inr c ↦ absurd (let z = rw (t, c) at h in cc)
        ]
        | inr t ↦ elim (Bool-cases (is_oidc auth authorization)) [
          | inl o ↦ inl (
              with_claims_inversion (validate_oidc_token (remove_prefix "Bearer " authorization))
                (rw (t, o) at h))
          | inr o ↦ absurd (let z = rw (t, o) at h in cc)
        ]
      ]
