-- ===== src/Tests/Logins.antt =====
-- An administrator provisions a user, who logs in with a token.
use transport_lookout.Prelude.{refl, ◌≡◌, false, Option, none, some, String, string_eq, find}
use transport_lookout.Http.{ok}
use transport_lookout.Model.{Db, User, Role}
use transport_lookout.Auth.{AuthSettings, current_user, require_roles}
use transport_lookout.Schemas.{UserProvision}
use transport_lookout.Text.{remove_prefix}
use transport_lookout.Api.Users.{provision_user, put_user, audit_user}
use transport_lookout.Api.Users.Login.{current_user-provision_user}
use transport_lookout.Tests.Data.{env, db}

abbrev admin : User
admin = record { id = "1"; subject = "eve"; role = Role.platform_admin }

abbrev bob : UserProvision
bob = record { subject = "bob"; role = Role.scan_operator }

abbrev provisioned : User × Db
provisioned = audit_user env admin (put_user env bob none db)

provisions_bob : provision_user env admin "bob" bob db ≡ ok (provisioned.0, provisioned.1)
unfolding provision_user require_roles find
provisions_bob = refl

abbrev auth : AuthSettings
auth = record {
  bootstrap_enabled = false;
  bootstrap_token = "";
  oidc_issuer = "https://issuer";
  oidc_audience = "api";
}

-- The issuer's tokens are the subjects themselves.
abbrev validate : String → Option (Option String)
validate t = some (some t)

current_user-provision_user_example :
    (current_user env auth validate "Bearer bob" provisioned.1 ≡ ok (provisioned.0, provisioned.1))
    × (provisioned.0.role ≡ Role.scan_operator)
unfolding put_user remove_prefix
current_user-provision_user_example =
    current_user-provision_user env bob db auth validate admin "bob" "Bearer bob" provisioned.0
      provisioned.1 provisions_bob refl refl refl refl
