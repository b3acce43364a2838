-- ===== src/Auth.antt =====
-- src/scanpod_enterprise/auth.py: `current_user` and `require_roles`. The validation of an access token
-- is an argument: `none` where PyJWT raises, else the claim "sub".
pub mod Inversion
use text.Mathlib.Text.{starts_with}
use transport_lookout.Prelude.{
  String, Bool, false, ◌||◌, ◌&&◌, not, ◌+◌, ◌++◌, Option, none, some, List, [], ◌∷◌, ◌==◌,
  string_eq, if◌then◌else◌, find,
}
use transport_lookout.Config.{Env}
use transport_lookout.Http.{Result, ok, http}
use transport_lookout.Model.{Db, User, Role, role_eq}
use transport_lookout.Text.{is_empty, is_ascii, remove_prefix}

-- The settings of config.py that authentication reads.
pub record AuthSettings : Type 0 where
  pub bootstrap_enabled : Bool
  pub bootstrap_token : String
  pub oidc_issuer : String
  pub oidc_audience : String

abbrev pub has_subject : String → User → Bool
has_subject subject u = u.subject == subject

abbrev pub bootstrap_user : Env → Db → User
bootstrap_user env db = record {
  id = env.uuid4 db.drawn;
  subject = "bootstrap-admin";
  role = Role.platform_admin;
}

abbrev pub added_bootstrap : Env → Db → Db
added_bootstrap env db = record db {
  users = db.users ++ bootstrap_user env db ∷ [];
  drawn = db.drawn + 1;
}

abbrev pub found_bootstrap : Env → Db → Option User → Result (User × Db)
found_bootstrap env db (some user) = ok (user, db)
found_bootstrap env db none = ok (bootstrap_user env db, added_bootstrap env db)

abbrev pub found_subject : Db → Option User → Result (User × Db)
found_subject db (some user) = ok (user, db)
found_subject db none = http 403 "user is not provisioned"

abbrev pub with_claim : Db → Option String → Result (User × Db)
with_claim db none = http 401 "access token missing subject"
with_claim db (some subject) =
    if is_empty subject
    then http 401 "access token missing subject"
    else found_subject db (find (has_subject subject) db.users)

abbrev pub with_claims : Db → Option (Option String) → Result (User × Db)
with_claims db none = http 401 "invalid access token"
with_claims db (some sub) = with_claim db sub

-- `hmac.compare_digest` raises a TypeError unless both texts are ASCII.
abbrev pub is_comparable : AuthSettings → String → Bool
is_comparable auth authorization =
    is_ascii (remove_prefix "Bearer " authorization) && is_ascii auth.bootstrap_token

-- The code after the bootstrap token's branch is not reached: the token is this one, or the comparison
-- raises.
abbrev pub is_bootstrap : AuthSettings → String → Bool
is_bootstrap auth authorization =
    auth.bootstrap_enabled
    && not (is_empty auth.bootstrap_token)
    && starts_with authorization "Bearer "
    && (not (is_comparable auth authorization)
        || remove_prefix "Bearer " authorization == auth.bootstrap_token)

abbrev pub is_oidc : AuthSettings → String → Bool
is_oidc auth authorization =
    not (is_empty auth.oidc_issuer)
    && not (is_empty auth.oidc_audience)
    && starts_with authorization "Bearer "

-- `authorization` is the header's text, empty where there is none.
unfoldable pub current_user :
    Env → AuthSettings → (String → Option (Option String)) → String → Db → Result (User × Db)
unfolding remove_prefix is_ascii
current_user env auth validate_oidc_token authorization db =
    if is_bootstrap auth authorization
    then if is_comparable auth authorization
      then found_bootstrap env db (find (has_subject "bootstrap-admin") db.users)
      else http 500 "Internal Server Error"
    else if is_oidc auth authorization
    then with_claims db (validate_oidc_token (remove_prefix "Bearer " authorization))
    else http 401 "authentication required"

-- `user.role in roles`
unfoldable pub has_role : List Role → Role → Bool
has_role [] role = false
has_role (r ∷ rs) role = r == role || has_role rs role

unfoldable pub require_roles : List Role → User → Result User
unfolding has_role
require_roles roles user =
    if has_role roles user.role then ok user else http 403 "insufficient role"
