-- ===== src/Examples/Auth.antt =====
-- Runs of packages/evoid-auth/evoid_auth.
use evoid_plugins.Prelude.{
  ℕ, ◌≡◌, refl, String, true, false, ◌&&◌, some, none, [], ◌∷◌, string_eq, ◌==◌, if◌then◌else◌,
}
use evoid_plugins.Py.Dict.{get}
use evoid_plugins.Py.Exec.{ok, err, value_error}
use evoid_plugins.Py.Text.{strip_prefix}
use evoid_plugins.Auth.{
  Providers, Metadata, State, authenticated, extract_token, resolve_provider, check_token, conclude,
  authenticate, authorize,
}
use evoid_plugins.Auth.Decisions.{
  role_of, meets_role, meets_roles, is_authorized, IsVouched, authorize_lem, authenticate-IsVouched,
}

abbrev anonymous : State String
anonymous = record {
  user = none;
  role = none;
  auth_method = none;
  authenticated = false;
  auth_error = none;
}

abbrev request : Metadata
request = record {
  token = none;
  headers = ("authorization", "Bearer secret") ∷ [];
  query_token = none;
  auth_provider = none;
  required_role = some "viewer";
  required_roles = [];
}

-- one token is known
abbrev known : Providers ℕ String
known =
    (
      "default",
      λ token w. (
        if token == "secret"
            then ok (some (record { user = "ann"; role = some "editor" }))
            else err value_error,
        w,
      ),
    )
    ∷ []

abbrev ann : State String
ann = record {
  user = some "ann";
  role = some "editor";
  auth_method = some "default";
  authenticated = true;
  auth_error = none;
}

logged_in : authenticate known request anonymous 0 ≡ (ok (authenticated "ann"), (ann, 0))
unfolding authenticate check_token conclude resolve_provider extract_token strip_prefix get
logged_in = refl

authenticate-IsVouched_example : IsVouched known request 0 0 "ann"
authenticate-IsVouched_example =
    authenticate-IsVouched known request anonymous ann 0 0 "ann" logged_in

authorize_lem_example :
    (is_authorized (authorize request ann).0 ≡ (
      ann.authenticated
      && (meets_role (role_of ann) (some "viewer") && meets_roles (role_of ann) [])))
    × ((authorize request ann).1 ≡ record ann { auth_error = (authorize request ann).1.auth_error })
authorize_lem_example = authorize_lem request ann
