-- ===== src/Auth.antt =====
-- packages/evoid-auth/evoid_auth: providers.py and processors.py.
-- `W` is the world that providers act on, `U` the type of what stands for a user.
pub mod Roles
pub mod Decisions
use evoid_plugins.Prelude.{
  ℕ, String, Bool, true, false, not, Option, none, some, List, [], ◌∷◌, string_eq, ◌==◌, leb,
  if◌then◌else◌, contains,
}
use evoid_plugins.Py.Dict.{Dict, get, get_or, put, keys}
use evoid_plugins.Py.Exec.{Error, value_error, attribute_error, Result, ok, err}
use evoid_plugins.Py.Text.{strip_prefix}
use Roles.{role_has_permission}

-- What a provider answers: `user_info.get("user", user_info)`, and its role if it has one. `none` is an
-- answer that is no dictionary, which has no `get`.
pub record UserInfo (U : Type 0) : Type 0 where
  pub user : U
  pub role : Option String

abbrev pub Provider : Type 0 → Type 0 → Type 0
Provider W U = String → W → Result (Option (UserInfo U)) × W

abbrev pub Providers : Type 0 → Type 0 → Type 0
Providers W U = Dict String (Provider W U)

unfoldable pub register_provider :
    {W U : Type 0} → Providers W U → String → Provider W U → Providers W U
register_provider providers name provider = put providers name provider

unfoldable pub resolve_provider : {W U : Type 0} → Providers W U → String → Result (Provider W U)
resolve_provider providers name = elim (get providers name) [
  | none ↦ err value_error
  | some provider ↦ ok provider
]

unfoldable pub list_providers : {W U : Type 0} → Providers W U → List String
list_providers providers = keys providers

unfoldable pub clear_providers : {W U : Type 0} → Providers W U → Providers W U
clear_providers providers = []

-- The metadata that the processors read; `none` and `[]` stand for a key that is not there.
pub record Metadata : Type 0 where
  pub token : Option String
  pub headers : Dict String String
  pub query_token : Option String
  pub auth_provider : Option String
  pub required_role : Option String
  pub required_roles : List String

-- The texts under `auth_error`.
pub data AuthError : Type 0 where
  no_token_provided : AuthError
  not_configured : (provider : String) → AuthError
  authentication_failed : Error → AuthError
  need_role : (required role : String) → AuthError
  role_not_in : (role : String) (required : List String) → AuthError

-- `ctx.state`; a missing `authenticated` reads as false.
pub record State (U : Type 0) : Type 0 where
  pub user : Option U
  pub role : Option String
  pub auth_method : Option String
  pub authenticated : Bool
  pub auth_error : Option AuthError

pub data Authentication (U : Type 0) : Type 0 where
  authenticated : U → Authentication U
  no_token provider_not_found provider_failed : Authentication U

pub data Authorization : Type 0 where
  authorized : (role : String) → Authorization
  not_authenticated insufficient_permissions role_not_allowed : Authorization

-- a value, if it is there and not empty
abbrev pub non_empty : Option String → Option String
non_empty none = none
non_empty (some s) = if s == "" then none else some s

abbrev pub or_else : Option String → Option String → Option String
or_else none other = other
or_else (some s) other = some s

unfoldable pub extract_token : Metadata → Option String
extract_token m =
    let header = get_or m.headers "authorization" "" in
    elim m.token [
      | some token ↦ some token
      | none ↦ or_else (strip_prefix "Bearer " header) (
          or_else (strip_prefix "Token " header)
            (or_else (non_empty (get m.headers "x-api-key")) (non_empty m.query_token)))
    ]

module _ {U : Type 0} where
  abbrev refuse : State U → AuthError → State U
  refuse s reason = record s { authenticated = false; auth_error = some reason }

module _ {W U : Type 0} where
  -- what follows the call of the provider
  unfoldable pub conclude :
      String
      → State U
      → Result (Option (UserInfo U)) × W
      → Result (Authentication U) × (State U × W)
  conclude provider_name s (err e, w) =
      (ok provider_failed, (refuse s (authentication_failed e), w))
  conclude provider_name s (ok none, w) = (err attribute_error, (s, w))
  conclude provider_name s (ok (some info), w) = (
    ok (authenticated info.user),
    (
      record {
        user = some info.user;
        role = some (elim info.role [ none ↦ "user" | some r ↦ r ]);
        auth_method = some provider_name;
        authenticated = true;
        auth_error = none;
      },
      w,
    ),
  )

  -- what follows the extraction of the token
  unfoldable pub check_token :
      Providers W U
      → String
      → Option String
      → State U
      → W
      → Result (Authentication U) × (State U × W)
  check_token providers provider_name none s w = (ok no_token, (refuse s no_token_provided, w))
  check_token providers provider_name (some token) s w =
      elim (resolve_provider providers provider_name) [
        | err e ↦ (ok provider_not_found, (refuse s (not_configured provider_name), w))
        | ok provider ↦ conclude provider_name s (provider token w)
      ]

  unfoldable pub authenticate :
      Providers W U → Metadata → State U → W → Result (Authentication U) × (State U × W)
  authenticate providers m s w =
      check_token providers (elim m.auth_provider [ none ↦ "default" | some n ↦ n ])
        (non_empty (extract_token m)) s w

module _ {U : Type 0} where
  -- `if required_roles: if role not in required_roles: …`
  unfoldable pub check_roles : String → List String → State U → Authorization × State U
  check_roles role [] s = (authorized role, s)
  check_roles role (r ∷ rs) s =
      if contains (r ∷ rs) role
      then (authorized role, s)
      else (role_not_allowed, record s { auth_error = some (role_not_in role (r ∷ rs)) })

  -- `if required_role: if not _role_has_permission(role, required_role): …`, then the list of roles
  unfoldable pub check_role :
      String → Option String → List String → State U → Authorization × State U
  check_role role none required_roles s = check_roles role required_roles s
  check_role role (some required) required_roles s =
      if role_has_permission role required
      then check_roles role required_roles s
      else (insufficient_permissions, record s { auth_error = some (need_role required role) })

  unfoldable pub authorize : Metadata → State U → Authorization × State U
  authorize m s =
      if s.authenticated
      then check_role (elim s.role [ none ↦ "user" | some r ↦ r ]) (non_empty m.required_role)
          m.required_roles s
      else (not_authenticated, s)
