-- ===== src/Auth/Decisions.antt =====
-- When a request is authenticated, and when it is authorized.
use Prim.Native.String.{◌++◌ as concat}
use evoid_plugins.Prelude.{
  ◌≡◌, inl, inr, refl, String, Bool, true, false, ◌&&◌, Option, none, some, List, [], ◌∷◌, arith,
  string_eq, Option-cases, contains,
}
use evoid_plugins.Py.Dict.{get}
use evoid_plugins.Py.Exec.{Result, ok, err}
use evoid_plugins.Py.Text.Laws.{strip_prefix-append}
use evoid_plugins.Auth.{
  UserInfo, Provider, Providers, Metadata, State, authenticated, Authorization, authorized,
  non_empty, extract_token, resolve_provider, conclude, check_token, authenticate, check_roles,
  check_role, authorize,
}
use evoid_plugins.Auth.Roles.{permitted, role_has_permission_lem}

abbrev pub role_of : {U : Type 0} → State U → String
role_of s = elim s.role [ none ↦ "user" | some r ↦ r ]

-- no requirement of a role, or one that the role meets
abbrev pub meets_role : String → Option String → Bool
meets_role role none = true
meets_role role (some required) = permitted role required

-- no list of roles, or one with the role
abbrev pub meets_roles : String → List String → Bool
meets_roles role [] = true
meets_roles role (r ∷ rs) = contains (r ∷ rs) role

abbrev pub provider_name : Metadata → String
provider_name m = elim m.auth_provider [ none ↦ "default" | some n ↦ n ]

abbrev pub is_authorized : Authorization → Bool
is_authorized (authorized role) = true
is_authorized _ = false

module _ {U : Type 0} where
  check_roles_lem :
      (role : String) (roles : List String) (s : State U)
      → is_authorized (check_roles role roles s).0 ≡ meets_roles role roles
  unfolding check_roles
  check_roles_lem role [] s = refl
  check_roles_lem role (r ∷ rs) s = ground arith

  check_role_lem :
      (role : String) (required : Option String) (roles : List String) (s : State U)
      → is_authorized (check_role role required roles s).0
        ≡ (meets_role role required && meets_roles role roles)
  unfolding check_role
  check_role_lem role none roles s = check_roles_lem role roles s
  check_role_lem role (some r) roles s =
      ground (arith, check_roles_lem role roles s, role_has_permission_lem role r)

  check_roles_frame :
      (role : String) (roles : List String) (s : State U)
      → (check_roles role roles s).1
        ≡ record s { auth_error = (check_roles role roles s).1.auth_error }
  unfolding check_roles
  check_roles_frame role [] s = refl
  check_roles_frame role (r ∷ rs) s = ground arith

  check_role_frame :
      (role : String) (required : Option String) (roles : List String) (s : State U)
      → (check_role role required roles s).1
        ≡ record s { auth_error = (check_role role required roles s).1.auth_error }
  unfolding check_role
  check_role_frame role none roles s = check_roles_frame role roles s
  check_role_frame role (some r) roles s = ground (arith, check_roles_frame role roles s)

  -- A request is authorized exactly where it is authenticated, its role is the required role or stands
  -- above it in the order admin, editor, viewer, guest, if one of these is required, and is among the
  -- required roles, if there are any. Nothing but the error is written.
  pub authorize_lem :
      (m : Metadata) (s : State U)
      → (is_authorized (authorize m s).0 ≡ (
          s.authenticated
          && (meets_role (role_of s) (non_empty m.required_role)
              && meets_roles (role_of s) m.required_roles)))
        × ((authorize m s).1 ≡ record s { auth_error = (authorize m s).1.auth_error })
  unfolding authorize
  authorize_lem m s =
      let role = role_of s in
      let required = non_empty m.required_role in
      (
        ground (arith, check_role_lem role required m.required_roles s),
        ground (arith, check_role_frame role required m.required_roles s),
      )

module _ {W U : Type 0} where
  -- What a successful authentication rests on.
  pub record IsVouched (providers : Providers W U) (m : Metadata) (w w' : W) (u : U) : Type 0 where
    pub token : String
    pub provider : Provider W U
    pub info : UserInfo U
    pub sent : non_empty (extract_token m) ≡ some token
    pub registered : get providers (provider_name m) ≡ some provider
    pub accepted : provider token w ≡ (ok (some info), w')
    pub named : info.user ≡ u

  conclude-authenticated :
      (name : String) (s s' : State U) (answer : Result (Option (UserInfo U))) (w w' : W) (u : U)
      → conclude name s (answer, w) ≡ (ok (authenticated u), (s', w'))
      → (info : UserInfo U) × (answer ≡ ok (some info)) × (w ≡ w') × (info.user ≡ u)
  unfolding conclude
  conclude-authenticated name s s' (ok none) w w' u h = cc
  conclude-authenticated name s s' (ok (some info)) w w' u h =
      (info, refl, ground arith, ground arith)
  conclude-authenticated name s s' (err e) w w' u h = cc

  vouched :
      (providers : Providers W U) (m : Metadata) (s s' : State U) (w w' : W) (u : U)
      (found : Option String)
      → non_empty (extract_token m) ≡ found
      → check_token providers (provider_name m) found s w ≡ (ok (authenticated u), (s', w'))
      → IsVouched providers m w w' u
  unfolding check_token resolve_provider
  vouched providers m s s' w w' u none sent h = cc
  vouched providers m s s' w w' u (some token) sent h =
      elim (Option-cases (get providers (provider_name m))) [
        | inl missing ↦ absurd (ground (arith, h, missing))
        | inr (provider, found) ↦
            let (answer, w1) = provider token w in
            let (info, answered, same, named) =
              conclude-authenticated (provider_name m) s s' answer w1 w' u
                (ground (arith, h, found)) in
            record {
              token = token;
              provider = provider;
              info = info;
              sent = sent;
              registered = found;
              accepted = ground (arith, answered, same);
              named = named;
            }
      ]

  -- A request is authenticated only where it carries a token that is not empty, the provider that it
  -- asks for is registered, and that provider, called on the token, answers the user.
  pub authenticate-IsVouched :
      (providers : Providers W U) (m : Metadata) (s s' : State U) (w w' : W) (u : U)
      → authenticate providers m s w ≡ (ok (authenticated u), (s', w'))
      → IsVouched providers m w w' u
  unfolding authenticate
  authenticate-IsVouched providers m s s' w w' u h =
      vouched providers m s s' w w' u (non_empty (extract_token m)) refl h

-- A token in the header `Bearer …` is taken out of it, unless the metadata holds a token of its own.
pub extract_token-bearer :
    (m : Metadata) (t : String)
    → m.token ≡ none
    → get m.headers "authorization" ≡ some (concat "Bearer " t)
    → extract_token m ≡ some t
unfolding extract_token
extract_token-bearer m t own header = ground (arith, own, header, strip_prefix-append "Bearer " t)
