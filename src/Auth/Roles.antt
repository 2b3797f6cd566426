-- ===== src/Auth/Roles.antt =====
-- The role hierarchy of packages/evoid-auth/evoid_auth/processors.py.
use evoid_plugins.Prelude.{
  ℕ, ◌≡◌, ◌⊎◌, String, Bool, true, false, [], ◌∷◌, arith, string_eq, leb, ◌==◌, contains,
  if◌then◌else◌,
}
use evoid_plugins.Py.Dict.{Dict, get, get_or, has_key}
use evoid_plugins.Py.Dict.Laws.{has_key-eq}

abbrev pub role_hierarchy : Dict String ℕ
role_hierarchy = ("admin", 4) ∷ ("editor", 3) ∷ ("viewer", 2) ∷ ("guest", 1) ∷ []

-- the level of a role, 0 for a role outside of the hierarchy
abbrev pub level : String → ℕ
level role = get_or role_hierarchy role 0

unfoldable pub role_has_permission : String → String → Bool
role_has_permission user_role required = leb (level required) (level user_role)

-- Permission is transitive, and of two roles one has the permissions of the other.
pub role_has_permission_order :
    (a b c : String)
    → role_has_permission a b ≡ true
    → role_has_permission b c ≡ true
    → (role_has_permission a c ≡ true)
      × ((role_has_permission a c ≡ true) ⊎ (role_has_permission c a ≡ true))
unfolding role_has_permission
role_has_permission_order a b c h k = ground arith

-- A required role that is not in the hierarchy is no requirement: every role has it.
pub role_has_permission_unknown :
    (user_role required : String)
    → has_key role_hierarchy required ≡ false
    → role_has_permission user_role required ≡ true
unfolding role_has_permission
role_has_permission_unknown user_role required unknown =
    ground (arith, has_key-eq role_hierarchy required)

-- the hierarchy, written out: who has the permissions of a required role
unfoldable pub permitted : String → String → Bool
permitted role required =
    if "admin" == required
    then contains ("admin" ∷ []) role
    else if "editor" == required
    then contains ("admin" ∷ "editor" ∷ []) role
    else if "viewer" == required
    then contains ("admin" ∷ "editor" ∷ "viewer" ∷ []) role
    else if "guest" == required
    then contains ("admin" ∷ "editor" ∷ "viewer" ∷ "guest" ∷ []) role
    else true

pub role_has_permission_lem :
    (role required : String) → role_has_permission role required ≡ permitted role required
unfolding role_has_permission permitted get contains
role_has_permission_lem role required = ground arith
