-- ===== src/Di/Engine/Key.antt =====
-- The keys of the per-user cache of engine.py: `(name, user_id)` and `(name, impl_name, user_id)`.
use evoid_plugins.Prelude.{
  String, Bool, true, false, ◌&&◌, ◌≡◌, ◌↔◌, arith, HasEq, ◌==◌, string_eq, ==_iff,
}
use evoid_plugins.Py.Value.{Atom, str, atom_eq}

pub data UserKey : Type 0 where
  direct : (name user_id : String) → UserKey
  routed : (name impl_name : String) (user_id : Atom) → UserKey

unfoldable pub user_key_beq : UserKey → UserKey → Bool
user_key_beq (direct n u) (direct m v) = n == m && u == v
user_key_beq (direct n u) (routed m j v) = false
user_key_beq (routed n i u) (direct m v) = false
user_key_beq (routed n i u) (routed m j v) = n == m && (i == j && u == v)

pub user_key_beq_iff : (a b : UserKey) → (user_key_beq a b ≡ true) ↔ (a ≡ b)
unfolding user_key_beq
user_key_beq_iff (direct n u) (direct m v) = ground (arith, ==_iff n m, ==_iff u v)
user_key_beq_iff (direct n u) (routed m j v) = ground arith
user_key_beq_iff (routed n i u) (direct m v) = ground arith
user_key_beq_iff (routed n i u) (routed m j v) = ground (arith, ==_iff n m, ==_iff i j, ==_iff u v)

instance abbrev pub user_key_eq : HasEq UserKey
user_key_eq = record { test = user_key_beq; test_iff = user_key_beq_iff }

-- the test in `clear_user`
unfoldable pub is_of_user : String → UserKey → Bool
is_of_user user_id (direct n u) = u == user_id
is_of_user user_id (routed n i u) = u == str user_id
