-- ===== src/Py/Value.antt =====
-- Python values as far as configuration and request contexts hold them: `None`, texts, numbers,
-- members of an enumeration by their index, and dictionaries of these.
use evoid_plugins.Prelude.{
  ℕ, String, Bool, true, false, not, ◌&&◌, ◌≡◌, ◌↔◌, none, some, [], ◌∷◌, arith, HasEq, ◌==◌,
  ==_iff, nat_beq, string_eq, nat_eq, length, all_of,
}
use evoid_plugins.Py.Dict.{Dict, get}

pub data Atom : Type 0 where
  nil : Atom
  str : String → Atom
  number : ℕ → Atom
  enum : ℕ → Atom

pub data Value : Type 0 where
  atom : Atom → Value
  table : Dict String Atom → Value

unfoldable pub atom_beq : Atom → Atom → Bool
atom_beq nil nil = true
atom_beq (str s) (str t) = s == t
atom_beq (number m) (number n) = m == n
atom_beq (enum m) (enum n) = m == n
atom_beq _ _ = false

pub atom_beq_iff : (a b : Atom) → (atom_beq a b ≡ true) ↔ (a ≡ b)
unfolding atom_beq
atom_beq_iff nil b = ground arith
atom_beq_iff (str s) nil = ground arith
atom_beq_iff (str s) (str t) = ground (arith, ==_iff s t)
atom_beq_iff (str s) (number n) = ground arith
atom_beq_iff (str s) (enum n) = ground arith
atom_beq_iff (number m) b = ground arith
atom_beq_iff (enum m) b = ground arith

instance abbrev pub atom_eq : HasEq Atom
atom_eq = record { test = atom_beq; test_iff = atom_beq_iff }

-- `==` of dictionaries does not depend on the order of their entries.
unfoldable pub table_beq : Dict String Atom → Dict String Atom → Bool
table_beq a b =
    nat_beq (length a) (length b)
    && all_of (λ e. elim (get b e.0) [ none ↦ false | some v ↦ atom_beq v e.1 ]) a

unfoldable pub value_beq : Value → Value → Bool
value_beq (atom a) (atom b) = atom_beq a b
value_beq (table a) (table b) = table_beq a b
value_beq _ _ = false

-- `bool(v)`; the members of an enumeration are true
unfoldable pub atom_truthy : Atom → Bool
atom_truthy nil = false
atom_truthy (str s) = not (s == "")
atom_truthy (number n) = not (n == 0)
atom_truthy (enum n) = true

unfoldable pub value_truthy : Value → Bool
unfolding atom_truthy
value_truthy (atom a) = atom_truthy a
value_truthy (table []) = false
value_truthy (table (e ∷ es)) = true
