-- ===== src/Evoid.antt =====
-- What the plugins use of the package `evoid`, which is not part of this repository: the
-- enumeration `Level` and the parts of an intent and of a context that they read.
use evoid_plugins.Prelude.{ℕ, String, Option}
use evoid_plugins.Py.Dict.{Dict}
use evoid_plugins.Py.Value.{Atom}

-- `named s` is `Level[s.upper()]`, `none` for the `KeyError`; a member is its index. `value_of` is
-- the member's `.value`.
pub record Levels : Type 0 where
  pub named : String → Option ℕ
  pub value_of : ℕ → String

-- `metadata` and `state` hold atoms.
pub record Intent : Type 0 where
  pub name : String
  pub level : ℕ
  pub metadata : Dict String Atom

pub record Context : Type 0 where
  pub intent : Intent
  pub state : Dict String Atom
