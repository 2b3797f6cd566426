-- ===== src/Kv/Table.antt =====
-- What the packages that keep values use of others: the table `kv_store` behind a database driver, and
-- the module `json`. These are interfaces; the laws say what a call that does not raise has done.
use evoid_plugins.Prelude.{
  ℕ, String, Bool, true, ◌&&◌, ◌≡◌, ◌↔◌, Option, none, some, List, arith, HasEq, ◌==◌, string_eq,
  ==_iff, if◌then◌else◌,
}
use evoid_plugins.Py.Dict.{Dict, get, has_key, put, remove}
use evoid_plugins.Py.Dict.Laws.{get-put, get-remove, has_key-eq}
use evoid_plugins.Py.Exec.{Result, ok, err}

-- a key and a namespace
pub record Row : Type 0 where
  pub key : String
  pub namespace : String

unfoldable pub row_beq : Row → Row → Bool
row_beq r s = r.key == s.key && r.namespace == s.namespace

pub row_beq_iff : (r s : Row) → (row_beq r s ≡ true) ↔ (r ≡ s)
unfolding row_beq
row_beq_iff r s = ground (arith, ==_iff r.key s.key, ==_iff r.namespace s.namespace)

instance abbrev pub row_eq : HasEq Row
row_eq = record { test = row_beq; test_iff = row_beq_iff }

-- `json.dumps` and `json.loads`, on the type of values; both may raise.
pub record Json (V : Type 0) : Type 0 where
  pub dumps : V → Result String
  pub loads : String → Result V
  pub loads-dumps : (v : V) (s : String) → dumps v ≡ ok s → loads s ≡ ok v

-- `W` is the world with the database, and `C` the type of what a query answers for a column of JSON.
-- `rows` is what stands in the table, as the connection sees it, and `stored` what a text that is
-- inserted is answered as.
pub record Table (W C : Type 0) : Type 0 where
  pub connect : W → Result (Unit {0}) × W
  pub create : W → Result (Unit {0}) × W
  pub select : Row → W → Result (Option C) × W
  pub insert : Row → String → W → Result (Unit {0}) × W
  pub erase : Row → W → Result ℕ × W
  pub list : String → W → Result (List String) × W
  pub commit : W → Result (Unit {0}) × W
  pub probe : W → Result (Unit {0}) × W
  pub close : W → W
  pub rows : W → Dict Row C
  pub stored : String → C
  pub connect-rows : (w : W) → rows (connect w).1 ≡ rows w
  pub create-rows : (w : W) → rows (create w).1 ≡ rows w
  pub commit-ok : {u : Unit {0}} (w w' : W) → commit w ≡ (ok u, w') → rows w' ≡ rows w
  pub select-ok :
      (k : Row) (w w' : W) (found : Option C)
      → select k w ≡ (ok found, w')
      → (found ≡ get (rows w) k) × (rows w' ≡ rows w)
  pub insert-ok :
      {u : Unit {0}} (k : Row) (s : String) (w w' : W)
      → insert k s w ≡ (ok u, w')
      → rows w' ≡ put (rows w) k (stored s)
  pub erase-ok :
      (k : Row) (w w' : W) (count : ℕ)
      → erase k w ≡ (ok count, w')
      → (count ≡ (if has_key (rows w) k then 1 else 0)) × (rows w' ≡ remove (rows w) k)

-- `kwargs.get("namespace", "default")`
abbrev pub row_of : String → Option String → Row
row_of key none = record { key = key; namespace = "default" }
row_of key (some namespace) = record { key = key; namespace = namespace }

module _ {C V : Type 0} (value_of : C → Result V) where
  abbrev pub present : Result V → Result (Option V)
  present (err e) = err e
  present (ok v) = ok (some v)

  -- what a read makes of the answer of a query
  unfoldable pub read_cell : Option C → Result (Option V)
  read_cell none = ok none
  read_cell (some c) = present (value_of c)

  -- The rows of the table hold this map, each value in the form in which it is stored.
  abbrev pub Shows : Dict Row C → Dict Row V → Type 0
  Shows rows m = (k : Row) → read_cell (get rows k) ≡ ok (get m k)

  pub Shows-put :
      (rows : Dict Row C) (m : Dict Row V) (k : Row) (c : C) (v : V)
      → Shows rows m
      → value_of c ≡ ok v
      → Shows (put rows k c) (put m k v)
  unfolding read_cell
  Shows-put rows m k c v shown fits j = ground (arith, get-put rows k j c, get-put m k j v, shown j)

  pub Shows-remove :
      (rows : Dict Row C) (m : Dict Row V) (k : Row)
      → Shows rows m
      → Shows (remove rows k) (remove m k)
  unfolding read_cell
  Shows-remove rows m k shown j = ground (arith, get-remove rows k j, get-remove m k j, shown j)

  pub Shows-has_key :
      (rows : Dict Row C) (m : Dict Row V) (k : Row) → Shows rows m → has_key rows k ≡ has_key m k
  unfolding read_cell
  Shows-has_key rows m k shown = ground (arith, shown k, has_key-eq rows k, has_key-eq m k)
