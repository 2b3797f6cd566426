-- ===== src/Kv/RowStore.antt =====
-- A class over the table `kv_store`: what its operations do to the rows makes it the map of `Store`.
use mathlib.Core.Path.{subst}
use evoid_plugins.Prelude.{
  ℕ, String, Bool, true, false, ◌≡◌, refl, sym, ap, ◌∙◌, Option, if◌then◌else◌, ltb,
}
use evoid_plugins.Py.Dict.{Dict, get, has_key, put, remove}
use evoid_plugins.Py.Exec.{Result, ok, Exec}
use evoid_plugins.Kv.Table.{
  Row, row_eq, Json, Table, read_cell, Shows, Shows-put, Shows-remove, Shows-has_key,
}
use evoid_plugins.Kv.Posts.{Post}
use evoid_plugins.Kv.Commands.{Store}

module _ {W C V : Type 0} (table : Table W C) (json : Json V) (value_of : C → Result V) where
  abbrev pub Kept : Dict Row C → Unit {0} → Dict Row C → Type 0
  Kept rows u rows' = rows' ≡ rows

  -- the answer of a query
  abbrev pub Selects : Dict Row C → Row → Option C → Dict Row C → Type 0
  Selects rows k found rows' = (found ≡ get rows k) × (rows' ≡ rows)

  -- what a read answers, and that it leaves the rows as they are
  abbrev pub Reads : Dict Row C → Row → Option V → Dict Row C → Type 0
  Reads rows k found rows' = (read_cell value_of (get rows k) ≡ ok found) × (rows' ≡ rows)

  -- what a write does
  abbrev pub Writes : Dict Row C → Row → V → Bool → Dict Row C → Type 0
  Writes rows k v b rows' =
      (b ≡ true)
      × ((text : String) × (json.dumps v ≡ ok text) × (rows' ≡ put rows k (table.stored text)))

  -- what a delete does
  abbrev pub Erases : Dict Row C → Row → ℕ → Dict Row C → Type 0
  Erases rows k n rows' = (n ≡ (if has_key rows k then 1 else 0)) × (rows' ≡ remove rows k)

  abbrev pub Deletes : (Bool → Bool) → Dict Row C → Row → Bool → Dict Row C → Type 0
  Deletes deleted rows k b rows' = (b ≡ deleted (has_key rows k)) × (rows' ≡ remove rows k)

  pub counted : (b : Bool) → ltb 0 (if b then 1 else 0) ≡ b
  counted true = refl
  counted false = refl

  -- What the column answers for a text that was dumped has the value of the text.
  abbrev pub KeepsValues : Type 0
  KeepsValues = (text : String) → value_of (table.stored text) ≡ json.loads text

  module _ {S : Type 0} (rows_of : S → Dict Row C) where
    -- the operations of a class, and what they do
    pub record RowStore : Type 0 where
      pub read : Row → Exec S (Option V)
      pub write : Row → V → Exec S Bool
      pub delete : Row → Exec S Bool
      pub deleted : Bool → Bool
      pub reads :
          (k : Row) (s : S) (v : Option V)
          → read_cell value_of (get (rows_of s) k) ≡ ok v
          → Post rows_of (read k s) (λ found rows. (found ≡ v) × (rows ≡ rows_of s))
      pub writes : (k : Row) (v : V) (s : S) → Post rows_of (write k v s) (Writes (rows_of s) k v)
      pub deletes : (k : Row) (s : S) → Post rows_of (delete k s) (Deletes deleted (rows_of s) k)

    abbrev pub store_of : RowStore → KeepsValues → Store S V
    store_of r keeps = record {
      read = r.read;
      write = r.write;
      delete = r.delete;
      deleted = r.deleted;
      holds = λ s m. Shows value_of (rows_of s) m;
      read-ok = λ k m s s' found h ran.
          let (found_is, rows_are) = r.reads k s (get m k) (h k) found s' ran in
          (found_is, subst (λ d. Shows value_of d m) (sym rows_are) h);
      write-ok = λ k v m s s' b h ran.
          let (b_is, (text, dumped, rows_are)) = r.writes k v s b s' ran in
          (
            b_is,
            subst (λ d. Shows value_of d (put m k v)) (sym rows_are)
                (Shows-put value_of (rows_of s) m k (table.stored text) v h
                  (keeps text ∙ json.loads-dumps v text dumped)),
          );
      delete-ok = λ k m s s' b h ran.
          let (b_is, rows_are) = r.deletes k s b s' ran in
          (
            b_is ∙ ap r.deleted (Shows-has_key value_of (rows_of s) m k h),
            subst (λ d. Shows value_of d (remove m k)) (sym rows_are)
                (Shows-remove value_of (rows_of s) m k h),
          );
    }
