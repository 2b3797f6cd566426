-- ===== src/Kv/Postgres/Refines.antt =====
-- The class `PostgresStorage` of packages/evoid-postgresql/evoid_postgresql/__init__.py keeps a map.
use evoid_plugins.Prelude.{
  String, Bool, true, false, ◌≡◌, refl, sym, ap, ◌∙◌, Option, some, List, if◌then◌else◌, ltb,
  string_eq,
}
use mathlib.Core.Path.{subst}
use evoid_plugins.Py.Dict.{Dict, get, has_key, put, remove}
use evoid_plugins.Py.Exec.{ok_inj, Result, ok}
use evoid_plugins.Kv.Table.{Row, row_eq, Json, Table, read_cell, Shows}
use evoid_plugins.Kv.RowStore.{
  Kept, Selects, Writes, Erases, Deletes, counted, KeepsValues, RowStore, store_of,
}
use evoid_plugins.Kv.Posts.{Post, Post-continue, Post-pure, Post-lift, Post-world}
use evoid_plugins.Kv.Commands.{Store, Command, Answer, serve_all, obey_all, serve_all-obey_all}
use evoid_plugins.Kv.Postgres.{
  PostgresStorage, Cell, Method, value_of, on_world, begin, setup, first_setup, read, write, delete,
}

module _ {W V : Type 0} (table : Table W (Cell V)) (json : Json V) where
  abbrev pub rows_of : PostgresStorage × W → Dict Row (Cell V)
  rows_of s = table.rows s.1

  abbrev pub value : Cell V → Result V
  value = value_of table json

  -- A transaction runs its block on the rows as they were, and leaves what the block made of them.
  begin-rows :
      {A : Type 0} (block : Method W A) (s : PostgresStorage) (w : W)
      (Q : A → Dict Row (Cell V) → Type 0)
      → ((t : PostgresStorage × W) → rows_of t ≡ table.rows w → Post rows_of (block t) Q)
      → Post rows_of (begin table json block (s, w)) Q
  begin-rows block s w Q runs =
      let K = Kept table json value (table.rows w) in
      Post-continue rows_of _ _ K Q
        (Post-world table.rows table.connect s w K
          (λ u w' ran. ap (λ r. table.rows r.1) (sym ran) ∙ table.connect-rows w))
        (λ u t kept. Post-continue rows_of _ _ Q Q (runs t kept) (λ a (t', x) done.
          Post-continue rows_of _ _ (λ v rows'. Q a rows') Q
            (Post-world table.rows table.commit t' x (λ v rows'. Q a rows')
              (λ v x' ran. subst (Q a) (sym (table.commit-ok x x' ran)) done))
            (λ v t'' done'. Post-pure rows_of a t'' Q done')))

  first_setup-rows :
      (s : PostgresStorage) (w : W)
      → Post rows_of (first_setup table json (s, w)) (Kept table json value (table.rows w))
  first_setup-rows s w =
      let K = Kept table json value (table.rows w) in
      Post-continue rows_of _ _ K K (Post-pure rows_of tt (record s { engine = true }, w) K refl)
        (λ v (t, x) kept. begin-rows (on_world table json table.create) t x K (λ (t', x') same.
          Post-world table.rows table.create t' x' K
            (λ y w'' ran. ap (λ r. table.rows r.1) (sym ran) ∙ table.create-rows x' ∙ same ∙ kept)))

  setup-rows :
      (s : PostgresStorage) (w : W)
      → Post rows_of (setup table json (s, w)) (Kept table json value (table.rows w))
  unfolding setup
  setup-rows s w = either s.engine
    where
      either :
          (has_engine : Bool)
          → Post rows_of
              (if has_engine then (ok tt, (s, w)) else first_setup table json (s, w))
              (Kept table json value (table.rows w))
      either true = Post-pure rows_of tt (s, w) (Kept table json value (table.rows w)) refl
      either false = first_setup-rows s w

  pub read-rows :
      (k : Row) (s : PostgresStorage × W) (v : Option V)
      → read_cell value (get (rows_of s) k) ≡ ok v
      → Post rows_of
          (read table json k.key (some k.namespace) s)
          (λ found rows. (found ≡ v) × (rows ≡ rows_of s))
  unfolding read
  read-rows k (s, w) v cell =
      let rows = table.rows w in
      let Q : Option V → Dict Row (Cell V) → Type 0 = λ found rows'. (found ≡ v) × (rows' ≡ rows) in
      let S = Selects table json value rows k in
      Post-continue rows_of _ _ (Kept table json value rows) Q (setup-rows s w) (λ u (s', w') kept.
        begin-rows _ s' w' Q (λ (t, x) same.
          Post-continue rows_of _ _ S Q
            (Post-world table.rows (table.select k) t x S (λ found x' ran.
              let (found_is, rows_are) = table.select-ok k x x' found ran in
              (found_is ∙ ap (λ d. get d k) (same ∙ kept), rows_are ∙ same ∙ kept)))
            (λ found t' (found_is, rows_are).
              Post-lift rows_of (read_cell value found) t' Q (λ r read_is.
                (ok_inj (sym read_is ∙ ap (read_cell value) found_is ∙ cell), rows_are)))))

  pub write-rows :
      (k : Row) (v : V) (s : PostgresStorage × W)
      → Post rows_of
          (write table json k.key v (some k.namespace) s)
          (Writes table json value (rows_of s) k v)
  unfolding write
  write-rows k v (s, w) =
      let rows = table.rows w in
      let Q = Writes table json value rows k v in
      let D : String → Dict Row (Cell V) → Type 0 =
        λ text rows'. (json.dumps v ≡ ok text) × (rows' ≡ rows) in
      let I : Unit {0} → Dict Row (Cell V) → Type 0 = λ u rows'.
        (text : String) × (json.dumps v ≡ ok text) × (rows' ≡ put rows k (table.stored text)) in
      Post-continue rows_of _ _ (Kept table json value rows) Q (setup-rows s w) (λ u (s', w') kept.
        Post-continue rows_of _ _ I Q
          (begin-rows _ s' w' I (λ t same.
            Post-continue rows_of _ _ D I
              (Post-lift rows_of (json.dumps v) t D (λ text dumped. (dumped, same ∙ kept)))
              (λ text (t', x) (dumped, are).
                Post-world table.rows (table.insert k text) t' x I (λ y x' ran. (
                  text,
                  dumped,
                  table.insert-ok k text x x' ran ∙ ap (λ d. put d k (table.stored text)) are,
                )))))
          (λ y t written. Post-pure rows_of true t Q (refl, written)))

  pub delete-rows :
      (k : Row) (s : PostgresStorage × W)
      → Post rows_of
          (delete table json k.key (some k.namespace) s)
          (Deletes table json value (λ b. b) (rows_of s) k)
  unfolding delete
  delete-rows k (s, w) =
      let rows = table.rows w in
      let Q = Deletes table json value (λ b. b) rows k in
      let E = Erases table json value rows k in
      Post-continue rows_of _ _ (Kept table json value rows) Q (setup-rows s w) (λ u (s', w') kept.
        begin-rows _ s' w' Q (λ (t, x) same.
          Post-continue rows_of _ _ E Q
            (Post-world table.rows (table.erase k) t x E (λ n x' ran.
              let (count_is, rows_are) = table.erase-ok k x x' n ran in
              (
                count_is ∙ ap (λ d. if has_key d k then 1 else 0) (same ∙ kept),
                rows_are ∙ ap (λ d. remove d k) (same ∙ kept),
              )))
            (λ n t' (count_is, erased).
              Post-pure rows_of (ltb 0 n) t' Q
                (ap (λ m. ltb 0 m) count_is ∙ counted table json value (has_key rows k), erased))))

  abbrev pub as_rows : RowStore table json value rows_of
  as_rows = record {
    read = λ k. read table json k.key (some k.namespace);
    write = λ k v. write table json k.key v (some k.namespace);
    delete = λ k. delete table json k.key (some k.namespace);
    deleted = λ b. b;
    reads = read-rows;
    writes = write-rows;
    deletes = delete-rows;
  }

  abbrev pub postgres_store : KeepsValues table json value → Store (PostgresStorage × W) V
  postgres_store keeps = store_of table json value rows_of as_rows keeps

  -- Any sequence of reads, writes and deletes that does not raise answers what a map from keys and
  -- namespaces to values answers, a delete whether there was a value; the table then holds the map.
  pub postgres-serve_all :
      (keeps : KeepsValues table json value) (cs : List (Command V)) (m : Dict Row V)
      (s s' : PostgresStorage × W) (answers : List (Answer V))
      → Shows value (table.rows s.1) m
      → serve_all (postgres_store keeps) cs s ≡ (ok answers, s')
      → (answers ≡ (obey_all (λ b. b) cs m).0)
        × Shows value (table.rows s'.1) (obey_all (λ b. b) cs m).1
  postgres-serve_all keeps cs m s s' answers shown ran =
      serve_all-obey_all (postgres_store keeps) cs m s s' answers shown ran
