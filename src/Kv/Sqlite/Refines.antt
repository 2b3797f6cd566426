-- ===== src/Kv/Sqlite/Refines.antt =====
-- The class `SQLiteStorage` of packages/evoid-sqlite/evoid_sqlite/__init__.py keeps a map.
use evoid_plugins.Prelude.{
  String, Bool, true, false, ◌≡◌, refl, sym, ap, ◌∙◌, Option, some, List, if◌then◌else◌, ltb,
}
use evoid_plugins.Py.Dict.{Dict, get, has_key, put, remove}
use evoid_plugins.Py.Exec.{ok_inj, ok}
use evoid_plugins.Kv.Table.{Row, row_eq, row_of, Json, Table, read_cell, Shows}
use evoid_plugins.Kv.RowStore.{
  Kept, Selects, Reads, Writes, Erases, Deletes, counted, KeepsValues, RowStore, store_of,
}
use evoid_plugins.Kv.Posts.{Post, Post-continue, Post-pure, Post-lift, Post-world}
use evoid_plugins.Kv.Commands.{Store, Command, Answer, serve_all, obey_all, serve_all-obey_all}
use evoid_plugins.Kv.Sqlite.{SqliteStorage, connect, ensure, read, write, delete}

module _ {W V : Type 0} (table : Table W String) (json : Json V) where
  abbrev pub rows_of : SqliteStorage × W → Dict Row String
  rows_of s = table.rows s.1

  connect-rows :
      (s : SqliteStorage) (w : W)
      → Post rows_of (connect table json (s, w)) (Kept table json json.loads (table.rows w))
  unfolding connect
  connect-rows s w =
      let K = Kept table json json.loads (table.rows w) in
      Post-continue rows_of _ _ K K
        (Post-world table.rows table.connect s w K
          (λ u w' ran. ap (λ r. table.rows r.1) (sym ran) ∙ table.connect-rows w))
        (λ u (s', w') kept.
          Post-continue rows_of _ _ K K
            (Post-pure rows_of tt (record s' { conn = true }, w') K kept)
            (λ v (t, x) kept'.
              Post-continue rows_of _ _ K K
                (Post-world table.rows table.create t x K
                  (λ y w'' ran. ap (λ r. table.rows r.1) (sym ran) ∙ table.create-rows x ∙ kept'))
                (λ y (t', x') kept''.
                  Post-world table.rows table.commit t' x' K
                    (λ z w'' ran. table.commit-ok x' w'' ran ∙ kept''))))

  ensure-rows :
      (s : SqliteStorage) (w : W)
      → Post rows_of (ensure table json (s, w)) (Kept table json json.loads (table.rows w))
  unfolding ensure
  ensure-rows s w = either s.conn
    where
      either :
          (open_conn : Bool)
          → Post rows_of
              (if open_conn then (ok tt, (s, w)) else connect table json (s, w))
              (Kept table json json.loads (table.rows w))
      either true = Post-pure rows_of tt (s, w) (Kept table json json.loads (table.rows w)) refl
      either false = connect-rows s w

  pub read-rows :
      (key : String) (namespace : Option String) (s : SqliteStorage) (w : W)
      → Post rows_of
          (read table json key namespace (s, w))
          (Reads table json json.loads (table.rows w) (row_of key namespace))
  unfolding read
  read-rows key namespace s w =
      let k = row_of key namespace in
      let rows = table.rows w in
      Post-continue rows_of _ _ (Kept table json json.loads rows)
        (Reads table json json.loads rows k) (ensure-rows s w)
        (λ u (s', w') kept.
          Post-continue rows_of _ _ (Selects table json json.loads rows k)
            (Reads table json json.loads rows k)
            (Post-world table.rows (table.select k) s' w' (Selects table json json.loads rows k)
              (λ found w'' ran.
                let (found_is, rows_are) = table.select-ok k w' w'' found ran in
                (found_is ∙ ap (λ d. get d k) kept, rows_are ∙ kept)))
            (λ found t (found_is, rows_are).
              Post-lift rows_of (read_cell json.loads found) t (Reads table json json.loads rows k)
                (λ v read_is. (ap (read_cell json.loads) (sym found_is) ∙ read_is, rows_are))))

  pub write-rows :
      (key : String) (v : V) (namespace : Option String) (s : SqliteStorage) (w : W)
      → Post rows_of
          (write table json key v namespace (s, w))
          (Writes table json json.loads (table.rows w) (row_of key namespace) v)
  unfolding write
  write-rows key v namespace s w =
      let k = row_of key namespace in
      let rows = table.rows w in
      let Q = Writes table json json.loads rows k v in
      let D : String → Dict Row String → Type 0 =
        λ text rows'. (json.dumps v ≡ ok text) × (rows' ≡ rows) in
      Post-continue rows_of _ _ (Kept table json json.loads rows) Q (ensure-rows s w) (λ u t kept.
        Post-continue rows_of _ _ D Q
          (Post-lift rows_of (json.dumps v) t D (λ text dumped. (dumped, kept)))
          (λ text (s', w') (dumped, kept').
            let I : Unit {0} → Dict Row String → Type 0 =
              λ u rows'. rows' ≡ put rows k (table.stored text) in
            Post-continue rows_of _ _ I Q
              (Post-world table.rows (table.insert k text) s' w' I (λ x w'' ran.
                table.insert-ok k text w' w'' ran ∙ ap (λ d. put d k (table.stored text)) kept'))
              (λ x (t', x') inserted.
                Post-continue rows_of _ _ I Q
                  (Post-world table.rows table.commit t' x' I
                    (λ y w'' ran. table.commit-ok x' w'' ran ∙ inserted))
                  (λ y t'' committed.
                    Post-pure rows_of true t'' Q (refl, (text, dumped, committed))))))

  pub delete-rows :
      (key : String) (namespace : Option String) (s : SqliteStorage) (w : W)
      → Post rows_of
          (delete table json key namespace (s, w))
          (Deletes table json json.loads (λ b. b) (table.rows w) (row_of key namespace))
  unfolding delete
  delete-rows key namespace s w =
      let k = row_of key namespace in
      let rows = table.rows w in
      let Q = Deletes table json json.loads (λ b. b) rows k in
      let E = Erases table json json.loads rows k in
      Post-continue rows_of _ _ (Kept table json json.loads rows) Q (ensure-rows s w)
        (λ u (s', w') kept.
          Post-continue rows_of _ _ E Q
            (Post-world table.rows (table.erase k) s' w' E (λ n w'' ran.
              let (count_is, rows_are) = table.erase-ok k w' w'' n ran in
              (
                count_is ∙ ap (λ d. if has_key d k then 1 else 0) kept,
                rows_are ∙ ap (λ d. remove d k) kept,
              )))
            (λ n (t, x) (count_is, erased).
              let R : Unit {0} → Dict Row String → Type 0 = λ u rows'. rows' ≡ remove rows k in
              Post-continue rows_of _ _ R Q
                (Post-world table.rows table.commit t x R
                  (λ y w'' ran. table.commit-ok x w'' ran ∙ erased))
                (λ y t' committed. Post-pure rows_of (ltb 0 n) t' Q (
                  ap (λ m. ltb 0 m) count_is ∙ counted table json json.loads (has_key rows k),
                  committed,
                ))))

  abbrev pub as_rows : RowStore table json json.loads rows_of
  as_rows = record {
    read = λ k. read table json k.key (some k.namespace);
    write = λ k v. write table json k.key v (some k.namespace);
    delete = λ k. delete table json k.key (some k.namespace);
    deleted = λ b. b;
    reads = λ k (s, w) v cell found s' ran.
        let (read_is, rows_are) = read-rows k.key (some k.namespace) s w found s' ran in
        (ok_inj (sym read_is ∙ cell), rows_are);
    writes = λ k v (s, w). write-rows k.key v (some k.namespace) s w;
    deletes = λ k (s, w). delete-rows k.key (some k.namespace) s w;
  }

  abbrev pub sqlite_store : KeepsValues table json json.loads → Store (SqliteStorage × W) V
  sqlite_store keeps = store_of table json json.loads rows_of as_rows keeps

  -- Any sequence of reads, writes and deletes that does not raise answers what a map from keys and
  -- namespaces to values answers, a delete whether there was a value; the table then holds the map.
  pub sqlite-serve_all :
      (keeps : KeepsValues table json json.loads) (cs : List (Command V)) (m : Dict Row V)
      (s s' : SqliteStorage × W) (answers : List (Answer V))
      → Shows json.loads (table.rows s.1) m
      → serve_all (sqlite_store keeps) cs s ≡ (ok answers, s')
      → (answers ≡ (obey_all (λ b. b) cs m).0)
        × Shows json.loads (table.rows s'.1) (obey_all (λ b. b) cs m).1
  sqlite-serve_all keeps cs m s s' answers shown ran =
      serve_all-obey_all (sqlite_store keeps) cs m s s' answers shown ran
