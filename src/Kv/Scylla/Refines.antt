-- ===== src/Kv/Scylla/Refines.antt =====
-- The class `ScyllaStorage` of packages/evoid-scylla/evoid_scylla/__init__.py keeps a map.
use evoid_plugins.Prelude.{
  String, Bool, true, false, ◌≡◌, ◌≢◌, refl, sym, ap, ◌∙◌, Option, none, some, List, if◌then◌else◌,
  Bool-cases, inl, inr, string_eq, ◌==◌, ==_iff,
}
use mathlib.Core.Path.{subst}
use evoid_plugins.Py.Dict.{Dict, get, has_key, put, remove}
use evoid_plugins.Py.Exec.{ok_inj, Result, ok, err}
use evoid_plugins.Kv.Table.{Row, row_eq, Json, Table, read_cell, present, Shows}
use evoid_plugins.Kv.RowStore.{
  Kept, Selects, Writes, Erases, Deletes, KeepsValues, RowStore, store_of,
}
use evoid_plugins.Kv.Posts.{Post, Post-continue, Post-pure, Post-lift, Post-world}
use evoid_plugins.Kv.Commands.{Store, Command, Answer, serve_all, obey_all, serve_all-obey_all}
use evoid_plugins.Kv.Scylla.{
  ScyllaStorage, setup, first_setup, execute, loaded, read, write, delete,
}

module _ {W V : Type 0} (table : Table W String) (json : Json V) where
  abbrev pub rows_of : ScyllaStorage × W → Dict Row String
  rows_of s = table.rows s.1

  first_setup-rows :
      (s : ScyllaStorage) (w : W)
      → Post rows_of (first_setup table json (s, w)) (Kept table json json.loads (table.rows w))
  first_setup-rows s w =
      let K = Kept table json json.loads (table.rows w) in
      Post-continue rows_of _ _ K K
        (Post-world table.rows table.connect s w K
          (λ u w' ran. ap (λ r. table.rows r.1) (sym ran) ∙ table.connect-rows w))
        (λ u (s', w') kept.
          Post-continue rows_of _ _ K K
            (Post-pure rows_of tt (record s' { session = true }, w') K kept)
            (λ v (t, x) kept'.
              Post-world table.rows table.create t x K
                (λ y w'' ran. ap (λ r. table.rows r.1) (sym ran) ∙ table.create-rows x ∙ kept')))

  setup-rows :
      (s : ScyllaStorage) (w : W)
      → Post rows_of (setup table json (s, w)) (Kept table json json.loads (table.rows w))
  unfolding setup
  setup-rows s w = either s.session
    where
      either :
          (has_session : Bool)
          → Post rows_of
              (if has_session then (ok tt, (s, w)) else first_setup table json (s, w))
              (Kept table json json.loads (table.rows w))
      either true = Post-pure rows_of tt (s, w) (Kept table json json.loads (table.rows w)) refl
      either false = first_setup-rows s w

  -- A query is run on the rows as they were.
  execute-rows :
      {A : Type 0} (query : W → Result A × W) (s : ScyllaStorage) (w : W)
      (Q : A → Dict Row String → Type 0)
      → ((a : A) (x x' : W)
          → table.rows x ≡ table.rows w
          → query x ≡ (ok a, x')
          → Q a (table.rows x'))
      → Post rows_of (execute table json query (s, w)) Q
  unfolding execute
  execute-rows query s w Q does =
      Post-continue rows_of _ _ (Kept table json json.loads (table.rows w)) Q (setup-rows s w)
        (λ u (s', x) kept. Post-world table.rows query s' x Q (λ a x' ran. does a x x' kept ran))

  -- `json.loads` raises on the empty text.
  abbrev pub IsStrict : Type 0
  IsStrict = (v : V) → json.loads "" ≢ ok v

  value_there :
      (s : String) (r : Result V) (v : Option V)
      → json.loads s ≡ r
      → present json.loads r ≡ ok v
      → (u : V) × (json.loads s ≡ ok u)
  value_there s (ok u) v e h = (u, e)
  value_there s (err e) v e' h = cc

  loaded-read_cell :
      (strict : IsStrict) (cell : Option String) (v : Option V)
      → read_cell json.loads cell ≡ ok v
      → loaded table json cell ≡ ok v
  unfolding loaded read_cell
  loaded-read_cell strict none v h = h
  loaded-read_cell strict (some s) v h = elim (Bool-cases (s == "")) [
    | inl empty ↦
        let (u, there) = value_there s (json.loads s) v refl h in
        absurd (strict u (subst (λ t. json.loads t ≡ ok u) ((==_iff s "").0 empty) there))
    | inr full ↦ rw (full, loaded) h
  ]

  pub read-rows :
      (strict : IsStrict) (k : Row) (s : ScyllaStorage × W) (v : Option V)
      → read_cell json.loads (get (rows_of s) k) ≡ ok v
      → Post rows_of
          (read table json k.key (some k.namespace) s)
          (λ found rows. (found ≡ v) × (rows ≡ rows_of s))
  unfolding read
  read-rows strict k (s, w) v cell =
      let rows = table.rows w in
      let Q : Option V → Dict Row String → Type 0 = λ found rows'. (found ≡ v) × (rows' ≡ rows) in
      Post-continue rows_of _ _ (Selects table json json.loads rows k) Q
        (execute-rows (table.select k) s w (Selects table json json.loads rows k)
          (λ found x x' same ran.
            let (found_is, rows_are) = table.select-ok k x x' found ran in
            (found_is ∙ ap (λ d. get d k) same, rows_are ∙ same)))
        (λ found t (found_is, rows_are).
          Post-lift rows_of (loaded table json found) t Q (λ u read_is. (
            ok_inj (
                sym read_is
                ∙ ap (loaded table json) found_is
                ∙ loaded-read_cell strict (get rows k) v cell),
            rows_are,
          )))

  pub write-rows :
      (k : Row) (v : V) (s : ScyllaStorage × W)
      → Post rows_of
          (write table json k.key v (some k.namespace) s)
          (Writes table json json.loads (rows_of s) k v)
  unfolding write
  write-rows k v (s, w) =
      let rows = table.rows w in
      let Q = Writes table json json.loads rows k v in
      let D : String → Dict Row String → Type 0 =
        λ text rows'. (json.dumps v ≡ ok text) × (rows' ≡ rows) in
      Post-continue rows_of _ _ D Q
        (Post-lift rows_of (json.dumps v) (s, w) D (λ text dumped. (dumped, refl)))
        (λ text (s', w') (dumped, kept).
          let I : Unit {0} → Dict Row String → Type 0 =
            λ u rows'. rows' ≡ put rows k (table.stored text) in
          Post-continue rows_of _ _ I Q
            (execute-rows (table.insert k text) s' w' I (λ u x x' same ran.
              table.insert-ok k text x x' ran
              ∙ ap (λ d. put d k (table.stored text)) (same ∙ kept)))
            (λ u t inserted. Post-pure rows_of true t Q (refl, (text, dumped, inserted))))

  pub delete-rows :
      (k : Row) (s : ScyllaStorage × W)
      → Post rows_of
          (delete table json k.key (some k.namespace) s)
          (Deletes table json json.loads (λ b. true) (rows_of s) k)
  unfolding delete
  delete-rows k (s, w) =
      let rows = table.rows w in
      let Q = Deletes table json json.loads (λ b. true) rows k in
      let E = Erases table json json.loads rows k in
      Post-continue rows_of _ _ E Q
        (execute-rows (table.erase k) s w E (λ n x x' same ran.
          let (count_is, rows_are) = table.erase-ok k x x' n ran in
          (
            count_is ∙ ap (λ d. if has_key d k then 1 else 0) same,
            rows_are ∙ ap (λ d. remove d k) same,
          )))
        (λ n t (count_is, erased). Post-pure rows_of true t Q (refl, erased))

  abbrev pub as_rows : IsStrict → RowStore table json json.loads rows_of
  as_rows strict = record {
    read = λ k. read table json k.key (some k.namespace);
    write = λ k v. write table json k.key v (some k.namespace);
    delete = λ k. delete table json k.key (some k.namespace);
    deleted = λ b. true;
    reads = read-rows strict;
    writes = write-rows;
    deletes = delete-rows;
  }

  abbrev pub scylla_store :
      IsStrict → KeepsValues table json json.loads → Store (ScyllaStorage × W) V
  scylla_store strict keeps = store_of table json json.loads rows_of (as_rows strict) keeps

  -- Any sequence of reads, writes and deletes that does not raise answers what a map from keys and
  -- namespaces to values answers, but that every delete answers `True`; the table then holds the map.
  pub scylla-serve_all :
      (strict : IsStrict) (keeps : KeepsValues table json json.loads) (cs : List (Command V))
      (m : Dict Row V) (s s' : ScyllaStorage × W) (answers : List (Answer V))
      → Shows json.loads (table.rows s.1) m
      → serve_all (scylla_store strict keeps) cs s ≡ (ok answers, s')
      → (answers ≡ (obey_all (λ b. true) cs m).0)
        × Shows json.loads (table.rows s'.1) (obey_all (λ b. true) cs m).1
  scylla-serve_all strict keeps cs m s s' answers shown ran =
      serve_all-obey_all (scylla_store strict keeps) cs m s s' answers shown ran
