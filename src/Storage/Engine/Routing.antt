-- ===== src/Storage/Engine/Routing.antt =====
-- Which engines `setup` makes, and what a write reaches.
use evoid_plugins.Prelude.{
  ◌≡◌, refl, ap, sym, ◌∙◌, String, true, false, ◌||◌, Option, none, some, List, [], ◌∷◌, ◌++◌,
  arith, string_eq, contains, contains-append, Bool-cases, inl, inr,
}
use evoid_plugins.Py.Dict.{Dict, get, has_key, put, values}
use evoid_plugins.Py.Dict.Laws.{has_key-put, has_key-eq}
use evoid_plugins.Py.Exec.{ok, continue, continue-eq-ok}
use evoid_plugins.Py.Text.{has_char, split}
use evoid_plugins.Storage.Engine.{
  Backends, Target, one, many, SmartStorage, StorageIntent, truthy_text, resolve_engine,
  resolve_parts, store_engine, setup_engine, setup_engines, engine_names, complete, setup,
  write_each, write_to_engine, write,
}

module _ {W B V R : Type 0} (backends : Backends W B V R) where
  open backends use {di_resolve, write_to, set_of, set_of-contains}

  resolve_parts_frame :
      (parts : List String) (s : SmartStorage B) (w : W)
      → (resolve_parts backends parts (s, w)).1.0 ≡ s
  unfolding resolve_parts
  resolve_parts_frame [] s w = refl
  resolve_parts_frame (p ∷ ps) s w =
      let (r, w') = di_resolve p w in ground (arith, resolve_parts_frame ps s w')

  setup_engine_lem :
      (name : String) (s s' : SmartStorage B) (w w' : W)
      → setup_engine backends name (s, w) ≡ (ok tt, (s', w'))
      → (target : Target B) × (s' ≡ record s { engines = put s.engines name target })
  unfolding setup_engine store_engine
  setup_engine_lem name s s' w w' h = elim (Bool-cases (has_char b'+' name)) [
    | inl several ↦
        let (bs, s1, ran, rest) =
          continue-eq-ok (resolve_parts backends (split b'+' name) (s, w))
            (λ bs. store_engine backends name (many bs)) (rw several at h) in
        (
          many bs,
          ground (
            arith,
            ap (λ p. p.1.0) ran,
            resolve_parts_frame (split b'+' name) s w,
            ap (λ p. p.1.0) rest,
          ),
        )
    | inr single ↦
        let (b, s1, ran, rest) =
          continue-eq-ok ((di_resolve name w).0, (s, (di_resolve name w).1))
            (λ b. store_engine backends name (one b)) (rw single at h) in
        (one b, ground (arith, ap (λ p. p.1.0) ran, ap (λ p. p.1.0) rest))
  ]

  -- `setup` stands under the names it went through, and under those that were there before.
  setup_engines_lem :
      (names : List String) (s s' : SmartStorage B) (w w' : W) (name : String)
      → setup_engines backends names (s, w) ≡ (ok tt, (s', w'))
      → (has_key s'.engines name ≡ (has_key s.engines name || contains names name))
        × (s' ≡ record s { engines = s'.engines })
  unfolding setup_engines contains
  setup_engines_lem [] s s' w w' name h = ground (arith, ap (λ p. p.1.0) h)
  setup_engines_lem (n ∷ rest) s s' w w' name h =
      let (u, (s1, w1), ran, others) =
        continue-eq-ok (setup_engine backends n (s, w)) (λ _. setup_engines backends rest) h in
      let (target, first) = setup_engine_lem n s s1 w w1 ran in
      ground (
        arith,
        setup_engines_lem rest s1 s' w1 w' name others,
        has_key-put s.engines n name target,
        first,
      )

  setup_open :
      (s : SmartStorage B) (w : W)
      → s.setup_complete ≡ false
      → setup backends (s, w)
        ≡ continue
            (setup_engines backends (engine_names backends s) (s, w))
            (λ _. complete backends)
  unfolding setup
  setup_open s w open' = rw open'

  -- Where `setup` of a store without engines returns, an engine stands under exactly the names of
  -- the mapping and of the users' connections, the rest of the store is as before, and to set the
  -- store up again does nothing.
  pub setup_covers :
      (s s' : SmartStorage B) (w w' : W) (name : String)
      → s.engines ≡ []
      → s.setup_complete ≡ false
      → setup backends (s, w) ≡ (ok tt, (s', w'))
      → (has_key s'.engines name
          ≡ (contains (values s.mapping) name || contains (values s.user_connections) name))
        × (s' ≡ record s { engines = s'.engines; setup_complete = true })
        × (setup backends (s', w') ≡ (ok tt, (s', w')))
  unfolding setup complete has_key
  setup_covers s s' w w' name fresh open' h =
      let (u, (s1, w1), ran, done') =
        continue-eq-ok (setup_engines backends (engine_names backends s) (s, w))
          (λ _. complete backends) (sym (setup_open s w open') ∙ h) in
      let (known, frame) = setup_engines_lem (engine_names backends s) s s1 w w1 name ran in
      ground (
        arith,
        set_of-contains (values s.mapping ++ values s.user_connections) name,
        contains-append (values s.mapping) (values s.user_connections) name,
        ap (λ p. p.1.0) done',
      )

  -- A write to a name under which no engine stands answers `true` and writes nothing.
  pub write_unmapped :
      (s : SmartStorage B) (w : W) (data_type : String) (data' : Dict String V)
      (intent : Option StorageIntent) (user_id : Option String) (name : String)
      → s.setup_complete ≡ true
      → truthy_text (resolve_engine s data_type intent user_id) ≡ some name
      → has_key s.engines name ≡ false
      → write backends data_type data' intent user_id (s, w) ≡ (ok true, (s, w))
  unfolding write write_to_engine write_each setup resolve_engine
  write_unmapped s w data_type data' intent user_id name ready routed missing =
      rw (ready, routed, missing_engine)
    where
      missing_engine : get s.engines name ≡ none
      missing_engine = ground (arith, has_key-eq s.engines name)
