-- ===== src/Kv/Redis/Restored.antt =====
-- What the class `RedisCache` of packages/evoid-redis/evoid_redis/__init__.py gives back.
use mathlib.Core.Path.{subst}
use Prim.Native.String.{◌++◌ as concat}
use evoid_plugins.Prelude.{
  ℕ, String, Bool, true, false, ◌≡◌, refl, sym, ap, ◌∙◌, Option, none, some, if◌then◌else◌, arith,
  nat_eq, string_eq, ◌==◌, ==_refl, Option-cases, inl, inr,
}
use evoid_plugins.Py.Dict.{Dict, get, put}
use evoid_plugins.Py.Dict.Laws.{get-put}
use evoid_plugins.Py.Exec.{ok_inj, ok}
use evoid_plugins.Kv.Posts.{Post, Post-continue, Post-pure, Post-lift}
use evoid_plugins.Kv.Redis.{
  Server, Values, RedisCache, key_of, first_client, get_client, loaded, restore, encode, get_value,
  set_value, store_with,
}

-- the prefix of the keys, and what the server has
abbrev Seen : Type 0
Seen = String × Dict String String

module _ {W V : Type 0} (server : Server W) (values : Values V) where
  abbrev pub seen : RedisCache × W → Seen
  seen (c, w) = (c.prefix, server.rows w)

  abbrev Same : Seen → Unit {0} → Seen → Type 0
  Same d u d' = d' ≡ d

  get_client-seen :
      (c : RedisCache) (w : W) → Post seen (get_client server values (c, w)) (Same (seen (c, w)))
  unfolding get_client
  get_client-seen c w = either c.client
    where
      either :
          (has_client : Bool)
          → Post seen
              (if has_client then (ok tt, (c, w)) else first_client server values (c, w))
              (Same (seen (c, w)))
      either true = Post-pure seen tt (c, w) (Same (seen (c, w))) refl
      either false =
          Post-continue seen _ _ (Same (seen (c, w))) (Same (seen (c, w)))
            (λ u s ran.
              ap (λ r. seen r.1) (sym ran) ∙ ap (λ d. (c.prefix, d)) (server.from_url-rows c.url w))
            (λ u (c', w') kept.
              Post-pure seen tt (record c' { client = true }, w') (Same (seen (c, w))) kept)

  -- what a value comes back as
  unfoldable pub restored : V → V
  restored v = elim (values.is_text v) [
    | none ↦ v
    | some s ↦ loaded server values s (values.json.loads s)
  ]

  -- what a `get` answers, and that it leaves the server as it is
  abbrev Gets : Seen → String → Option V → Seen → Type 0
  Gets d key found d' = (found ≡ restore server values (get d.1 (concat d.0 key))) × (d' ≡ d)

  abbrev Fetches : Seen → String → Option String → Seen → Type 0
  Fetches d key found d' = (found ≡ get d.1 (concat d.0 key)) × (d' ≡ d)

  get_value-seen :
      (key : String) (s : RedisCache × W)
      → Post seen (get_value server values key s) (Gets (seen s) key)
  unfolding get_value
  get_value-seen key (c, w) =
      let d = seen (c, w) in
      Post-continue seen _ _ (Same d) (Gets d key) (get_client-seen c w) (λ u (c', w') kept.
        Post-continue seen _ _ (Fetches d key) (Gets d key)
          (λ found t ran.
            let (found_is, rows_are) =
              server.fetch-ok (key_of c' key) w' t.1 found (ap (λ r. (r.0, r.1.1)) ran) in
            let same_prefix : t.0.prefix ≡ c'.prefix = sym (ap (λ r. r.1.0.prefix) ran) in
            (
              found_is ∙ ap (λ e. get e.1 (concat e.0 key)) kept,
              ap (λ p. (p, server.rows t.1)) same_prefix ∙ ap (λ r. (c'.prefix, r)) rows_are ∙ kept,
            ))
          (λ found t (found_is, kept').
            Post-pure seen (restore server values found) t (Gets d key)
              (ap (restore server values) found_is, kept')))

  -- what a `set` does
  abbrev Sets : Seen → String → V → Bool → Seen → Type 0
  Sets d key v b d' =
      (text : String) × (encode server values v ≡ ok text)
      × (d' ≡ (d.0, put d.1 (concat d.0 key) text))

  store_with-ok :
      {u : Unit {0}} (ttl : Option ℕ) (k text : String) (w w' : W)
      → store_with server values ttl k text w ≡ (ok u, w')
      → server.rows w' ≡ put (server.rows w) k text
  store_with-ok none k text w w' ran = server.store-ok k text w w' ran
  store_with-ok (some ttl) k text w w' ran = either (ttl == 0) ran
    where
      either :
          {u : Unit {0}} (b : Bool)
          → (if b then server.store k text else server.store_for k ttl text) w ≡ (ok u, w')
          → server.rows w' ≡ put (server.rows w) k text
      either true = server.store-ok k text w w'
      either false = server.store_for-ok k ttl text w w'

  set_value-seen :
      (key : String) (v : V) (ttl : Option ℕ) (s : RedisCache × W)
      → Post seen (set_value server values key v ttl s) (Sets (seen s) key v)
  unfolding set_value
  set_value-seen key v ttl (c, w) =
      let d = seen (c, w) in
      let Q = Sets d key v in
      let D : String → Seen → Type 0 = λ text d'. (encode server values v ≡ ok text) × (d' ≡ d) in
      Post-continue seen _ _ (Same d) Q (get_client-seen c w) (λ u t kept.
        Post-continue seen _ _ D Q
          (Post-lift seen (encode server values v) t D (λ text encoded. (encoded, kept)))
          (λ text (c', w') (encoded, kept').
            let I : Unit {0} → Seen → Type 0 = λ x d'. d' ≡ (d.0, put d.1 (concat d.0 key) text) in
            Post-continue seen _ _ I Q
              (λ x t' ran.
                let rows_are =
                  store_with-ok ttl (key_of c' key) text w' t'.1 (ap (λ r. (r.0, r.1.1)) ran) in
                let same_prefix : t'.0.prefix ≡ c'.prefix = sym (ap (λ r. r.1.0.prefix) ran) in
                ap (λ p. (p, server.rows t'.1)) same_prefix
                ∙ ap (λ r. (c'.prefix, r)) rows_are
                ∙ ap (λ e. (e.0, put e.1 (concat e.0 key) text)) kept')
              (λ x t' stored. Post-pure seen true t' Q (text, encoded, stored))))

  restore-encode :
      (v : V) (text : String)
      → encode server values v ≡ ok text
      → restore server values (some text) ≡ some (restored v)
  unfolding encode restore restored
  restore-encode v text h = elim (Option-cases (values.is_text v)) [
    | inl plain ↦
        let back : values.json.loads text ≡ ok v = values.json.loads-dumps v text (
          subst (λ o. (elim o [ none ↦ values.json.dumps v | some s ↦ ok s ]) ≡ ok text) plain h) in
        rw (plain, restored) (ap (λ r. some (loaded server values text r)) back)
    | inr (s, is) ↦
        let same : ok s ≡ ok text =
          subst (λ o. (elim o [ none ↦ values.json.dumps v | some s ↦ ok s ]) ≡ ok text) is h in
        let text_is : s ≡ text = ok_inj same in
        rw (is, restored)
          (ap (λ x. some (loaded server values x (values.json.loads x))) (sym text_is))
  ]

  -- After a `set` that did not raise, a `get` of the same key answers the value, whatever the time to
  -- live, where the value is no text. A text comes back as what it says in JSON, where it says something,
  -- and else as it is.
  pub get_value-set_value :
      (key : String) (v : V) (ttl : Option ℕ) (s t u : RedisCache × W) (b : Bool) (found : Option V)
      → set_value server values key v ttl s ≡ (ok b, t)
      → get_value server values key t ≡ (ok found, u)
      → found ≡ some (restored v)
  get_value-set_value key v ttl s t u b found set got =
      let (text, encoded, stored) = set_value-seen key v ttl s b t set in
      let (found_is, kept) = get_value-seen key t found u got in
      let k = concat s.0.prefix key in
      let fetched : get (put (server.rows s.1) k text) k ≡ some text =
        ground (arith, get-put (server.rows s.1) k k text, ==_refl k) in
      found_is
      ∙ ap (λ d. restore server values (get d.1 (concat d.0 key))) stored
      ∙ ap (restore server values) fetched
      ∙ restore-encode v text encoded
