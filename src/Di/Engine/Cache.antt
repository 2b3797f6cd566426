-- ===== src/Di/Engine/Cache.antt =====
-- The bound on the per-user cache, and what `clear_user` takes out of it.
use evoid_plugins.Prelude.{
  ℕ, zero, suc, ◌+◌, ◌-◌, ◌≤◌, ◌≡◌, refl, String, not, Option, none, some, arith, string_eq, length,
  if◌then◌else◌,
}
use evoid_plugins.Py.Dict.{get, get_or}
use evoid_plugins.Py.Dict.Laws.{length-put, has_key-eq, get-put, get-keep_if}
use evoid_plugins.Py.Exec.{Result, ok, err, continue}
use evoid_plugins.Di.Engine.Scopes.{KeepsEngine, create-engine}
use evoid_plugins.Di.Engine.Key.{UserKey, direct, user_key_eq, is_of_user, user_key_beq_iff}
use evoid_plugins.Di.Engine.{
  Engine, Factory, absent, object, callable, create, delete_oldest, evict_per_user_if_needed,
  Method, cached_user, cached_singleton, resolve_per_user, resolve_scoped, resolve, clear_user,
  fetch_user, store_user,
}

module _ {W I : Type 0} where
  -- The size of the cache after any call: one more than the limit.
  abbrev pub Fits : Engine W I → Type 0
  Fits e = length e.per_user ≤ e.max_per_user + 1

  -- A method's outcome leaves the cache within its limit, did not raise, and left the world alone.
  record HasRoom (e : Engine W I) (w : W) (after : Result (Unit {0}) × (Engine W I × W))
      : Type 0 where
    done : after.0 ≡ ok tt
    room : length after.1.0.per_user ≤ e.max_per_user
    same_limit : after.1.0.max_per_user ≡ e.max_per_user
    same_world : after.1.1 ≡ w

  delete_oldest-HasRoom :
      (n : ℕ) (e : Engine W I) (w : W)
      → n ≡ length e.per_user - e.max_per_user
      → Fits e
      → HasRoom e w (delete_oldest n (e, w))
  unfolding delete_oldest
  delete_oldest-HasRoom zero e w h fits = ground arith
  delete_oldest-HasRoom (suc zero) e w h fits = ground arith
  delete_oldest-HasRoom (suc (suc n)) e w h fits = absurd (omega arith)

  evict-HasRoom : (e : Engine W I) (w : W) → Fits e → HasRoom e w (evict_per_user_if_needed (e, w))
  unfolding evict_per_user_if_needed
  evict-HasRoom e w fits = delete_oldest-HasRoom (length e.per_user - e.max_per_user) e w refl fits

  -- what follows the making of an instance: it is stored and read back
  stored-Fits :
      (key : UserKey) (made : Result (Option I)) (e : Engine W I) (w : W)
      → length e.per_user ≤ e.max_per_user
      → Fits (continue (made, (e, w)) (λ v s. fetch_user key (store_user key v s).1)).1.0
  stored-Fits key (ok v) e w room = ground (arith, length-put e.per_user key v)
  stored-Fits key (err x) e w room = omega arith

  pub cached_user-Fits :
      (key : UserKey) (make : Method W I (Option I)) (e : Engine W I) (w : W)
      → KeepsEngine make
      → Fits e
      → Fits (cached_user key make (e, w)).1.0
  unfolding cached_user
  cached_user-Fits key make e w keeps fits =
      let (e', w') = (evict_per_user_if_needed (e, w)).1 in
      let (made, (e'', w'')) = make (e', w') in
      ground (arith, evict-HasRoom e w fits, keeps e' w', stored-Fits key made e'' w'')

  pub cached_singleton-Fits :
      (key : String) (make : Method W I (Option I)) (e : Engine W I) (w : W)
      → KeepsEngine make
      → Fits e
      → Fits (cached_singleton key make (e, w)).1.0
  unfolding cached_singleton
  cached_singleton-Fits key make e w keeps fits =
      let (made, (e', w')) = make (e, w) in ground (arith, keeps e w)

  resolve_scoped-Fits :
      (name : String) (user_id : Option String) (scope : String) (f : Factory W I) (e : Engine W I)
      (w : W)
      → Fits e
      → Fits (resolve_scoped name user_id scope f (e, w)).1.0
  unfolding resolve_scoped resolve_per_user
  resolve_scoped-Fits name user_id scope absent e w fits = fits
  resolve_scoped-Fits name none scope f e w fits =
      ground
        (arith, cached_singleton-Fits name (create f) e w (create-engine f), create-engine f e w)
  resolve_scoped-Fits name (some u) scope f e w fits = ground (
    arith,
    cached_singleton-Fits name (create f) e w (create-engine f),
    create-engine f e w,
    cached_user-Fits (direct name u) (create f) e w (create-engine f),
  )

  -- The per-user cache never holds more than one entry beyond its limit.
  pub resolve-Fits :
      (name : String) (user_id : Option String) (e : Engine W I) (w : W)
      → Fits e
      → Fits (resolve name user_id (e, w)).1.0
  unfolding resolve
  resolve-Fits name user_id e w fits = ground (
    arith,
    resolve_scoped-Fits name user_id (get_or e.scopes name "singleton")
        (get_or e.factories name absent) e w,
  )

  stored_answer :
      (key : UserKey) (made : Result (Option I)) (e : Engine W I) (w : W)
      → (continue (made, (e, w)) (λ v s. fetch_user key (store_user key v s).1)).0 ≡ made
  stored_answer key (ok v) e w =
      ground (arith, get-put e.per_user key key v, user_key_beq_iff key key)
  stored_answer key (err x) e w = refl

  -- Where the cache is within its bound the eviction does not show: a look-up in the per-user cache
  -- answers the cached instance, or what the factory makes in the same world.
  pub cached_user_answer :
      (key : UserKey) (f : Factory W I) (e : Engine W I) (w : W)
      → Fits e
      → (cached_user key (create f) (e, w)).0
        ≡ (elim (get e.per_user key) [ some v ↦ ok v | none ↦ (create f (e, w)).0 ])
  unfolding cached_user create
  cached_user_answer key absent e w fits =
      let (e', w') = (evict_per_user_if_needed (e, w)).1 in
      ground (
        arith,
        evict-HasRoom e w fits,
        stored_answer key (ok none) e' w',
        has_key-eq e.per_user key,
      )
  cached_user_answer key (object i) e w fits =
      let (e', w') = (evict_per_user_if_needed (e, w)).1 in
      ground (
        arith,
        evict-HasRoom e w fits,
        stored_answer key (ok (some i)) e' w',
        has_key-eq e.per_user key,
      )
  cached_user_answer key (callable make) e w fits =
      let (e', w') = (evict_per_user_if_needed (e, w)).1 in
      let (made, w'') = make w' in
      ground
        (arith, evict-HasRoom e w fits, stored_answer key made e' w'', has_key-eq e.per_user key)

  -- After `clear_user` the cache holds nothing for the user, on either level, and what it holds for
  -- other users is what it held before.
  pub get-clear_user :
      (e : Engine W I) (user_id : String) (key : UserKey)
      → get (clear_user e user_id).per_user key
        ≡ (if is_of_user user_id key then none else get e.per_user key)
  unfolding clear_user
  get-clear_user e user_id key =
      ground (arith, get-keep_if (λ k. not (is_of_user user_id k)) e.per_user key)
