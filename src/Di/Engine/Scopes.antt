-- ===== src/Di/Engine/Scopes.antt =====
-- What a scope promises: a cached service keeps its instance, and users are kept apart.
use evoid_plugins.Prelude.{
  ◌≡◌, refl, ap, String, false, Option, none, some, arith, string_eq, ◌==◌, Bool-cases, inl, inr,
}
use mathlib.Core.Path.{subst}
use evoid_plugins.Py.Dict.{get, get_or, has_key}
use evoid_plugins.Py.Dict.Laws.{has_key-eq}
use evoid_plugins.Py.Exec.{ok, continue-eq-ok}
use evoid_plugins.Di.Engine.Key.{UserKey, direct, user_key_eq}
use evoid_plugins.Di.Engine.{
  Engine, Factory, absent, object, callable, create, delete_oldest, evict_per_user_if_needed,
  fetch_user, fetch_singleton, Method, cached_user, cached_singleton, resolve_per_user,
  resolve_scoped, resolve,
}

module _ {W I : Type 0} where
  -- Making an instance changes the world alone.
  pub create-engine : (f : Factory W I) (e : Engine W I) (w : W) → (create f (e, w)).1.0 ≡ e
  unfolding create
  create-engine absent e w = refl
  create-engine (object i) e w = refl
  create-engine (callable make) e w = refl

  -- A method that changes nothing but the world, as `_create` and `_create_impl` do.
  abbrev pub KeepsEngine : Method W I (Option I) → Type 0
  KeepsEngine make = (e : Engine W I) (w : W) → (make (e, w)).1.0 ≡ e

  fetch_singleton-eq-ok :
      (key : String) (s : Engine W I × W) {v : Option I} {s' : Engine W I × W}
      → fetch_singleton key s ≡ (ok v, s')
      → get s'.0.singletons key ≡ some v
  fetch_singleton-eq-ok key (e, w) h = ground arith

  fetch_user-eq-ok :
      (key : UserKey) (s : Engine W I × W) {v : Option I} {s' : Engine W I × W}
      → fetch_user key s ≡ (ok v, s')
      → get s'.0.per_user key ≡ some v
  fetch_user-eq-ok key (e, w) h = ground arith

  -- Where a cached look-up answers, the answer is in the cache.
  pub cached_singleton-eq-ok :
      (key : String) (make : Method W I (Option I)) (s : Engine W I × W) {v : Option I}
      {s' : Engine W I × W}
      → cached_singleton key make s ≡ (ok v, s')
      → get s'.0.singletons key ≡ some v
  unfolding cached_singleton
  cached_singleton-eq-ok key make (e, w) h = elim (Bool-cases (has_key e.singletons key)) [
    | inl old ↦ fetch_singleton-eq-ok key (e, w) (rw (old) at h)
    | inr new ↦
        let (made, s1, ran, rest) = continue-eq-ok (make (e, w)) _ (rw (new) at h) in
        fetch_singleton-eq-ok key _ rest
  ]

  pub cached_user-eq-ok :
      (key : UserKey) (make : Method W I (Option I)) (s : Engine W I × W) {v : Option I}
      {s' : Engine W I × W}
      → cached_user key make s ≡ (ok v, s')
      → get s'.0.per_user key ≡ some v
  unfolding cached_user
  cached_user-eq-ok key make (e, w) h = elim (Bool-cases (has_key e.per_user key)) [
    | inl old ↦ fetch_user-eq-ok key (e, w) (rw old at h)
    | inr new ↦
        let (done, s0, evicted, rest0) =
          continue-eq-ok (evict_per_user_if_needed (e, w)) _ (rw new at h) in
        let (made, s1, ran, rest) = continue-eq-ok (make s0) _ rest0 in fetch_user-eq-ok key _ rest
  ]

  -- What is in the cache is answered, whatever would make a new instance, and nothing changes.
  pub cached_singleton_hit :
      (key : String) (make : Method W I (Option I)) (s : Engine W I × W) (v : Option I)
      → get s.0.singletons key ≡ some v
      → cached_singleton key make s ≡ (ok v, s)
  unfolding cached_singleton
  cached_singleton_hit key make (e, w) v h = ground (arith, has_key-eq e.singletons key)

  pub cached_user_hit :
      (key : UserKey) (make : Method W I (Option I)) (s : Engine W I × W) (v : Option I)
      → get s.0.per_user key ≡ some v
      → cached_user key make s ≡ (ok v, s)
  unfolding cached_user
  cached_user_hit key make (e, w) v h = ground (arith, has_key-eq e.per_user key)

  -- Only the two caches differ.
  abbrev pub CachesOnly : Engine W I → Engine W I → Type 0
  CachesOnly e e' = e' ≡ record e { singletons = e'.singletons; per_user = e'.per_user }

  pub cached_singleton-CachesOnly :
      (key : String) (make : Method W I (Option I)) (e : Engine W I) (w : W)
      → KeepsEngine make
      → CachesOnly e (cached_singleton key make (e, w)).1.0
  unfolding cached_singleton
  cached_singleton-CachesOnly key make e w keeps = ground (arith, keeps e w)

  evict-CachesOnly : (e : Engine W I) (w : W) → CachesOnly e (evict_per_user_if_needed (e, w)).1.0
  unfolding evict_per_user_if_needed delete_oldest
  evict-CachesOnly e w = ground arith

  pub cached_user-CachesOnly :
      (key : UserKey) (make : Method W I (Option I)) (e : Engine W I) (w : W)
      → KeepsEngine make
      → CachesOnly e (cached_user key make (e, w)).1.0
  unfolding cached_user
  cached_user-CachesOnly key make e w keeps =
      let (e', w') = (evict_per_user_if_needed (e, w)).1 in
      ground (arith, evict-CachesOnly e w, keeps e' w')

  resolve_scoped-CachesOnly :
      (name : String) (user_id : Option String) (scope : String) (f : Factory W I) (e : Engine W I)
      (w : W)
      → CachesOnly e (resolve_scoped name user_id scope f (e, w)).1.0
  unfolding resolve_scoped resolve_per_user
  resolve_scoped-CachesOnly name user_id scope absent e w = refl
  resolve_scoped-CachesOnly name none scope f e w = ground (
    arith,
    cached_singleton-CachesOnly name (create f) e w (create-engine f),
    create-engine f e w,
  )
  resolve_scoped-CachesOnly name (some u) scope f e w = ground (
    arith,
    cached_singleton-CachesOnly name (create f) e w (create-engine f),
    create-engine f e w,
    cached_user-CachesOnly (direct name u) (create f) e w (create-engine f),
  )

  -- `resolve` changes nothing of the engine but its caches.
  pub resolve-CachesOnly :
      (name : String) (user_id : Option String) (e : Engine W I) (w : W)
      → CachesOnly e (resolve name user_id (e, w)).1.0
  unfolding resolve
  resolve-CachesOnly name user_id e w = ground (
    arith,
    resolve_scoped-CachesOnly name user_id (get_or e.scopes name "singleton")
        (get_or e.factories name absent) e w,
  )

  resolve_scoped_again :
      (name : String) (user_id : Option String) (scope : String) (f : Factory W I) (e : Engine W I)
      (w : W) (v : Option I) (s' : Engine W I × W)
      → (scope == "transient") ≡ false
      → resolve_scoped name user_id scope f (e, w) ≡ (ok v, s')
      → resolve_scoped name user_id scope f s' ≡ (ok v, s')
  unfolding resolve_scoped resolve_per_user
  resolve_scoped_again name user_id scope absent e w v s' cached h = cc
  resolve_scoped_again name none scope f e w v s' cached h = ground (
    arith,
    cached_singleton-eq-ok name (create f) (e, w) {v = v} {s' = s'},
    cached_singleton_hit name (create f) s' v,
  )
  resolve_scoped_again name (some u) scope f e w v s' cached h = ground (
    arith,
    cached_singleton-eq-ok name (create f) (e, w) {v = v} {s' = s'},
    cached_singleton_hit name (create f) s' v,
    cached_user-eq-ok (direct name u) (create f) (e, w) {v = v} {s' = s'},
    cached_user_hit (direct name u) (create f) s' v,
  )

  -- A service whose scope is not `transient`, once resolved, is resolved again (for the same user) to
  -- the same instance, and no factory runs: neither the engine nor the world changes.
  pub resolve_again :
      (name : String) (user_id : Option String) (e : Engine W I) (w : W) (v : Option I)
      (s' : Engine W I × W)
      → (get_or e.scopes name "singleton" == "transient") ≡ false
      → resolve name user_id (e, w) ≡ (ok v, s')
      → resolve name user_id s' ≡ (ok v, s')
  unfolding resolve
  resolve_again name user_id e w v s' cached h =
      let scope = get_or e.scopes name "singleton" in
      let factory = get_or e.factories name absent in
      let same = subst (λ r. CachesOnly e r.1.0) h (resolve-CachesOnly name user_id e w) in
      ground (
        arith,
        ap (λ (x : Engine W I). x.scopes) same,
        ap (λ (x : Engine W I). x.factories) same,
        ap (λ (x : Engine W I). x.rule_sets) same,
        resolve_scoped_again name user_id scope factory e w v s',
      )
