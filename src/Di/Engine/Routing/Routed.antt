-- ===== src/Di/Engine/Routing/Routed.antt =====
-- What `resolve_async` keeps, and what it shares with `resolve`.
use mathlib.Core.Path.{subst}
use evoid_plugins.Prelude.{
  ◌≡◌, refl, ap, String, Bool, false, Option, none, some, [], string_eq, ◌==◌, arith,
}
use evoid_plugins.Py.Dict.{get, get_or}
use evoid_plugins.Py.Exec.{Result, ok, err, continue}
use evoid_plugins.Py.Value.{Value, atom, table}
use evoid_plugins.Evoid.{Levels, Context}
use evoid_plugins.Di.Rules
use evoid_plugins.Di.Rules.{Flat, RuleSet, extract_context, value_at}
use evoid_plugins.Di.Engine.Key.{routed}
use evoid_plugins.Di.Engine.{Factory, absent, object, callable, Engine, Method}
use evoid_plugins.Di.Engine.Scopes.{
  KeepsEngine, CachesOnly, create-engine, cached_singleton-CachesOnly, cached_user-CachesOnly,
  cached_singleton-eq-ok, cached_user-eq-ok, cached_singleton_hit, cached_user_hit,
}
use evoid_plugins.Di.Engine.Cache.{Fits, cached_user-Fits, cached_singleton-Fits, resolve-Fits}
use evoid_plugins.Di.Engine.Routing.{
  cache_key, make_impl, create_impl, resolve_impl, resolve_chosen, resolve_routed, resolve_async,
}

module _ {W I : Type 0} (levels : Levels) (truthy : I → Bool) where
  make_impl-engine : (f : Factory W I) → KeepsEngine (make_impl levels truthy f)
  unfolding make_impl
  make_impl-engine absent e w = refl
  make_impl-engine (object i) e w = ground (arith, create-engine (object i) e w)
  make_impl-engine (callable make) e w = create-engine (callable make) e w

  create_impl-engine :
      (impl_name : String) → KeepsEngine {W = W} (create_impl levels truthy impl_name)
  unfolding create_impl
  create_impl-engine impl_name e w = make_impl-engine (get_or e.impl_registry impl_name absent) e w

  -- What is kept by the caches is kept by the scoped cache.
  resolve_impl-CachesOnly :
      (name impl_name scope : String) (user_id : Value) (e : Engine W I) (w : W)
      → CachesOnly e (resolve_impl levels truthy name impl_name scope user_id (e, w)).1.0
  unfolding resolve_impl
  resolve_impl-CachesOnly name impl_name scope (atom u) e w =
      let make = create_impl {W = W} levels truthy impl_name in
      let keeps = create_impl-engine impl_name in
      ground (
        arith,
        cached_user-CachesOnly (routed name impl_name u) make e w keeps,
        cached_singleton-CachesOnly (cache_key name impl_name) make e w keeps,
        keeps e w,
      )
  resolve_impl-CachesOnly name impl_name scope (table t) e w =
      let make = create_impl {W = W} levels truthy impl_name in
      let keeps = create_impl-engine impl_name in
      ground
        (arith, cached_singleton-CachesOnly (cache_key name impl_name) make e w keeps, keeps e w)

  resolve_impl-Fits :
      (name impl_name scope : String) (user_id : Value) (e : Engine W I) (w : W)
      → Fits e
      → Fits (resolve_impl levels truthy name impl_name scope user_id (e, w)).1.0
  unfolding resolve_impl
  resolve_impl-Fits name impl_name scope (atom u) e w fits =
      let make = create_impl {W = W} levels truthy impl_name in
      let keeps = create_impl-engine impl_name in
      ground (
        arith,
        cached_user-Fits (routed name impl_name u) make e w keeps,
        cached_singleton-Fits (cache_key name impl_name) make e w keeps,
        keeps e w,
      )
  resolve_impl-Fits name impl_name scope (table t) e w fits =
      let make = create_impl {W = W} levels truthy impl_name in
      let keeps = create_impl-engine impl_name in
      ground (arith, cached_singleton-Fits (cache_key name impl_name) make e w keeps, keeps e w)

  resolve_impl_again :
      (name impl_name scope : String) (user_id : Value) (e : Engine W I) (w : W) (v : Option I)
      (s' : Engine W I × W)
      → (scope == "transient") ≡ false
      → resolve_impl levels truthy name impl_name scope user_id (e, w) ≡ (ok v, s')
      → resolve_impl levels truthy name impl_name scope user_id s' ≡ (ok v, s')
  unfolding resolve_impl
  resolve_impl_again name impl_name scope (atom u) e w v s' cached h =
      let make = create_impl {W = W} levels truthy impl_name in
      ground (
        arith,
        cached_singleton-eq-ok (cache_key name impl_name) make (e, w) {v = v} {s' = s'},
        cached_singleton_hit (cache_key name impl_name) make s' v,
        cached_user-eq-ok (routed name impl_name u) make (e, w) {v = v} {s' = s'},
        cached_user_hit (routed name impl_name u) make s' v,
      )
  resolve_impl_again name impl_name scope (table t) e w v s' cached h =
      let make = create_impl {W = W} levels truthy impl_name in
      ground (
        arith,
        cached_singleton-eq-ok (cache_key name impl_name) make (e, w) {v = v} {s' = s'},
        cached_singleton_hit (cache_key name impl_name) make s' v,
      )

  resolve_chosen-CachesOnly :
      (name : String) (context : Flat) (chosen : Option String) (e : Engine W I) (w : W)
      → CachesOnly e (resolve_chosen levels truthy name context chosen (e, w)).1.0
  unfolding resolve_chosen
  resolve_chosen-CachesOnly name context none e w = refl
  resolve_chosen-CachesOnly name context (some impl_name) e w =
      let scope = get_or (get_or e.services_config name []) "scope" "singleton" in
      ground (arith, resolve_impl-CachesOnly name impl_name scope (value_at context "user_id") e w)

  resolve_chosen-Fits :
      (name : String) (context : Flat) (chosen : Option String) (e : Engine W I) (w : W)
      → Fits e
      → Fits (resolve_chosen levels truthy name context chosen (e, w)).1.0
  unfolding resolve_chosen
  resolve_chosen-Fits name context none e w fits = fits
  resolve_chosen-Fits name context (some impl_name) e w fits =
      let scope = get_or (get_or e.services_config name []) "scope" "singleton" in
      ground (arith, resolve_impl-Fits name impl_name scope (value_at context "user_id") e w)

  -- what follows the rules, which answer or raise
  abbrev follow : String → Flat → Result (Option String) → Method W I (Option I)
  follow name context rule s = continue (rule, s) (resolve_chosen levels truthy name context)

  follow-Fits :
      (name : String) (context : Flat) (rule : Result (Option String)) (e : Engine W I) (w : W)
      → Fits e
      → Fits (follow name context rule (e, w)).1.0
  follow-Fits name context (ok chosen) e w fits = resolve_chosen-Fits name context chosen e w fits
  follow-Fits name context (err x) e w fits = fits

  resolve_routed-Fits :
      (name : String) (ctx : Context) (extra : Flat) (rs : Option RuleSet) (e : Engine W I) (w : W)
      → Fits e
      → Fits (resolve_routed levels truthy name ctx extra rs (e, w)).1.0
  unfolding resolve_routed
  resolve_routed-Fits name ctx extra none e w fits = resolve-Fits name none e w fits
  resolve_routed-Fits name ctx extra (some rs) e w fits =
      let context = extract_context ctx extra in
      follow-Fits name context (Rules.resolve levels rs context) e w fits

  -- The bound on the per-user cache holds across context-aware resolution too.
  pub resolve_async-Fits :
      (name : String) (ctx : Context) (extra : Flat) (e : Engine W I) (w : W)
      → Fits e
      → Fits (resolve_async levels truthy name ctx extra (e, w)).1.0
  unfolding resolve_async
  resolve_async-Fits name ctx extra e w fits =
      resolve_routed-Fits name ctx extra (get e.rule_sets name) e w fits

  follow_again :
      (name : String) (context : Flat) (rule : Result (Option String)) (e : Engine W I) (w : W)
      (v : Option I) (s' : Engine W I × W)
      → (get_or (get_or e.services_config name []) "scope" "singleton" == "transient") ≡ false
      → follow name context rule (e, w) ≡ (ok v, s')
      → follow name context rule s' ≡ (ok v, s')
  unfolding resolve_chosen
  follow_again name context (err x) e w v s' cached h = cc
  follow_again name context (ok none) e w v s' cached h = cc
  follow_again name context (ok (some impl_name)) e w v s' cached h =
      let scope = get_or (get_or e.services_config name []) "scope" "singleton" in
      let same =
        subst (λ r. CachesOnly e r.1.0) h
          (resolve_chosen-CachesOnly name context (some impl_name) e w) in
      ground (
        arith,
        ap (λ (x : Engine W I). x.services_config) same,
        resolve_impl_again name impl_name scope (value_at context "user_id") e w v s',
      )

  follow-CachesOnly :
      (name : String) (context : Flat) (rule : Result (Option String)) (e : Engine W I) (w : W)
      → CachesOnly e (follow name context rule (e, w)).1.0
  follow-CachesOnly name context (ok chosen) e w = resolve_chosen-CachesOnly name context chosen e w
  follow-CachesOnly name context (err x) e w = refl

  -- A service with routing rules whose scope is not `transient`, once resolved, is resolved again in
  -- the same context to the same instance, and neither the engine nor the world changes.
  pub resolve_async_again :
      (name : String) (ctx : Context) (extra : Flat) (rs : RuleSet) (e : Engine W I) (w : W)
      (v : Option I) (s' : Engine W I × W)
      → get e.rule_sets name ≡ some rs
      → (get_or (get_or e.services_config name []) "scope" "singleton" == "transient") ≡ false
      → resolve_async levels truthy name ctx extra (e, w) ≡ (ok v, s')
      → resolve_async levels truthy name ctx extra s' ≡ (ok v, s')
  unfolding resolve_async resolve_routed
  resolve_async_again name ctx extra rs e w v s' ruled cached h =
      let context = extract_context ctx extra in
      let rule = Rules.resolve levels rs context in
      let h' : follow name context rule (e, w) ≡ (ok v, s') = ground (arith, ruled, h) in
      let same = subst (λ r. CachesOnly e r.1.0) h' (follow-CachesOnly name context rule e w) in
      let again = follow_again name context rule e w v s' cached h' in
      ground (arith, ruled, ap (λ (x : Engine W I). x.rule_sets) same, again)

  -- The two levels share one cache: with routing that picks the implementation `impl_name`, in the
  -- default scope, what stands there for the plain service `name:impl_name` is the answer.
  pub resolve_impl_collision :
      (name impl_name : String) (user_id : Value) (e : Engine W I) (w : W) (v : Option I)
      → get e.singletons (cache_key name impl_name) ≡ some v
      → resolve_impl levels truthy name impl_name "singleton" user_id (e, w) ≡ (ok v, (e, w))
  unfolding resolve_impl
  resolve_impl_collision name impl_name user_id e w v h = ground (
    arith,
    cached_singleton_hit (cache_key name impl_name) (create_impl levels truthy impl_name) (e, w) v,
  )
